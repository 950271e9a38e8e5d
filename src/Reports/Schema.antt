-- ===== src/Reports/Schema.antt =====
-- The models of backend/app/schemas/report.py that constrain one another, with the checks that they
-- make. `F` is Python's float; identifiers are numbers.
use baa_system.Base.{
  ℕ, String, Bool, true, false, not, ◌&&◌, ◌||◌, Option, none, some, List, [], ◌∷◌, map, scalar,
  unique, contains, length, is_empty, leb, ◌==◌, if◌then◌else◌,
}

pub data QualityStatus : Type 0 where
  verified limited : QualityStatus

pub data ConclusionStatus : Type 0 where
  confirmed probable to_verify : ConclusionStatus

pub data ImpactLevel : Type 0 where
  high medium low : ImpactLevel

pub record EvidenceItem (F : Type 0) : Type 0 where
  pub evidence_id : ℕ
  pub title : String
  pub description : String
  pub evidence_type : String
  pub metric : Option String
  pub current_value : Option F
  pub baseline_value : Option F
  pub change_value : Option F
  pub change_rate : Option F
  pub scope : String
  pub source_file_ids : List ℕ
  pub formula : String
  pub quality_status : QualityStatus

pub record AttributionConclusion (F : Type 0) : Type 0 where
  pub conclusion_id : ℕ
  pub title : String
  pub description : String
  pub status : ConclusionStatus
  pub impact_level : ImpactLevel
  pub confidence : F
  pub evidence_ids : List ℕ
  pub verification_needed : Bool

pub record ChartSeries (F : Type 0) : Type 0 where
  pub name : String
  pub data_points : List F

pub data ChartType : Type 0 where
  line bar stacked_bar pie table : ChartType

-- A row of a table is a dictionary, of type `R`.
pub record Visualization (F R : Type 0) : Type 0 where
  pub chart_id : ℕ
  pub title : String
  pub chart_type : ChartType
  pub dimension : Option String
  pub categories : List String
  pub series : List (ChartSeries F)
  pub columns : List String
  pub rows : List R

abbrev pub is_verified : QualityStatus → Bool
is_verified verified = true
is_verified limited = false

abbrev pub is_confirmed : ConclusionStatus → Bool
is_confirmed confirmed = true
is_confirmed _ = false

-- `set(evidence_ids).issubset(known_evidence)`
unfoldable pub all_known : List ℕ → List ℕ → Bool
all_known known [] = true
all_known known (id ∷ ids) = contains id known && all_known known ids

module _ {F : Type 0} where
  -- `any(len(series.data) != points ...)`
  any_mismatch : ℕ → List (ChartSeries F) → Bool
  any_mismatch points [] = false
  any_mismatch points (s ∷ ss) = not (length s.data_points == points) || any_mismatch points ss

  -- `validate_shape`: the message of the `ValueError`, if there is one.
  unfoldable pub validate_shape : {R : Type 0} → Visualization F R → Option String
  unfolding any_mismatch
  validate_shape v = elim v.chart_type [
    | table ↦
        if is_empty v.columns
        then some "table visualization requires columns"
        else if not (leb (length v.rows) 500)
        then some "table visualization exceeds row limit"
        else none
    | _ ↦
        if is_empty v.categories || is_empty v.series
        then some "chart visualization requires categories and series"
        else if not (leb (length v.categories) 500)
        then some "chart visualization exceeds point limit"
        else if any_mismatch (length v.categories) v.series
        then some "chart category and series lengths must match"
        else none
  ]

  -- `evidence_by_id[id]`: the identifiers have been found to be unique.
  abbrev pub evidence_by_id : List (EvidenceItem F) → ℕ → Option (EvidenceItem F)
  evidence_by_id evidence_list id = scalar (λ e. e.evidence_id == id) evidence_list

  -- `any(evidence_by_id[id].quality_status != "verified" ...)`, for known identifiers.
  unfoldable pub any_unverified : List (EvidenceItem F) → List ℕ → Bool
  any_unverified evidence_list [] = false
  any_unverified evidence_list (id ∷ ids) =
      elim (evidence_by_id evidence_list id) [
        | none ↦ true
        | some e ↦ not (is_verified e.quality_status)
      ]
      || any_unverified evidence_list ids

  -- One round of the loop of `validate_references`.
  unfoldable pub conclusion_error : List (EvidenceItem F) → AttributionConclusion F → Option String
  conclusion_error evidence_list c =
      if not (all_known (map (λ e. e.evidence_id) evidence_list) c.evidence_ids)
      then some "conclusion references unknown evidence"
      else if is_confirmed c.status && is_empty c.evidence_ids
      then some "confirmed conclusion requires evidence"
      else if is_confirmed c.status && c.verification_needed
      then some "confirmed conclusion cannot require verification"
      else if is_confirmed c.status && any_unverified evidence_list c.evidence_ids
      then some "confirmed conclusion requires verified evidence"
      else none

  unfoldable pub first_error :
      List (EvidenceItem F) → List (AttributionConclusion F) → Option String
  first_error evidence_list [] = none
  first_error evidence_list (c ∷ cs) = elim (conclusion_error evidence_list c) [
    | some message ↦ some message
    | none ↦ first_error evidence_list cs
  ]

  -- `ReportIR.validate_references`: the message of the `ValueError`, if there is one.
  unfoldable pub validate_references :
      List (EvidenceItem F) → List (AttributionConclusion F) → Option String
  validate_references evidence_list attribution_conclusions =
      let evidence_ids = map (λ e. e.evidence_id) evidence_list in
      let conclusion_ids = map (λ c. c.conclusion_id) attribution_conclusions in
      if not (length evidence_ids == length (unique evidence_ids))
      then some "evidence_id must be unique"
      else if not (length conclusion_ids == length (unique conclusion_ids))
      then some "conclusion_id must be unique"
      else first_error evidence_list attribution_conclusions
