-- ===== src/Reports/Report.antt =====
-- The whole of a report: `ReportIR` (backend/app/schemas/report.py) with the checks of its fields,
-- and the node that validates it (backend/app/agent/nodes/validate_report.py).
use baa_system.Base.{
  ℕ, suc, String, Bool, true, not, ◌&&◌, Option, none, some, List, [], ◌∷◌, is_empty, leb, is_some,
  if◌then◌else◌,
}
use baa_system.Reports.Schema.{
  ImpactLevel, EvidenceItem, AttributionConclusion, ChartSeries, Visualization, validate_shape,
  validate_references,
}

pub data Scenario : Type 0 where
  market_performance inventory_anomaly general : Scenario

pub record ReportProblemDefinition : Type 0 where
  pub question : String
  pub scope : String
  pub metric : String
  pub baseline : String
  pub scenario : Scenario
  pub assumptions : List String

pub record KeyMetric (F : Type 0) : Type 0 where
  pub metric_id : ℕ
  pub label : String
  pub value : F
  pub unit : Option String
  pub formula : String
  pub scope : String
  pub baseline_value : Option F
  pub absolute_change : Option F
  pub change_rate : Option F

pub record MissingDataItem : Type 0 where
  pub field : String
  pub reason : String
  pub impact : String
  pub required_action : String

pub record NextAction : Type 0 where
  pub action_id : ℕ
  pub title : String
  pub description : String
  pub priority : ImpactLevel
  pub owner_hint : Option String

pub record SourceFile : Type 0 where
  pub file_id : ℕ
  pub file_name : String
  pub source_type : String
  pub row_count : Option ℕ

pub data GeneratedFileType : Type 0 where
  html md json : GeneratedFileType

pub record GeneratedFile : Type 0 where
  pub file_type : GeneratedFileType
  pub file_name : String
  pub storage_key : String
  pub file_size : ℕ
  pub sha256 : String

pub record ReportIr (F R : Type 0) : Type 0 where
  pub task_id : ℕ
  pub problem_definition : ReportProblemDefinition
  pub key_metrics : List (KeyMetric F)
  pub evidence_list : List (EvidenceItem F)
  pub attribution_conclusions : List (AttributionConclusion F)
  pub missing_data : List MissingDataItem
  pub next_actions : List NextAction
  pub visualizations : List (Visualization F R)
  pub source_files : List SourceFile
  pub generated_files : List GeneratedFile

abbrev every : {A : Type 0} → (A → Bool) → List A → Bool
every p [] = true
every p (x ∷ xs) = p x && every p xs

-- `is_finite` is `math.isfinite`.
module _ {F : Type 0} (is_finite : F → Bool) where
  abbrev finite_or_none : Option F → Bool
  finite_or_none none = true
  finite_or_none (some x) = is_finite x

  unfoldable pub finite_numbers : KeyMetric F → Bool
  finite_numbers k =
      is_finite k.value
      && finite_or_none k.baseline_value
      && finite_or_none k.absolute_change
      && finite_or_none k.change_rate

  -- With `source_file_ids` of at least one.
  unfoldable pub finite_evidence_numbers : EvidenceItem F → Bool
  finite_evidence_numbers e =
      not (is_empty e.source_file_ids)
      && finite_or_none e.current_value
      && finite_or_none e.baseline_value
      && finite_or_none e.change_value
      && finite_or_none e.change_rate

  unfoldable pub finite_series : ChartSeries F → Bool
  finite_series s = every is_finite s.data_points

-- What `ValidateReportNode` answers: the report, one more attempt with its number, or the
-- exception `REPORT_INVALID`.
pub data NodeResult (F R : Type 0) : Type 0 where
  report_valid : ReportIr F R → NodeResult F R
  report_retry : ℕ → NodeResult F R
  report_invalid : NodeResult F R

-- `in_unit` is `0 <= confidence <= 1`.
module _ {F R : Type 0} (is_finite in_unit : F → Bool) where
  -- The fields of `ReportIR` are validated first, and then `validate_references`.
  unfoldable pub is_valid_report : ReportIr F R → Bool
  unfolding finite_numbers finite_evidence_numbers finite_series
  is_valid_report report =
      not (is_empty report.key_metrics)
      && every (finite_numbers is_finite) report.key_metrics
      && not (is_empty report.evidence_list)
      && every (finite_evidence_numbers is_finite) report.evidence_list
      && not (is_empty report.attribution_conclusions)
      && every (λ c. in_unit c.confidence) report.attribution_conclusions
      && not (is_empty report.next_actions)
      && every (λ v. every (finite_series is_finite) v.series && not (is_some (validate_shape v)))
          report.visualizations
      && not (is_empty report.source_files)
      && not (is_some (validate_references report.evidence_list report.attribution_conclusions))

  unfoldable pub validate_report : ℕ → ReportIr F R → NodeResult F R
  validate_report report_retry_count report =
      if is_valid_report report
      then report_valid report
      else if leb 1 report_retry_count
      then report_invalid
      else report_retry (suc report_retry_count)
