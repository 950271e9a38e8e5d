-- ===== src/Reports/Attribution.antt =====
-- The node of backend/app/agent/nodes/determine_attribution.py: conclusions from pieces of evidence.
-- A conclusion is known by n for "c_00n".
use baa_system.Base.{
  ℕ, String, Bool, true, false, not, ◌&&◌, Option, none, some, List, [], ◌∷◌, ◌++◌, map, take,
  if◌then◌else◌, ◌<+>◌, select, same_text,
}
use baa_system.Reports.Schema.{
  AttributionConclusion, ConclusionStatus, confirmed, probable, to_verify, ImpactLevel, high,
  medium, low, QualityStatus, verified, limited,
}
use baa_system.Reports.Evidence.{
  Floats, Evidence, EvidenceKind, comparison, dimension_change, inventory_risk, numbered_or, each,
}

abbrev pub is_comparison_item : EvidenceKind → Bool
is_comparison_item comparison = true
is_comparison_item _ = false

abbrev pub is_change : EvidenceKind → Bool
is_change dimension_change = true
is_change _ = false

abbrev pub is_risk : EvidenceKind → Bool
is_risk inventory_risk = true
is_risk _ = false

module _ {F : Type 0} (floats : Floats F) (last_part : String → String) where
  -- `float(value or 0.0)`.
  unfoldable pub float_or_zero : Option F → F
  float_or_zero none = floats.literal "0.0"
  float_or_zero (some x) = if floats.is_truthy x then x else floats.literal "0.0"

  unfoldable pub attribution_level : QualityStatus → F → ConclusionStatus × F × Bool
  attribution_level verified confirmed_confidence = (confirmed, confirmed_confidence, false)
  attribution_level limited confirmed_confidence =
      (probable, floats.smaller confirmed_confidence (floats.literal "0.7"), true)

  unfoldable pub impact_level : Option F → ImpactLevel
  unfolding float_or_zero
  impact_level change_rate =
      let rate = floats.absolute (float_or_zero change_rate) in
      if not (floats.less rate (floats.literal "0.2"))
      then high
      else if not (floats.less rate (floats.literal "0.05"))
      then medium
      else low

  -- A conclusion from one piece of evidence.
  unfoldable pub conclude :
      String
      → (Evidence F → String)
      → (Evidence F → String)
      → (Evidence F → ImpactLevel)
      → Evidence F
      → ℕ
      → AttributionConclusion F
  unfolding attribution_level
  conclude confirmed_confidence title description impact e n =
      let (status, confidence, verification_needed) =
        attribution_level e.item.quality_status (floats.literal confirmed_confidence) in
      record {
        conclusion_id = n;
        title = title e;
        description = description e;
        status = status;
        impact_level = impact e;
        confidence = confidence;
        evidence_ids = e.item.evidence_id ∷ [];
        verification_needed = verification_needed;
      }

  unfoldable pub is_decline : Evidence F → Bool
  unfolding float_or_zero
  is_decline e = floats.less (float_or_zero e.item.change_value) (floats.literal "0.0")

  unfoldable pub comparison_title : Evidence F → String
  unfolding is_decline
  comparison_title e = "目标指标较基线" <+> (if is_decline e then "下降" else "上升")

  unfoldable pub change_description : Evidence F → String
  change_description e =
      "按"
      <+> e.dimension
      <+> "拆解，该项较基线变化 "
      <+> floats.show e.item.change_value
      <+> "；这是数值贡献，不等同于深层因果。"

  -- `last_part` is `title.split('：')[-1]`.
  unfoldable pub risk_description : Evidence F → String
  risk_description e = "依据库存和销量公式识别为" <+> last_part e.item.title <+> "；形成原因仍需结合采购、交付或活动数据验证。"

  unfoldable pub magnitude : Evidence F → F
  unfolding float_or_zero
  magnitude e = floats.absolute (float_or_zero e.item.change_value)

  -- `sort(key=..., reverse=True)`, which keeps the order of equals.
  unfoldable pub insert_largest : Evidence F → List (Evidence F) → List (Evidence F)
  unfolding magnitude
  insert_largest e [] = e ∷ []
  insert_largest e (x ∷ xs) =
      let rest = insert_largest e xs in
      if floats.less (magnitude e) (magnitude x) then x ∷ rest else e ∷ x ∷ xs

  unfoldable pub largest_first : List (Evidence F) → List (Evidence F)
  unfolding insert_largest
  largest_first [] = []
  largest_first (e ∷ es) = insert_largest e (largest_first es)

  unfoldable pub comparison_conclusions : List (Evidence F) → List (ℕ → AttributionConclusion F)
  unfolding each conclude comparison_title impact_level
  comparison_conclusions evidence =
      each
        (conclude "0.98" comparison_title (λ e. e.item.description)
          (λ e. impact_level e.item.change_rate))
        (take 1 (select (λ e. is_comparison_item e.kind) evidence))

  unfoldable pub change_conclusions : List (Evidence F) → List (ℕ → AttributionConclusion F)
  unfolding each conclude change_description impact_level largest_first is_decline
  change_conclusions evidence =
      each
        (conclude "0.95" (λ e. e.dimension_value <+> "贡献了主要下降") change_description
          (λ e. impact_level e.item.change_rate))
        (take 3 (largest_first (select (λ e. is_change e.kind && is_decline e) evidence)))

  unfoldable pub risk_conclusions : List (Evidence F) → List (ℕ → AttributionConclusion F)
  unfolding each conclude risk_description
  risk_conclusions evidence =
      each
        (conclude "0.9" (λ e. e.item.title) risk_description
          (λ e. if same_text e.severity "high" then high else medium))
        (take 5 (select (λ e. is_risk e.kind) evidence))

  -- The conclusion when there is no other.
  unfoldable pub descriptive_conclusion : List (Evidence F) → ℕ → AttributionConclusion F
  descriptive_conclusion evidence n = record {
    conclusion_id = n;
    title = "当前数据仅支持描述性判断";
    description = "已完成指标计算，但缺少可验证的基线变化或维度变化证据，不能将相关性表述为经营原因。";
    status = to_verify;
    impact_level = medium;
    confidence = floats.literal "0.45";
    evidence_ids = map (λ e. e.item.evidence_id) (take 3 evidence);
    verification_needed = true;
  }

  unfoldable pub determine_attribution : List (Evidence F) → List (AttributionConclusion F)
  unfolding numbered_or comparison_conclusions change_conclusions risk_conclusions
      descriptive_conclusion
  determine_attribution evidence =
      numbered_or
        (comparison_conclusions evidence
          ++ change_conclusions evidence
          ++ risk_conclusions evidence)
        (descriptive_conclusion evidence ∷ [])
