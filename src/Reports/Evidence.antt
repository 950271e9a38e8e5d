-- ===== src/Reports/Evidence.antt =====
-- The node of backend/app/agent/nodes/build_evidence.py: pieces of evidence from what the analysis
-- has computed. Floats, their texts and literals are parameters; identifiers are numbers, a piece of
-- evidence being known by n for "ev_00n".
use baa_system.Base.{
  ℕ, suc, String, Bool, true, false, not, ◌||◌, Option, none, some, List, [], ◌∷◌, ◌++◌, length,
  take, is_empty, if◌then◌else◌, ltb, ◌==◌, ◌<+>◌, scalar, same_text, is_blank,
}
use baa_system.Reports.Schema.{EvidenceItem, QualityStatus, verified, limited}

pub record Floats (F : Type 0) : Type 0 where
  -- `float(...)` of a literal
  pub literal : String → F
  pub less : F → F → Bool
  pub absolute : F → F
  pub smaller : F → F → F
  -- as in an f-string
  pub show : Option F → String
  -- the truth of a float: it is not zero
  pub is_truthy : F → Bool

pub record Comparison (F : Type 0) : Type 0 where
  pub file_id : ℕ
  pub metric_field : String
  pub current_period : String
  pub baseline_period : String
  pub current_value : Option F
  pub baseline_value : Option F
  pub absolute_change : Option F
  pub change_rate : Option F
  pub formula : String

pub record ChangeItem (F : Type 0) : Type 0 where
  pub dimension_value : String
  pub current_value : Option F
  pub baseline_value : Option F
  pub absolute_change : Option F
  pub change_rate : Option F

pub record ChangeGroup (F : Type 0) : Type 0 where
  pub file_id : ℕ
  pub dimension : String
  pub metric_field : String
  pub formula : String
  pub items : List (ChangeItem F)

pub record RiskItem (F : Type 0) : Type 0 where
  pub file_id : ℕ
  pub item : String
  pub risk_type : String
  pub severity : String
  pub stock : Option F
  pub sales : Option F
  pub coverage_days : Option F
  pub formula : String

pub record Metric (F : Type 0) : Type 0 where
  pub file_id : ℕ
  pub field : String
  pub metric : String
  pub scope : String
  pub scope_status : String
  pub value : Option F
  pub formula : String

pub record MetricResults (F : Type 0) : Type 0 where
  pub comparisons : List (Comparison F)
  pub dimension_changes : List (ChangeGroup F)
  pub risk_items : List (RiskItem F)
  pub metrics : List (Metric F)

-- A report of `data_quality["files"]`; `metric_missing` is `missing_counts[metric_field]`, 0 where
-- there is no metric field.
pub record FileReport : Type 0 where
  pub file_id : ℕ
  pub usable : Bool
  pub metric_missing : ℕ
  pub duplicate_count : ℕ
  pub sample_size_warning : Bool
  pub time_field : Option String
  pub time_min : Option String
  pub time_max : Option String

pub data EvidenceKind : Type 0 where
  comparison dimension_change inventory_risk metric : EvidenceKind

-- The item, with the keys that only `determine_attribution` reads.
pub record Evidence (F : Type 0) : Type 0 where
  pub item : EvidenceItem F
  pub kind : EvidenceKind
  pub dimension : String
  pub dimension_value : String
  pub severity : String

-- `not text` for an optional text.
unfoldable pub lacks : Option String → Bool
lacks none = true
lacks (some text) = is_blank text

unfoldable pub report_quality : FileReport → QualityStatus
unfolding lacks
report_quality report =
    if not report.usable
      || ltb 0 report.metric_missing
      || ltb 0 report.duplicate_count
      || report.sample_size_warning
      || lacks report.time_field
      || lacks report.time_min
      || lacks report.time_max
    then limited
    else verified

unfoldable pub evidence_quality : List FileReport → ℕ → Option String → QualityStatus
unfolding report_quality
evidence_quality reports file_id scope_status =
    if elim scope_status [ none ↦ false | some status ↦ not (same_text status "verified") ]
    then limited
    else elim (scalar (λ report. report.file_id == file_id) reports) [
      | none ↦ limited
      | some report ↦ report_quality report
    ]

unfoldable pub risk_label : String → String
risk_label risk_type =
    if same_text risk_type "stockout"
    then "缺货风险"
    else if same_text risk_type "overstock"
    then "积压风险"
    else if same_text risk_type "slow_moving"
    then "滞销风险"
    else "库存异常"

-- `append` for each: the next number is one more than the length.
unfoldable pub append_numbered : {A : Type 0} → List A → List (ℕ → A) → List A
append_numbered list [] = list
append_numbered list (make ∷ rest) = append_numbered (list ++ (make (suc (length list)) ∷ [])) rest

-- `if not list: ...` after the first appends.
unfoldable pub numbered_or : {A : Type 0} → List (ℕ → A) → List (ℕ → A) → List A
unfolding append_numbered
numbered_or makes fallback =
    let list = append_numbered [] makes in
    if is_empty list then append_numbered list fallback else list

unfoldable pub each : {A B : Type 0} → (A → B) → List A → List B
each f [] = []
each f (x ∷ xs) = f x ∷ each f xs

module _ {F : Type 0} (floats : Floats F) (reports : List FileReport) (scope : String) where
  unfoldable pub comparison_evidence : Comparison F → ℕ → Evidence F
  comparison_evidence c n = record {
    item = record {
      evidence_id = n;
      title = c.metric_field <+> " 基线对比";
      description =
          c.current_period
          <+> " 为 "
          <+> floats.show c.current_value
          <+> "，基线 "
          <+> c.baseline_period
          <+> " 为 "
          <+> floats.show c.baseline_value
          <+> "。";
      evidence_type = "baseline_comparison";
      metric = some c.metric_field;
      current_value = c.current_value;
      baseline_value = c.baseline_value;
      change_value = c.absolute_change;
      change_rate = c.change_rate;
      scope = scope;
      source_file_ids = c.file_id ∷ [];
      formula = c.formula;
      quality_status = evidence_quality reports c.file_id none;
    };
    kind = comparison;
    dimension = "";
    dimension_value = "";
    severity = "";
  }

  unfoldable pub change_evidence : ChangeGroup F → ChangeItem F → ℕ → Evidence F
  change_evidence g c n = record {
    item = record {
      evidence_id = n;
      title = g.dimension <+> "=" <+> c.dimension_value <+> " 的变化贡献";
      description =
          "当前值 "
          <+> floats.show c.current_value
          <+> "，基线值 "
          <+> floats.show c.baseline_value
          <+> "，变化 "
          <+> floats.show c.absolute_change
          <+> "。";
      evidence_type = "dimension_change";
      metric = some g.metric_field;
      current_value = c.current_value;
      baseline_value = c.baseline_value;
      change_value = c.absolute_change;
      change_rate = c.change_rate;
      scope = scope;
      source_file_ids = g.file_id ∷ [];
      formula = g.formula;
      quality_status = evidence_quality reports g.file_id none;
    };
    kind = dimension_change;
    dimension = g.dimension;
    dimension_value = c.dimension_value;
    severity = "";
  }

  -- `coverage_days or stock`.
  unfoldable pub risk_value : RiskItem F → Option F
  risk_value r = elim r.coverage_days [
    | none ↦ r.stock
    | some days ↦ if floats.is_truthy days then some days else r.stock
  ]

  unfoldable pub risk_evidence : RiskItem F → ℕ → Evidence F
  unfolding risk_value
  risk_evidence r n = record {
    item = record {
      evidence_id = n;
      title = r.item <+> "：" <+> risk_label r.risk_type;
      description =
          "库存 "
          <+> floats.show r.stock
          <+> "，期间销量 "
          <+> floats.show r.sales
          <+> "，覆盖天数 "
          <+> floats.show r.coverage_days
          <+> "。";
      evidence_type = "inventory_risk";
      metric = some "inventory_coverage";
      current_value = risk_value r;
      baseline_value = none;
      change_value = none;
      change_rate = none;
      scope = scope;
      source_file_ids = r.file_id ∷ [];
      formula = r.formula;
      quality_status = evidence_quality reports r.file_id none;
    };
    kind = inventory_risk;
    dimension = "";
    dimension_value = "";
    severity = r.severity;
  }

  unfoldable pub metric_evidence : Metric F → ℕ → Evidence F
  metric_evidence m n = record {
    item = record {
      evidence_id = n;
      title = m.field <+> " 指标计算结果";
      description = "在 " <+> m.scope <+> " 范围内计算值为 " <+> floats.show m.value <+> "。";
      evidence_type = "metric_calculation";
      metric = some m.metric;
      current_value = m.value;
      baseline_value = none;
      change_value = none;
      change_rate = none;
      scope = scope;
      source_file_ids = m.file_id ∷ [];
      formula = m.formula;
      quality_status = evidence_quality reports m.file_id (some m.scope_status);
    };
    kind = metric;
    dimension = "";
    dimension_value = "";
    severity = "";
  }

  unfoldable pub change_makers : List (ChangeGroup F) → List (ℕ → Evidence F)
  unfolding each change_evidence
  change_makers [] = []
  change_makers (g ∷ gs) = each (change_evidence g) (take 5 g.items) ++ change_makers gs

  -- The node: comparisons, changes of dimensions, risks, and metrics where there is nothing else.
  unfoldable pub build_evidence : MetricResults F → List (Evidence F)
  unfolding numbered_or each comparison_evidence change_makers risk_evidence metric_evidence
  build_evidence results =
      numbered_or
        (each comparison_evidence results.comparisons
          ++ change_makers results.dimension_changes
          ++ each risk_evidence (take 20 results.risk_items))
        (each metric_evidence (take 5 results.metrics))
