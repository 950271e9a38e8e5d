-- ===== src/Scenarios/Reports.antt =====
-- The theorems on the references of a report, applied to one conclusion with one piece of evidence.
use baa_system.Base.{
  ℕ, ◌≡◌, refl, true, false, none, some, List, [], ◌∷◌, scalar, unique, map, ltb, min,
}
use baa_system.Reports.Evidence.{Floats, MetricResults, FileReport, build_evidence}
use baa_system.Reports.Attribution.{determine_attribution}
use baa_system.Reports.Justified.{validate_references-determine_attribution}
use baa_system.Reports.Schema.{
  verified, confirmed, high, EvidenceItem, AttributionConclusion, validate_references, first_error,
  conclusion_error, all_known, any_unverified,
}
use baa_system.Reports.References.{AllSound, validate_references_lem}

abbrev evidence : List (EvidenceItem ℕ)
evidence =
    record {
      evidence_id = 1;
      title = "华东销售额";
      description = "同比下降";
      evidence_type = "metric";
      metric = none;
      current_value = none;
      baseline_value = none;
      change_value = none;
      change_rate = none;
      scope = "华东";
      source_file_ids = 4 ∷ [];
      formula = "sum";
      quality_status = verified;
    }
    ∷ []

abbrev conclusions : List (AttributionConclusion ℕ)
conclusions =
    record {
      conclusion_id = 1;
      title = "缺货";
      description = "库存不足";
      status = confirmed;
      impact_level = high;
      confidence = 1;
      evidence_ids = 1 ∷ [];
      verification_needed = false;
    }
    ∷ []

accepted_report : validate_references evidence conclusions ≡ none
unfolding validate_references first_error conclusion_error all_known any_unverified unique scalar
accepted_report = refl

validate_references_lem_example : AllSound evidence conclusions
validate_references_lem_example = validate_references_lem evidence conclusions accepted_report

-- Numbers in place of floats: no change is negative.
abbrev floats : Floats ℕ
floats = record {
  literal = λ text. 0;
  less = λ a b. ltb a b;
  absolute = λ a. a;
  smaller = min;
  show = λ value. "";
  is_truthy = λ a. ltb 0 a;
}

-- One comparison, in a file that is clean.
abbrev results : MetricResults ℕ
results = record {
  comparisons =
      record {
        file_id = 4;
        metric_field = "sales_amount";
        current_period = "2026-06";
        baseline_period = "2026-05";
        current_value = some 90;
        baseline_value = some 100;
        absolute_change = some 10;
        change_rate = some 1;
        formula = "sum";
      }
      ∷ [];
  dimension_changes = [];
  risk_items = [];
  metrics = [];
}

abbrev reports : List FileReport
reports =
    record {
      file_id = 4;
      usable = true;
      metric_missing = 0;
      duplicate_count = 0;
      sample_size_warning = false;
      time_field = some "day";
      time_min = some "2026-05-01";
      time_max = some "2026-06-30";
    }
    ∷ []

validate_references-determine_attribution_example :
    validate_references
      (map (λ e. e.item) (build_evidence floats reports "2026-06" results))
      (determine_attribution floats (λ s. s) (build_evidence floats reports "2026-06" results))
    ≡ none
validate_references-determine_attribution_example =
    validate_references-determine_attribution floats (λ s. s) reports "2026-06" results
