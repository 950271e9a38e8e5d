-- ===== src/Reports/Justified.antt =====
-- The references of the report that the analysis builds.
use baa_system.Base.{
  ℕ, suc, ◌≡◌, refl, String, none, some, true, List, [], ◌∷◌, ◌++◌, map, take, length, unique,
  Numbered, Every, Every-append, ==_self, ◌==◌,
}
use baa_system.Reports.Schema.{AttributionConclusion, evidence_by_id, validate_references}
use baa_system.Reports.Evidence.{
  Floats, Evidence, FileReport, MetricResults, ChangeGroup, each, build_evidence,
  comparison_evidence, change_evidence, risk_evidence, metric_evidence, change_makers,
}
use baa_system.Reports.Attribution.{
  conclude, comparison_conclusions, change_conclusions, risk_conclusions, descriptive_conclusion,
  determine_attribution,
}
use baa_system.Reports.Backed.{
  unique_from-Numbered, numbered_or-Numbered, each-Every, scalar-Numbered, Every-imp, Known,
  determine_attribution-Backed, first_error-Backed,
}

trivially : {A : Type 0} (xs : List A) → Every (λ _. Unit {0}) xs
trivially [] = tt
trivially (x ∷ xs) = (tt, trivially xs)

-- It has the number that it is made with.
abbrev Numbers : {A : Type 0} → (A → ℕ) → (ℕ → A) → Type 0
Numbers key make = (n : ℕ) → key (make n) ≡ n

each-Numbers :
    {A B : Type 0} (key : B → ℕ) (f : A → ℕ → B) (xs : List A)
    → ((x : A) (n : ℕ) → key (f x n) ≡ n)
    → Every (Numbers key) (each f xs)
each-Numbers key f xs h = each-Every (λ _. Unit {0}) (Numbers key) f xs (trivially xs) (λ x _. h x)

Numbered-map :
    {A B : Type 0} (key : B → ℕ) (f : A → B) (n : ℕ) (xs : List A)
    → Numbered (λ x. key (f x)) n xs
    → Numbered key n (map f xs)
Numbered-map key f n [] h = tt
Numbered-map key f n (x ∷ xs) h = (h.0, Numbered-map key f (suc n) xs h.1)

Every-map :
    {A B : Type 0} (P : B → Type 0) (f : A → B) (xs : List A)
    → Every P (map f xs)
    → Every (λ x. P (f x)) xs
Every-map P f [] h = tt
Every-map P f (x ∷ xs) h = (h.0, Every-map P f xs h.1)

unique-Numbered :
    {A : Type 0} (key : A → ℕ) (xs : List A)
    → Numbered key 1 xs
    → (length (map key xs) == length (unique (map key xs))) ≡ true
unfolding unique
unique-Numbered key xs h =
    rw (unique_from-Numbered key [] 1 xs (λ b m. cc) h) (==_self (length (map key xs)))

abbrev evidence_number : {F : Type 0} → Evidence F → ℕ
evidence_number e = e.item.evidence_id

abbrev conclusion_number : {F : Type 0} → AttributionConclusion F → ℕ
conclusion_number c = c.conclusion_id

module _ {F : Type 0} (floats : Floats F) (reports : List FileReport) (scope : String) where
  change_makers-Numbers :
      (groups : List (ChangeGroup F))
      → Every (Numbers evidence_number) (change_makers floats reports scope groups)
  unfolding change_makers change_evidence
  change_makers-Numbers [] = tt
  change_makers-Numbers (g ∷ groups) =
      Every-append (Numbers evidence_number)
        (each (change_evidence floats reports scope g) (take 5 g.items)) _
        (each-Numbers evidence_number (change_evidence floats reports scope g) (take 5 g.items)
          (λ c n. refl))
        (change_makers-Numbers groups)

  build_evidence-Numbered :
      (results : MetricResults F)
      → Numbered evidence_number 1 (build_evidence floats reports scope results)
  unfolding build_evidence comparison_evidence risk_evidence metric_evidence
  build_evidence-Numbered results =
      numbered_or-Numbered evidence_number _ _
        (Every-append (Numbers evidence_number)
          (each (comparison_evidence floats reports scope) results.comparisons
            ++ change_makers floats reports scope results.dimension_changes)
          _
          (Every-append (Numbers evidence_number)
            (each (comparison_evidence floats reports scope) results.comparisons) _
            (each-Numbers evidence_number (comparison_evidence floats reports scope)
              results.comparisons (λ c n. refl))
            (change_makers-Numbers results.dimension_changes))
          (each-Numbers evidence_number (risk_evidence floats reports scope)
            (take 20 results.risk_items) (λ r n. refl)))
        (each-Numbers evidence_number (metric_evidence floats reports scope)
          (take 5 results.metrics) (λ m n. refl))

module _ {F : Type 0} (floats : Floats F) (last_part : String → String) where
  comparison_conclusions-Numbers :
      (es : List (Evidence F))
      → Every (Numbers conclusion_number) (comparison_conclusions floats last_part es)
  unfolding comparison_conclusions conclude
  comparison_conclusions-Numbers es = each-Numbers conclusion_number _ _ (λ e n. refl)

  change_conclusions-Numbers :
      (es : List (Evidence F))
      → Every (Numbers conclusion_number) (change_conclusions floats last_part es)
  unfolding change_conclusions conclude
  change_conclusions-Numbers es = each-Numbers conclusion_number _ _ (λ e n. refl)

  risk_conclusions-Numbers :
      (es : List (Evidence F))
      → Every (Numbers conclusion_number) (risk_conclusions floats last_part es)
  unfolding risk_conclusions conclude
  risk_conclusions-Numbers es = each-Numbers conclusion_number _ _ (λ e n. refl)

  determine_attribution-Numbered :
      (es : List (Evidence F))
      → Numbered (λ c. c.conclusion_id) 1 (determine_attribution floats last_part es)
  unfolding determine_attribution descriptive_conclusion
  determine_attribution-Numbered es =
      numbered_or-Numbered (λ c. c.conclusion_id)
        (comparison_conclusions floats last_part es
          ++ change_conclusions floats last_part es
          ++ risk_conclusions floats last_part es)
        (descriptive_conclusion floats last_part es ∷ [])
        (Every-append (Numbers conclusion_number)
          (comparison_conclusions floats last_part es ++ change_conclusions floats last_part es) _
          (Every-append (Numbers conclusion_number) (comparison_conclusions floats last_part es) _
            (comparison_conclusions-Numbers es) (change_conclusions-Numbers es))
          (risk_conclusions-Numbers es))
        ((λ n. refl), tt)

  -- Whatever the analysis has computed, the report's references are valid: the evidence that
  -- build_evidence makes of it and the conclusions that determine_attribution draws from that
  -- evidence pass validate_references.
  pub validate_references-determine_attribution :
      (reports : List FileReport) (scope : String) (results : MetricResults F)
      → validate_references
          (map (λ e. e.item) (build_evidence floats reports scope results))
          (determine_attribution floats last_part (build_evidence floats reports scope results))
        ≡ none
  unfolding validate_references
  validate_references-determine_attribution reports scope results =
      let es = build_evidence floats reports scope results in
      let items = map (λ e. e.item) es in
      let cs = determine_attribution floats last_part es in
      let numbered =
        Numbered-map (λ i. i.evidence_id) (λ e. e.item) 1 es
          (build_evidence-Numbered floats reports scope results) in
      let known : Every (Known floats last_part items) es =
        Every-map (λ i. evidence_by_id items i.evidence_id ≡ some i) (λ e. e.item) es
          (Every-imp _ _ items (λ i found. found.1)
            (scalar-Numbered (λ i. i.evidence_id) 1 items numbered)) in
      rw (unique-Numbered (λ i. i.evidence_id) items numbered) (
        rw (unique-Numbered (λ c. c.conclusion_id) cs (determine_attribution-Numbered es)) (
          first_error-Backed floats last_part items cs
            (determine_attribution-Backed floats last_part items es known)))
