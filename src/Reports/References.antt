-- ===== src/Reports/References.antt =====
-- What a report whose references are valid can claim.
use mathlib.Core.Path.{◌∙◌}
use baa_system.Base.{
  ℕ, ◌≡◌, refl, true, false, not, none, some, List, [], ◌∷◌, map, contains, is_empty, arith, ◌==◌,
  ==→eq, Option-cases, Bool-cases, ap, inl, inr,
}
use baa_system.Reports.Schema.{
  QualityStatus, verified, limited, confirmed, EvidenceItem, AttributionConclusion, is_verified,
  evidence_by_id, all_known, any_unverified, conclusion_error, first_error, validate_references,
}

all_known_lem :
    (known ids : List ℕ) (id : ℕ)
    → all_known known ids ≡ true
    → contains id ids ≡ true
    → contains id known ≡ true
unfolding all_known
all_known_lem known [] id h m = cc
all_known_lem known (x ∷ ids) id h m = ground (arith, all_known_lem known ids id, ==→eq id x)

verified_lem : (q : QualityStatus) → not (is_verified q) ≡ false → q ≡ verified
verified_lem verified h = refl
verified_lem limited h = cc

module _ {F : Type 0} where
  -- Each conclusion only names evidence of the report; and one that is confirmed names some, needs
  -- no verification, and each piece that it names is in the report, and verified.
  pub record IsSound (evidence_list : List (EvidenceItem F)) (c : AttributionConclusion F)
      : Type 0 where
    pub known :
        (id : ℕ)
        → contains id c.evidence_ids ≡ true
        → contains id (map (λ e. e.evidence_id) evidence_list) ≡ true
    pub some_evidence : c.status ≡ confirmed → is_empty c.evidence_ids ≡ false
    pub settled : c.status ≡ confirmed → c.verification_needed ≡ false
    pub backed :
        c.status ≡ confirmed
        → (id : ℕ) → contains id c.evidence_ids ≡ true
        → (e : EvidenceItem F) × (evidence_by_id evidence_list id ≡ some e)
          × (e.quality_status ≡ verified)

  abbrev pub AllSound : List (EvidenceItem F) → List (AttributionConclusion F) → Type 0
  AllSound evidence_list [] = Unit
  AllSound evidence_list (c ∷ cs) = IsSound evidence_list c × AllSound evidence_list cs

  any_unverified_lem :
      (evidence_list : List (EvidenceItem F)) (ids : List ℕ) (id : ℕ)
      → any_unverified evidence_list ids ≡ false
      → contains id ids ≡ true
      → (e : EvidenceItem F) × (evidence_by_id evidence_list id ≡ some e)
        × (e.quality_status ≡ verified)
  unfolding any_unverified
  any_unverified_lem evidence_list [] id h m = cc
  any_unverified_lem evidence_list (x ∷ ids) id h m = elim (Bool-cases (id == x)) [
    | inr e ↦ any_unverified_lem evidence_list ids id (ground arith) (ground arith)
    | inl e ↦ elim (Option-cases (evidence_by_id evidence_list x)) [
      | inl missing ↦ absurd (ground (arith, missing))
      | inr (item, found) ↦ (
        item,
        ap (evidence_by_id evidence_list) (==→eq id x e) ∙ found,
        verified_lem item.quality_status (ground (arith, found)),
      )
    ]
  ]

  conclusion_error_lem :
      (evidence_list : List (EvidenceItem F)) (c : AttributionConclusion F)
      → conclusion_error evidence_list c ≡ none
      → IsSound evidence_list c
  unfolding conclusion_error
  conclusion_error_lem evidence_list c h = record {
    known = λ id m.
        all_known_lem (map (λ e. e.evidence_id) evidence_list) c.evidence_ids id (ground arith) m;
    some_evidence = λ s. ground arith;
    settled = λ s. ground arith;
    backed = λ s id m. any_unverified_lem evidence_list c.evidence_ids id (ground arith) m;
  }

  first_error_lem :
      (evidence_list : List (EvidenceItem F)) (cs : List (AttributionConclusion F))
      → first_error evidence_list cs ≡ none
      → AllSound evidence_list cs
  unfolding first_error
  first_error_lem evidence_list [] h = tt
  first_error_lem evidence_list (c ∷ cs) h = (
    conclusion_error_lem evidence_list c (ground arith),
    first_error_lem evidence_list cs (ground arith),
  )

  -- In a report that `validate_references` accepts, every conclusion only names evidence of the
  -- report, and every confirmed conclusion names at least one piece, needs no verification, and
  -- rests on verified evidence only.
  pub validate_references_lem :
      (evidence_list : List (EvidenceItem F)) (cs : List (AttributionConclusion F))
      → validate_references evidence_list cs ≡ none
      → AllSound evidence_list cs
  unfolding validate_references
  validate_references_lem evidence_list cs h = first_error_lem evidence_list cs (ground arith)
