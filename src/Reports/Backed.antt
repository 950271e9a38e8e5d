-- ===== src/Reports/Backed.antt =====
-- Conclusions that are drawn from evidence that is known by its number.
use baa_system.Base.{
  ℕ, suc, ◌≤◌, ◌<◌, ◌≡◌, refl, inl, inr, Every, Every-append, Every-take, Every-select, ap, ◌∙◌,
  String, true, false, none, some, List, [], ◌∷◌, ◌++◌, map, take, scalar, length, contains,
  unique_from, is_empty, arith, ◌==◌, ==→eq, ==_self, by_test, Numbered, Numbered-append,
  Bool-cases,
}
use baa_system.Reports.Schema.{
  EvidenceItem, AttributionConclusion, verified, limited, evidence_by_id, all_known, any_unverified,
  conclusion_error, first_error, QualityStatus, ImpactLevel,
}
use baa_system.Reports.Evidence.{Floats, Evidence, append_numbered, numbered_or, each}
use baa_system.Reports.Attribution.{
  magnitude, attribution_level, conclude, insert_largest, largest_first, comparison_conclusions,
  change_conclusions, risk_conclusions, descriptive_conclusion, determine_attribution,
}

-- Keys that are numbered in order are all different.
not_seen :
    (a : ℕ) (seen : List ℕ) (n : ℕ)
    → ((b : ℕ) → contains b seen ≡ true → b < n)
    → n ≤ a
    → contains a seen ≡ false
not_seen a seen n below le = elim (Bool-cases (contains a seen)) [
  | inl e ↦ let small = below a e in absurd (omega arith)
  | inr e ↦ e
]

pub unique_from-Numbered :
    {A : Type 0} (key : A → ℕ) (seen : List ℕ) (n : ℕ) (xs : List A)
    → ((b : ℕ) → contains b seen ≡ true → b < n)
    → Numbered key n xs
    → unique_from seen (map key xs) ≡ map key xs
unfolding unique_from
unique_from-Numbered key seen n [] below h = refl
unique_from-Numbered key seen n (x ∷ xs) below h =
    rw (not_seen (key x) seen n below (omega (arith, h.0))) (
      ap (λ ys. key x ∷ ys)
        (unique_from-Numbered key (key x ∷ seen) (suc n) xs
          (λ b m. ground (arith, h.0, below b, ==→eq b (key x))) h.1))

-- What is appended with numbers is numbered, and has a property that holds at every number.
append_numbered-Numbered :
    {A : Type 0} (key : A → ℕ) (list : List A) (makes : List (ℕ → A))
    → Numbered key 1 list
    → Every (λ make. (n : ℕ) → key (make n) ≡ n) makes
    → Numbered key 1 (append_numbered list makes)
unfolding append_numbered
append_numbered-Numbered key list [] h e = h
append_numbered-Numbered key list (make ∷ rest) h e =
    append_numbered-Numbered key (list ++ (make (suc (length list)) ∷ [])) rest
      (Numbered-append key 1 list (make (suc (length list)) ∷ []) h
        (e.0 (suc (length list)) ∙ omega arith, tt))
      e.1

append_numbered-Every :
    {A : Type 0} (P : A → Type 0) (list : List A) (makes : List (ℕ → A))
    → Every P list
    → Every (λ make. (n : ℕ) → P (make n)) makes
    → Every P (append_numbered list makes)
unfolding append_numbered
append_numbered-Every P list [] h e = h
append_numbered-Every P list (make ∷ rest) h e =
    append_numbered-Every P (list ++ (make (suc (length list)) ∷ [])) rest
      (Every-append P list (make (suc (length list)) ∷ []) h (e.0 (suc (length list)), tt)) e.1

pub numbered_or-Numbered :
    {A : Type 0} (key : A → ℕ) (makes fallback : List (ℕ → A))
    → Every (λ make. (n : ℕ) → key (make n) ≡ n) makes
    → Every (λ make. (n : ℕ) → key (make n) ≡ n) fallback
    → Numbered key 1 (numbered_or makes fallback)
unfolding numbered_or
numbered_or-Numbered key makes fallback h k =
    let first = append_numbered-Numbered key [] makes tt h in
    by_test (Numbered key 1) (is_empty (append_numbered [] makes))
      (append_numbered (append_numbered [] makes) fallback) (append_numbered [] makes)
      (λ _. append_numbered-Numbered key (append_numbered [] makes) fallback first k) (λ _. first)

numbered_or-Every :
    {A : Type 0} (P : A → Type 0) (makes fallback : List (ℕ → A))
    → Every (λ make. (n : ℕ) → P (make n)) makes
    → Every (λ make. (n : ℕ) → P (make n)) fallback
    → Every P (numbered_or makes fallback)
unfolding numbered_or
numbered_or-Every P makes fallback h k =
    let first = append_numbered-Every P [] makes tt h in
    by_test (Every P) (is_empty (append_numbered [] makes))
      (append_numbered (append_numbered [] makes) fallback) (append_numbered [] makes)
      (λ _. append_numbered-Every P (append_numbered [] makes) fallback first k) (λ _. first)

pub each-Every :
    {A B : Type 0} (P : A → Type 0) (Q : B → Type 0) (f : A → B) (xs : List A)
    → Every P xs
    → ((x : A) → P x → Q (f x))
    → Every Q (each f xs)
unfolding each
each-Every P Q f [] h k = tt
each-Every P Q f (x ∷ xs) h k = (k x h.0, each-Every P Q f xs h.1 k)

pub Every-imp :
    {A : Type 0} (P Q : A → Type 0) (xs : List A) → ((x : A) → P x → Q x) → Every P xs → Every Q xs
Every-imp P Q [] k h = tt
Every-imp P Q (x ∷ xs) k h = (k x h.0, Every-imp P Q xs k h.1)

-- Of numbered items, each is the one with its number.
abbrev pub Found : {A : Type 0} → (A → ℕ) → ℕ → List A → A → Type 0
Found key n xs x = (n ≤ key x) × (scalar (λ y. key y == key x) xs ≡ some x)

Found-cons :
    {A : Type 0} (key : A → ℕ) (n : ℕ) (x : A) (xs : List A) (y : A)
    → key x ≡ n
    → Found key (suc n) xs y
    → Found key n (x ∷ xs) y
unfolding scalar
Found-cons key n x xs y e (le, found) =
    let differ : (key x == key y) ≡ false = ground arith in (omega arith, rw differ found)

pub scalar-Numbered :
    {A : Type 0} (key : A → ℕ) (n : ℕ) (xs : List A) → Numbered key n xs → Every (Found key n xs) xs
unfolding scalar
scalar-Numbered key n [] h = tt
scalar-Numbered key n (x ∷ xs) h = (
  (omega (arith, h.0), rw (==_self (key x)) refl),
  Every-imp (Found key (suc n) xs) (Found key n (x ∷ xs)) xs
      (λ y found. Found-cons key n x xs y h.0 found) (scalar-Numbered key (suc n) xs h.1),
)

contains_found :
    {A : Type 0} (key : A → ℕ) (xs : List A) (a : ℕ) (x : A)
    → scalar (λ y. key y == a) xs ≡ some x
    → contains a (map key xs) ≡ true
unfolding scalar
contains_found key [] a x h = absurd cc
contains_found key (y ∷ xs) a x h = elim (Bool-cases (key y == a)) [
  | inl e ↦ ground (arith, ==→eq (key y) a, ==_self a)
  | inr e ↦ let later = contains_found key xs a x (ground arith) in ground arith
]

module _ {F : Type 0} (floats : Floats F) (last_part : String → String)
    (items : List (EvidenceItem F)) where
  abbrev pub Known : Evidence F → Type 0
  Known e = evidence_by_id items e.item.evidence_id ≡ some e.item

  abbrev pub Backed : AttributionConclusion F → Type 0
  Backed c = conclusion_error items c ≡ none

  conclude-Backed :
      (confidence : String) (title description : Evidence F → String)
      (impact : Evidence F → ImpactLevel) (e : Evidence F)
      → Known e
      → (n : ℕ) → Backed (conclude floats last_part confidence title description impact e n)
  unfolding conclude attribution_level conclusion_error all_known any_unverified
  conclude-Backed confidence title description impact e known n =
      by_quality e.item.quality_status refl
    where
      member_of :
          evidence_by_id items e.item.evidence_id ≡ some e.item
          → contains e.item.evidence_id (map (λ i. i.evidence_id) items) ≡ true
      member_of found = contains_found (λ i. i.evidence_id) items e.item.evidence_id e.item found

      by_quality :
          (q : QualityStatus)
          → e.item.quality_status ≡ q
          → Backed (conclude floats last_part confidence title description impact e n)
      by_quality verified same = rw (known, member_of known, same) refl
      by_quality limited same = rw (known, member_of known, same) refl

  insert_largest-Every :
      (P : Evidence F → Type 0) (e : Evidence F) (es : List (Evidence F))
      → P e
      → Every P es
      → Every P (insert_largest floats last_part e es)
  unfolding insert_largest
  insert_largest-Every P e [] p h = (p, tt)
  insert_largest-Every P e (x ∷ es) p h =
      by_test (Every P) (floats.less (magnitude floats last_part e) (magnitude floats last_part x))
        (x ∷ insert_largest floats last_part e es) (e ∷ x ∷ es)
        (λ _. (h.0, insert_largest-Every P e es p h.1)) (λ _. (p, h))

  largest_first-Every :
      (P : Evidence F → Type 0) (es : List (Evidence F))
      → Every P es
      → Every P (largest_first floats last_part es)
  unfolding largest_first
  largest_first-Every P [] h = tt
  largest_first-Every P (e ∷ es) h =
      insert_largest-Every P e (largest_first floats last_part es) h.0
        (largest_first-Every P es h.1)

  -- Every conclusion that is drawn, whatever its number.
  abbrev AlwaysBacked : (ℕ → AttributionConclusion F) → Type 0
  AlwaysBacked make = (n : ℕ) → Backed (make n)

  all_known-Known :
      (es : List (Evidence F))
      → Every Known es
      → all_known (map (λ i. i.evidence_id) items) (map (λ e. e.item.evidence_id) es) ≡ true
  unfolding all_known
  all_known-Known [] h = refl
  all_known-Known (e ∷ es) h =
      let member = contains_found (λ i. i.evidence_id) items e.item.evidence_id e.item h.0 in
      let rest = all_known-Known es h.1 in ground arith

  descriptive_conclusion-Backed :
      (es : List (Evidence F))
      → Every Known es
      → AlwaysBacked (descriptive_conclusion floats last_part es)
  unfolding descriptive_conclusion conclusion_error
  descriptive_conclusion-Backed es h n =
      rw (all_known-Known (take 3 es) (Every-take Known 3 es h)) refl

  comparison_conclusions-Backed :
      (es : List (Evidence F))
      → Every Known es
      → Every AlwaysBacked (comparison_conclusions floats last_part es)
  unfolding comparison_conclusions
  comparison_conclusions-Backed es h =
      each-Every Known AlwaysBacked _ _ (Every-take Known 1 _ (Every-select Known _ es h))
        (conclude-Backed _ _ _ _)

  change_conclusions-Backed :
      (es : List (Evidence F))
      → Every Known es
      → Every AlwaysBacked (change_conclusions floats last_part es)
  unfolding change_conclusions
  change_conclusions-Backed es h =
      each-Every Known AlwaysBacked _ _
        (Every-take Known 3 _ (largest_first-Every Known _ (Every-select Known _ es h)))
        (conclude-Backed _ _ _ _)

  risk_conclusions-Backed :
      (es : List (Evidence F))
      → Every Known es
      → Every AlwaysBacked (risk_conclusions floats last_part es)
  unfolding risk_conclusions
  risk_conclusions-Backed es h =
      each-Every Known AlwaysBacked _ _ (Every-take Known 5 _ (Every-select Known _ es h))
        (conclude-Backed _ _ _ _)

  drawn-Backed :
      (es : List (Evidence F))
      → Every Known es
      → Every AlwaysBacked (
          comparison_conclusions floats last_part es
          ++ change_conclusions floats last_part es
          ++ risk_conclusions floats last_part es)
  drawn-Backed es h =
      Every-append AlwaysBacked
        (comparison_conclusions floats last_part es ++ change_conclusions floats last_part es) _
        (Every-append AlwaysBacked (comparison_conclusions floats last_part es) _
          (comparison_conclusions-Backed es h) (change_conclusions-Backed es h))
        (risk_conclusions-Backed es h)

  pub determine_attribution-Backed :
      (es : List (Evidence F))
      → Every Known es
      → Every Backed (determine_attribution floats last_part es)
  unfolding determine_attribution
  determine_attribution-Backed es h =
      numbered_or-Every Backed _ (descriptive_conclusion floats last_part es ∷ [])
        (drawn-Backed es h) (descriptive_conclusion-Backed es h, tt)

  pub first_error-Backed :
      (cs : List (AttributionConclusion F)) → Every Backed cs → first_error items cs ≡ none
  unfolding first_error
  first_error-Backed [] h = refl
  first_error-Backed (c ∷ cs) h =
      let first = h.0 in let rest = first_error-Backed cs h.1 in ground arith
