-- ===== src/Base/Text.antt =====
-- Texts: equality, `in`, `startswith`, and collections of texts.
use Prim.Native.Nat.{ℕ, ◌+◌}
use Prim.Native.String.{String, slice, ◌++◌ as ◌<>◌}
use mathlib.Core.Bool.{Bool, true, false, ◌||◌, ◌&&◌}
use mathlib.Core.List.{List, [], ◌∷◌}
use text.Mathlib.Text
use baa_system.Base.Tests.{is_some}

infixr 65 ◌<+>◌
abbrev pub ◌<+>◌ : String → String → String
s <+> t = s <> t

-- `s == t`.
unfoldable pub same_text : String → String → Bool
same_text s t = Text.◌==◌ s t

-- `term in text`, for texts.
unfoldable pub has_text : String → String → Bool
has_text term text = is_some (Text.find? text term)

unfoldable pub has_prefix : String → String → Bool
has_prefix prefix text = Text.starts_with text prefix

-- The truth of a text: `not text` is `is_blank text`.
unfoldable pub is_blank : String → Bool
unfolding same_text
is_blank text = same_text text ""

-- `text in texts`, for a collection.
unfoldable pub member : String → List String → Bool
unfolding same_text
member text [] = false
member text (t ∷ ts) = same_text text t || member text ts

-- `any(test(x) for x in xs)` and `all(...)`.
unfoldable pub any_of {ℓ} : {A : Type ℓ} → (A → Bool) → List A → Bool
any_of test [] = false
any_of test (x ∷ xs) = test x || any_of test xs

unfoldable pub all_of {ℓ} : {A : Type ℓ} → (A → Bool) → List A → Bool
all_of test [] = true
all_of test (x ∷ xs) = test x && all_of test xs

-- `separator.join(texts)`.
unfoldable pub join : String → List String → String
join separator [] = ""
join separator (t ∷ []) = t
join separator (t ∷ u ∷ ts) = t <> separator <> join separator (u ∷ ts)

-- A digit as a text.
unfoldable pub digit : ℕ → String
digit n = slice "0123456789" n (n + 1)
