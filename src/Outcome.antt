-- ===== src/Outcome.antt =====
-- Code that may raise: an outcome is what was returned or the exception, and a run is a function of
-- the state outside to an outcome and the state after it.
use mathlib.Core.Path.{◌≡◌, refl}

pub data Outcome (E A : Type 0) : Type 0 where
  returned : A → Outcome E A
  raised : E → Outcome E A

abbrev pub Run : Type 0 → Type 0 → Type 0 → Type 0
Run E S A = S → Outcome E A × S

-- A state with what came of the code before: go on, or handle what it raised.
abbrev pub continue : {E S A B : Type 0} → (A → Run E S B) → Outcome E A × S → Outcome E B × S
continue f (returned a, s) = f a s
continue f (raised e, s) = (raised e, s)

abbrev pub recover : {E S A : Type 0} → (E → Run E S A) → Outcome E A × S → Outcome E A × S
recover handler (returned a, s) = (returned a, s)
recover handler (raised e, s) = handler e s

infixl 5 ◌>>=◌ ◌>>◌
abbrev pub ◌>>=◌ : {E S A B : Type 0} → Run E S A → (A → Run E S B) → Run E S B
◌>>=◌ m f s = continue f (m s)

abbrev pub ◌>>◌ : {E S A B : Type 0} → Run E S A → Run E S B → Run E S B
m >> k = m >>= λ _. k

abbrev pub pure : {E S A : Type 0} → A → Run E S A
pure a s = (returned a, s)

abbrev pub raise : {E S A : Type 0} → E → Run E S A
raise e s = (raised e, s)

-- `try: m except ...: handler`, where the handler raises again what it does not catch.
abbrev pub on_failure : {E S A : Type 0} → Run E S A → (E → Run E S A) → Run E S A
on_failure m handler s = recover handler (m s)

abbrev pub lift : {E S A : Type 0} → Outcome E A → Run E S A
lift a s = (a, s)

-- What is said of an outcome: of what is returned, and of what is raised.
abbrev pub Ends : {E A : Type 0} → (A → Type 0) → (E → Type 0) → Outcome E A → Type 0
Ends P Q (returned a) = P a
Ends P Q (raised e) = Q e

pub Ends-of :
    {E A : Type 0} (P : A → Type 0) (Q : E → Type 0) (r : Outcome E A)
    → ((a : A) → r ≡ returned a → P a)
    → ((e : E) → r ≡ raised e → Q e)
    → Ends P Q r
Ends-of P Q (returned a) h k = h a refl
Ends-of P Q (raised e) h k = k e refl

pub Ends-map :
    {E A : Type 0} (P P' : A → Type 0) (Q : E → Type 0) (r : Outcome E A)
    → ((a : A) → P a → P' a)
    → Ends P Q r
    → Ends P' Q r
Ends-map P P' Q (returned a) f h = f a h
Ends-map P P' Q (raised e) f h = h

-- From every state outside, a run ends so.
module _ {E S : Type 0} where
  abbrev pub Yields : {A : Type 0} → (A → Type 0) → (E → Type 0) → Run E S A → Type 0
  Yields P Q m = (s : S) → Ends P Q (m s).0

  pub continue-Ends :
      {A B : Type 0} (P : A → Type 0) (P' : B → Type 0) (Q : E → Type 0) (f : A → Run E S B)
      (r : Outcome E A × S)
      → Ends P Q r.0
      → ((a : A) → P a → Yields P' Q (f a))
      → Ends P' Q (continue f r).0
  continue-Ends P P' Q f (returned a, s) h k = k a h s
  continue-Ends P P' Q f (raised e, s) h k = h

  pub Yields-then :
      {A B : Type 0} (P : A → Type 0) (P' : B → Type 0) (Q : E → Type 0) (m : Run E S A)
      (f : A → Run E S B)
      → Yields P Q m
      → ((a : A) → P a → Yields P' Q (f a))
      → Yields P' Q (m >>= f)
  Yields-then P P' Q m f h k s = continue-Ends P P' Q f (m s) (h s) k

  pub recover-Ends :
      {A : Type 0} (P : A → Type 0) (Q Q' : E → Type 0) (handler : E → Run E S A)
      (r : Outcome E A × S)
      → Ends P Q r.0
      → ((e : E) → Q e → Yields P Q' (handler e))
      → Ends P Q' (recover handler r).0
  recover-Ends P Q Q' handler (returned a, s) h k = h
  recover-Ends P Q Q' handler (raised e, s) h k = k e h s

  pub Yields-try :
      {A : Type 0} (P : A → Type 0) (Q Q' : E → Type 0) (m : Run E S A) (handler : E → Run E S A)
      → Yields P Q m
      → ((e : E) → Q e → Yields P Q' (handler e))
      → Yields P Q' (on_failure m handler)
  Yields-try P Q Q' m handler h k s = recover-Ends P Q Q' handler (m s) (h s) k
