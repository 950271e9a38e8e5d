-- ===== src/DataAgent/Trace.antt =====
-- What the data agent does outside, as a sequence of calls, and what a piece of its code does: the
-- calls that it makes, what it answers, and what it raises.
use baa_system.Base.{ℕ, suc, ◌+◌, ◌≤◌, String, Option, some, List, ◌≡◌, ◌⊎◌, arith, ◌<+>◌}
use mathlib.Core.Path.{subst}
use baa_system.DataAgent.Action.{
  continue, recover, Act, Answer, returned, raised, Failure, ◌>>=◌, pure, raise, lift, on_failure,
}
pub use baa_system.Outcome.{Ends, Ends-of, Ends-map}
use baa_system.DataAgent.Sql.{Libraries, SqlFault}
use baa_system.DataAgent.Candidate.{validate_sql, bounded_sql}
use baa_system.DataAgent.Period.{MonthStart}
use baa_system.DataAgent.Controlled.{sales_channel_comparison_sql}
use baa_system.DataAgent.Execution.{Outside}

module _ {S F R T : Type 0} (outside : Outside S F R) (lib : Libraries T)
    (detail : SqlFault → String) (dialect : String) (allowed_tables : List String)
    (today : MonthStart) where
  -- The controlled statement, for some question.
  abbrev pub IsControlled : String → Type 0
  IsControlled sql =
      (objective : String) × (sales_channel_comparison_sql lib today objective dialect
          allowed_tables
        ≡ some sql)

  -- It has passed `_validate_sql`, or it is controlled.
  abbrev pub IsAccepted : String → Type 0
  IsAccepted sql =
      (validate_sql lib detail dialect allowed_tables sql ≡ returned tt) ⊎ IsControlled sql

  -- Calls that lead from one state outside to another: so many of the generator, so many
  -- executions. Only accepted statements are explained and run, and those that are run are bounded.
  pub data Calls (row_limit : ℕ) : ℕ → ℕ → S → S → Type 0 where
    done : (s : S) → Calls row_limit 0 0 s s
    asks :
        (g n : ℕ) (s u : S) (objective schema : String)
        → Calls row_limit g n (outside.generate objective schema dialect s).1 u
        → Calls row_limit (suc g) n s u
    runs :
        (g n : ℕ) (s u : S) (sql bounded : String)
        → IsAccepted sql
        → bounded_sql lib sql row_limit dialect ≡ returned bounded
        → Calls row_limit g n (outside.run bounded s).1 u
        → Calls row_limit g (suc n) s u
    explains :
        (g n : ℕ) (s u : S) (sql : String)
        → IsAccepted sql
        → Calls row_limit g n (outside.explain ("EXPLAIN " <+> sql) s).1 u
        → Calls row_limit g n s u
    connects :
        (g n : ℕ) (s u : S) → Calls row_limit g n (outside.connect s).1 u → Calls row_limit g n s u
    times :
        (g n : ℕ) (s u : S) (seconds : F)
        → Calls row_limit g n (outside.start_timeout seconds s).1 u
        → Calls row_limit g n s u
    inspects :
        (g n : ℕ) (s u : S) (schema : Option String) (table : String)
        → Calls row_limit g n (outside.has_table schema table s).1 u
        → Calls row_limit g n s u
    describes :
        (g n : ℕ) (s u : S) (schema : Option String) (table : String)
        → Calls row_limit g n (outside.get_columns schema table s).1 u
        → Calls row_limit g n s u

  recount :
      {row_limit g n g' n' : ℕ} {s u : S}
      → g ≡ g'
      → n ≡ n'
      → Calls row_limit g n s u
      → Calls row_limit g' n' s u
  recount {row_limit} {g} {n} {g'} {n'} {s} {u} p q c =
      subst (λ m. Calls row_limit g' m s u) q (subst (λ h. Calls row_limit h n s u) p c)

  Calls-append :
      (row_limit g n g' n' : ℕ) (s t u : S)
      → Calls row_limit g n s t
      → Calls row_limit g' n' t u
      → Calls row_limit (g + g') (n + n') s u
  Calls-append row_limit g n g' n' s t u (done _) d = recount (omega arith) (omega arith) d
  Calls-append row_limit g n g' n' s t u (asks h m _ _ objective schema c) d =
      recount (omega arith) (omega arith)
        (asks (h + g') (m + n') s u objective schema (Calls-append row_limit h m g' n' _ t u c d))
  Calls-append row_limit g n g' n' s t u (runs h m _ _ sql bounded a e c) d =
      recount (omega arith) (omega arith)
        (runs (h + g') (m + n') s u sql bounded a e (Calls-append row_limit h m g' n' _ t u c d))
  Calls-append row_limit g n g' n' s t u (explains h m _ _ sql a c) d =
      explains (h + g') (m + n') s u sql a (Calls-append row_limit h m g' n' _ t u c d)
  Calls-append row_limit g n g' n' s t u (connects h m _ _ c) d =
      connects (h + g') (m + n') s u (Calls-append row_limit h m g' n' _ t u c d)
  Calls-append row_limit g n g' n' s t u (times h m _ _ seconds c) d =
      times (h + g') (m + n') s u seconds (Calls-append row_limit h m g' n' _ t u c d)
  Calls-append row_limit g n g' n' s t u (inspects h m _ _ schema table c) d =
      inspects (h + g') (m + n') s u schema table (Calls-append row_limit h m g' n' _ t u c d)
  Calls-append row_limit g n g' n' s t u (describes h m _ _ schema table c) d =
      describes (h + g') (m + n') s u schema table (Calls-append row_limit h m g' n' _ t u c d)

  -- At most so many calls of the generator and executions.
  pub record Within (row_limit g n : ℕ) (s u : S) : Type 0 where
    pub asked : ℕ
    pub ran : ℕ
    pub calls : Calls row_limit asked ran s u
    pub few_asked : asked ≤ g
    pub few_ran : ran ≤ n

  pub Within-append :
      {row_limit g n g' n' : ℕ} {s t u : S}
      → Within row_limit g n s t
      → Within row_limit g' n' t u
      → Within row_limit (g + g') (n + n') s u
  Within-append {row_limit} {g} {n} {g'} {n'} {s} {t} {u} w v = record {
    asked = w.asked + v.asked;
    ran = w.ran + v.ran;
    calls = Calls-append row_limit w.asked w.ran v.asked v.ran s t u w.calls v.calls;
    few_asked = omega (arith, w.few_asked, v.few_asked);
    few_ran = omega (arith, w.few_ran, v.few_ran);
  }

  pub Within-le :
      {row_limit g n g' n' : ℕ} {s u : S}
      → g ≤ g'
      → n ≤ n'
      → Within row_limit g n s u
      → Within row_limit g' n' s u
  Within-le h k w = record {
    asked = w.asked;
    ran = w.ran;
    calls = w.calls;
    few_asked = omega (arith, w.few_asked, h);
    few_ran = omega (arith, w.few_ran, k);
  }

  pub Within-done : {row_limit g n : ℕ} (s : S) → Within row_limit g n s s
  Within-done s = record {
    asked = 0;
    ran = 0;
    calls = done s;
    few_asked = omega arith;
    few_ran = omega arith;
  }

  -- One call.
  pub Within-one :
      {row_limit g n : ℕ} {s u : S} → Calls row_limit g n s u → Within row_limit g n s u
  Within-one {row_limit} {g} {n} c = record {
    asked = g;
    ran = n;
    calls = c;
    few_asked = omega arith;
    few_ran = omega arith;
  }

module _ {S F R T : Type 0} (outside : Outside S F R) (lib : Libraries T)
    (detail : SqlFault → String) (dialect : String) (allowed_tables : List String)
    (today : MonthStart) (row_limit : ℕ) where
  -- From every state it makes at most `g` calls of the generator and `n` executions, and ends as
  -- said.
  abbrev pub Does : {A : Type 0} → ℕ → ℕ → (A → Type 0) → (Failure → Type 0) → Act S A → Type 0
  Does g n P E m =
      (s : S)
      → Within outside lib detail dialect allowed_tables today row_limit g n s (m s).1
        × Ends P E (m s).0

  continue_at :
      {A B : Type 0} {g n g' n' : ℕ} (P : A → Type 0) (Q : B → Type 0) (E : Failure → Type 0)
      (f : A → Act S B) (s : S) (r : Answer A × S)
      → Within outside lib detail dialect allowed_tables today row_limit g n s r.1
      → Ends P E r.0
      → ((a : A) → P a → Does g' n' Q E (f a))
      → Within outside lib detail dialect allowed_tables today row_limit
          (g + g')
          (n + n')
          s
          (continue f r).1
        × Ends Q E (continue f r).0
  continue_at P Q E f s (returned a, t) w p k =
      (Within-append outside lib detail dialect allowed_tables today w (k a p t).0, (k a p t).1)
  continue_at P Q E f s (raised e, t) w p k =
      (Within-le outside lib detail dialect allowed_tables today (omega arith) (omega arith) w, p)

  -- One piece of code, and then another with what the first returned.
  pub Does-then :
      {A B : Type 0} {g n g' n' : ℕ} (P : A → Type 0) (Q : B → Type 0) (E : Failure → Type 0)
      (m : Act S A) (f : A → Act S B)
      → Does g n P E m
      → ((a : A) → P a → Does g' n' Q E (f a))
      → Does (g + g') (n + n') Q E (m >>= f)
  Does-then P Q E m f d k s = continue_at P Q E f s (m s) (d s).0 (d s).1 k

  recover_at :
      {A : Type 0} {g n g' n' : ℕ} (P : A → Type 0) (E E' : Failure → Type 0)
      (handler : Failure → Act S A) (s : S) (r : Answer A × S)
      → Within outside lib detail dialect allowed_tables today row_limit g n s r.1
      → Ends P E r.0
      → ((e : Failure) → E e → Does g' n' P E' (handler e))
      → Within outside lib detail dialect allowed_tables today row_limit
          (g + g')
          (n + n')
          s
          (recover handler r).1
        × Ends P E' (recover handler r).0
  recover_at P E E' handler s (returned a, t) w p k =
      (Within-le outside lib detail dialect allowed_tables today (omega arith) (omega arith) w, p)
  recover_at P E E' handler s (raised e, t) w p k =
      (Within-append outside lib detail dialect allowed_tables today w (k e p t).0, (k e p t).1)

  -- A `try` with its handler.
  pub Does-try :
      {A : Type 0} {g n g' n' : ℕ} (P : A → Type 0) (E E' : Failure → Type 0) (m : Act S A)
      (handler : Failure → Act S A)
      → Does g n P E m
      → ((e : Failure) → E e → Does g' n' P E' (handler e))
      → Does (g + g') (n + n') P E' (on_failure m handler)
  Does-try P E E' m handler d k s = recover_at P E E' handler s (m s) (d s).0 (d s).1 k

  pub Does-pure :
      {A : Type 0} {g n : ℕ} (P : A → Type 0) (E : Failure → Type 0) (a : A)
      → P a
      → Does g n P E (pure a)
  Does-pure P E a p s = (Within-done outside lib detail dialect allowed_tables today s, p)

  pub Does-raise :
      {A : Type 0} {g n : ℕ} (P : A → Type 0) (E : Failure → Type 0) (e : Failure)
      → E e
      → Does g n P E (raise e)
  Does-raise P E e p s = (Within-done outside lib detail dialect allowed_tables today s, p)

  -- An answer that needs nothing outside.
  pub Does-lift :
      {A : Type 0} {g n : ℕ} (P : A → Type 0) (E : Failure → Type 0) (r : Answer A)
      → ((a : A) → r ≡ returned a → P a)
      → ((e : Failure) → r ≡ raised e → E e)
      → Does g n P E (lift r)
  Does-lift P E r p e s =
      (Within-done outside lib detail dialect allowed_tables today s, Ends-of P E r p e)

  pub Does-le :
      {A : Type 0} {g n g' n' : ℕ} (P : A → Type 0) (E : Failure → Type 0) (m : Act S A)
      → g ≤ g'
      → n ≤ n'
      → Does g n P E m
      → Does g' n' P E m
  Does-le P E m h k d s =
      (Within-le outside lib detail dialect allowed_tables today h k (d s).0, (d s).1)
