-- ===== src/DataAgent/Period.antt =====
-- The two periods that `_sales_channel_comparison_sql` of backend/app/data_agent/service.py
-- compares: a month and the one before it. A day is one that starts a month. Years stay between 1
-- and 9998, where Python's `date` is defined.
use baa_system.Base.{
  ℕ, ◌+◌, ◌-◌, ◌*◌, ◌/◌, ◌%◌, ◌≤◌, ◌≡◌, refl, ap, String, ◌==◌, if◌then◌else◌, ◌<+>◌, digit, arith,
  ◌⊎◌, inl, inr, Bool-cases, ◌≢◌, ◌∙◌,
}

-- `date(year, month, 1)`.
pub record MonthStart : Type 0 where
  pub year : ℕ
  pub month : ℕ

abbrev pub month_start : ℕ → ℕ → MonthStart
month_start year month = record { year = year; month = month }

-- The end of a month is the start of the next one.
unfoldable pub current_end : MonthStart → MonthStart
current_end d =
    if d.month == 12 then month_start (d.year + 1) 1 else month_start d.year (d.month + 1)

unfoldable pub previous_start : MonthStart → MonthStart
previous_start d =
    month_start (if d.month == 1 then d.year - 1 else d.year)
      (if d.month == 1 then 12 else d.month - 1)

-- `isoformat()`.
unfoldable pub isoformat : MonthStart → String
isoformat d =
    digit (d.year / 1000)
    <+> digit (d.year / 100 % 10)
    <+> digit (d.year / 10 % 10)
    <+> digit (d.year % 10)
    <+> "-"
    <+> digit (d.month / 10)
    <+> digit (d.month % 10)
    <+> "-01"

abbrev pub IsMonth : MonthStart → Type 0
IsMonth d = (1 ≤ d.month) × (d.month ≤ 12) × (1 ≤ d.year)

-- The number of a month, counted from the year 0.
abbrev pub month_number : MonthStart → ℕ
month_number d = d.year * 12 + d.month

same_month : {d e : MonthStart} → d.year ≡ e.year → d.month ≡ e.month → d ≡ e
same_month p q i = record { year = p i; month = q i }

current_end_cases :
    (d : MonthStart)
    → ((d.month ≡ 12) × (current_end d ≡ month_start (d.year + 1) 1))
      ⊎ ((d.month ≢ 12) × (current_end d ≡ month_start d.year (d.month + 1)))
unfolding current_end
current_end_cases d = elim (Bool-cases (d.month == 12)) [
  | inl e ↦ inl (ground arith, rw e refl)
  | inr e ↦ inr (ground arith, rw e refl)
]

previous_start_cases :
    (d : MonthStart)
    → ((d.month ≡ 1) × (previous_start d ≡ month_start (d.year - 1) 12))
      ⊎ ((d.month ≢ 1) × (previous_start d ≡ month_start d.year (d.month - 1)))
unfolding previous_start
previous_start_cases d = elim (Bool-cases (d.month == 1)) [
  | inl e ↦ inl (ground arith, rw e refl)
  | inr e ↦ inr (ground arith, rw e refl)
]

after_previous : (d : MonthStart) → IsMonth d → current_end (previous_start d) ≡ d
unfolding current_end
after_previous d h = elim (previous_start_cases d) [
  | inl (m, e) ↦ ap current_end e ∙ same_month (omega arith) (omega arith)
  | inr (m, e) ↦ ap current_end e ∙ elim (current_end_cases (month_start d.year (d.month - 1))) [
    | inl (m', e') ↦ absurd (omega arith)
    | inr (m', e') ↦ e' ∙ same_month refl (omega arith)
  ]
]

before_next : (d : MonthStart) → IsMonth d → previous_start (current_end d) ≡ d
unfolding previous_start
before_next d h = elim (current_end_cases d) [
  | inl (m, e) ↦ ap previous_start e ∙ same_month (omega arith) (omega arith)
  | inr (m, e) ↦
      ap previous_start e ∙ elim (previous_start_cases (month_start d.year (d.month + 1))) [
        | inl (m', e') ↦ absurd (omega arith)
        | inr (m', e') ↦ e' ∙ same_month refl (omega arith)
      ]
]

month_number-current_end :
    (d : MonthStart) → IsMonth d → month_number (current_end d) ≡ month_number d + 1
month_number-current_end d h = elim (current_end_cases d) [
  | inl (m, e) ↦ ap month_number e ∙ omega arith
  | inr (m, e) ↦ ap month_number e ∙ omega arith
]

month_number-previous_start :
    (d : MonthStart) → IsMonth d → month_number (previous_start d) + 1 ≡ month_number d
month_number-previous_start d h = elim (previous_start_cases d) [
  | inl (m, e) ↦ ap (λ p. month_number p + 1) e ∙ omega arith
  | inr (m, e) ↦ ap (λ p. month_number p + 1) e ∙ omega arith
]

-- The month after the month before a month is that month, and so is the month before the month
-- after it; and each of these is one month away.
pub current_end-previous_start :
    (d : MonthStart)
    → IsMonth d
    → (current_end (previous_start d) ≡ d)
      × (previous_start (current_end d) ≡ d)
      × (month_number (current_end d) ≡ month_number d + 1)
      × (month_number (previous_start d) + 1 ≡ month_number d)
current_end-previous_start d h = (
  after_previous d h,
  before_next d h,
  month_number-current_end d h,
  month_number-previous_start d h,
)
