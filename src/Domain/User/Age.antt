-- ===== src/Domain/User/Age.antt =====
-- User.Age of backend/internal/domain/user/entity.go.
use llm_dating_app.Prelude.{
  ℕ, ◌+◌, ◌%◌, ◌<◌, ◌≡◌, sym, ap, subst, ◌∙◌, inl, inr, Bool, true, false, not, ◌&&◌, ◌||◌, arith,
  leb, ◌==◌, if◌then◌else◌, Bool-cases, lt_or_le, sub_ℕ, is_below, ℤ,
}
use llm_dating_app.Domain.User.{User, Date, anniversary, is_before, age, is_leap}

abbrev years : Bool → ℕ → ℕ → ℤ
years b y birth = if b then sub_ℕ y (birth + 1) else sub_ℕ y birth

years-earlier : (b : Bool) (y birth n : ℕ) → y < birth + n → is_below n (years b y birth) ≡ true
years-earlier b y birth n h = ground arith

years-same : (b : Bool) (birth n : ℕ) → is_below n (years b (birth + n) birth) ≡ b
years-same b birth n = ground arith

years-later : (b : Bool) (y birth n : ℕ) → birth + n < y → is_below n (years b y birth) ≡ false
years-later b y birth n h = ground arith

anniversary-year : (y : ℕ) (d : Date) → (anniversary y d).year ≡ y
unfolding anniversary
anniversary-year y d = ground arith

is_before_earlier : (a b : Date) → a.year < b.year → is_before a b ≡ true
is_before_earlier a b h = ground arith

is_before_later : (a b : Date) → b.year < a.year → is_before a b ≡ false
is_before_later a b h = ground arith

age-anniversary :
    (u : User) (at : Date) (n : ℕ)
    → is_below n (age u at) ≡ is_before at (anniversary (u.birth_date.year + n) u.birth_date)
unfolding age
age-anniversary u at n =
    let birth = u.birth_date.year in
    let b = is_before at (anniversary at.year u.birth_date) in
    let e = anniversary-year (birth + n) u.birth_date in
    elim (lt_or_le at.year (birth + n)) [
      | inl lt ↦
          years-earlier b at.year birth n lt
          ∙ sym (is_before_earlier at (anniversary (birth + n) u.birth_date) (rw e lt))
      | inr le ↦ elim (lt_or_le (birth + n) at.year) [
        | inl gt ↦
            years-later b at.year birth n gt
            ∙ sym (is_before_later at (anniversary (birth + n) u.birth_date) (rw e gt))
        | inr ge ↦
            let same : at.year ≡ birth + n = omega arith in
            subst (λ y. is_below n (years b y birth) ≡ b) (sym same) (years-same b birth n)
            ∙ ap (λ y. is_before at (anniversary y u.birth_date)) same
      ]
    ]

-- The days of February in the Gregorian calendar.
abbrev pub days_of_february : ℕ → ℕ
days_of_february y =
    if y % 400 == 0 then 29 else if y % 100 == 0 then 28 else if y % 4 == 0 then 29 else 28

-- A day that is neither before the first of its month nor beyond the end of its February.
abbrev pub has_day : Date → Bool
has_day d = not (d.day == 0) && (not (d.month == 2) || leb d.day (days_of_february d.year))

february : (y : ℕ) → is_leap y ≡ false → days_of_february y ≡ 28
february y e = ground (arith, e)

anniversary-is_before :
    (birth at : Date)
    → has_day at ≡ true
    → is_before at (anniversary at.year birth)
      ≡ is_before at (record { year = at.year; month = birth.month; day = birth.day })
unfolding anniversary
anniversary-is_before birth at h = elim (Bool-cases (is_leap at.year)) [
  | inl e ↦ ground (arith, e)
  | inr e ↦ ground (arith, e, h, february at.year e)
]

-- A user has turned `n` on a day of the calendar exactly if, `n` years after the year of birth, its month
-- and day are not before those of the birth. So who was born on the 29th of February turns `n` in a
-- common year on the 1st of March, and not on the 28th of February.
pub age-birthday :
    (u : User) (at : Date) (n : ℕ)
    → has_day at ≡ true
    → let birth = u.birth_date in
      is_below n (age u at)
      ≡ is_before at (record { year = birth.year + n; month = birth.month; day = birth.day })
age-birthday u at n h =
    let birth = u.birth_date in
    let e = anniversary-year (birth.year + n) birth in
    age-anniversary u at n ∙ elim (Bool-cases (at.year == birth.year + n)) [
      | inl same ↦
          let s : at.year ≡ birth.year + n = ground (arith, same) in
          subst
            (λ y.
              is_before at (anniversary y birth)
              ≡ is_before at (record { year = y; month = birth.month; day = birth.day }))
            s (anniversary-is_before birth at h)
      | inr other ↦ ground (arith, e, other)
    ]
