-- ===== src/EcosystemMap/Calendar/Laws.antt =====
-- The texts that name a day of the calendar, and no others.
use leitstand.Common.{
  subst, false-ne-true, Option-cases, ℕ, ◌+◌, ◌/◌, ◌%◌, ◌≤◌, ◌≡◌, refl, ◌≢◌, ◌↔◌, ◌⊎◌, inl, inr,
  true, String, some, List, [], ◌∷◌, arith,
}
use leitstand.Common.Text.{codes}
use leitstand.EcosystemMap.Calendar.{
  Fields, is_digit, number_of, match_date, is_leap, days_in_month, is_exact_calendar_date, is_date,
  is_some_date,
}

-- A year of 366 days.
abbrev pub IsLeap : ℕ → Type 0
IsLeap y = ((y % 4 ≡ 0) × (y % 100 ≢ 0)) ⊎ (y % 400 ≡ 0)

-- Of the months over the 28th: all but February have a 30th, seven have a 31st.
abbrev pub IsDay : ℕ → ℕ → ℕ → Type 0
IsDay y m d =
    (d ≤ 28)
    ⊎ ((d ≡ 29) × ((m ≢ 2) ⊎ IsLeap y))
    ⊎ ((d ≡ 30) × (m ≢ 2))
    ⊎ ((d ≡ 31) × (m ≢ 2) × (m ≢ 4) × (m ≢ 6) × (m ≢ 9) × (m ≢ 11))

pub record IsDate (f : Fields) : Type 0 where
  pub year_in : (1 ≤ f.year) × (f.year ≤ 9999)
  pub month_in : (1 ≤ f.month) × (f.month ≤ 12)
  pub day_in : (1 ≤ f.day) × IsDay f.year f.month f.day

abbrev digit : ℕ → ℕ
digit n = b'0' + n % 10

-- The date written as YYYY-MM-DD.
abbrev pub written : Fields → List ℕ
written f =
    digit (f.year / 1000)
    ∷ digit (f.year / 100)
    ∷ digit (f.year / 10)
    ∷ digit f.year
    ∷ b'-'
    ∷ digit (f.month / 10)
    ∷ digit f.month
    ∷ b'-'
    ∷ digit (f.day / 10)
    ∷ digit f.day
    ∷ []

is_leap-true_iff : (y : ℕ) → (is_leap y ≡ true) ↔ IsLeap y
unfolding is_leap
is_leap-true_iff y = ground arith

le-days_in_month : (y m d : ℕ) → 1 ≤ m → m ≤ 12 → (d ≤ days_in_month y m) ↔ IsDay y m d
unfolding days_in_month
le-days_in_month y m d lo hi = ground (arith, is_leap-true_iff y)

IsDay-le : (y m d : ℕ) → IsDay y m d → d ≤ 31
IsDay-le y m d h = ground arith

digit_is : (n : ℕ) → is_digit (digit n) ≡ true
digit_is n = ground arith

year_of :
    (y : ℕ)
    → y ≤ 9999
    → number_of 0 (digit (y / 1000) ∷ digit (y / 100) ∷ digit (y / 10) ∷ digit y ∷ []) ≡ y
year_of y h = omega arith

pair_of : (n : ℕ) → n ≤ 99 → number_of 0 (digit (n / 10) ∷ digit n ∷ []) ≡ n
pair_of n h = omega arith

match_date-written :
    (f : Fields) → f.year ≤ 9999 → f.month ≤ 99 → f.day ≤ 99 → match_date (written f) ≡ some f
unfolding match_date
match_date-written f y m d =
    rw
      (
        digit_is (f.year / 1000),
        digit_is (f.year / 100),
        digit_is (f.year / 10),
        digit_is f.year,
        digit_is (f.month / 10),
        digit_is f.month,
        digit_is (f.day / 10),
        digit_is f.day,
        year_of f.year y,
        pair_of f.month m,
        pair_of f.day d,
      )
      refl

-- The digits of a number are those that it is written with.
year_digits :
    (y1 y2 y3 y4 : ℕ)
    → is_digit y1 ≡ true
    → is_digit y2 ≡ true
    → is_digit y3 ≡ true
    → is_digit y4 ≡ true
    → let y = number_of 0 (y1 ∷ y2 ∷ y3 ∷ y4 ∷ []) in
      (y ≤ 9999)
      × (y1 ≡ digit (y / 1000))
      × (y2 ≡ digit (y / 100))
      × (y3 ≡ digit (y / 10))
      × (y4 ≡ digit y)
year_digits y1 y2 y3 y4 a b c d = ground arith

pair_digits :
    (n1 n2 : ℕ)
    → is_digit n1 ≡ true
    → is_digit n2 ≡ true
    → let n = number_of 0 (n1 ∷ n2 ∷ []) in (n1 ≡ digit (n / 10)) × (n2 ≡ digit n)
pair_digits n1 n2 a b = ground arith

ten_sound :
    (y1 y2 y3 y4 d1 m1 m2 d2 n1 n2 : ℕ) (f : Fields)
    → match_date (y1 ∷ y2 ∷ y3 ∷ y4 ∷ d1 ∷ m1 ∷ m2 ∷ d2 ∷ n1 ∷ n2 ∷ []) ≡ some f
    → (y1 ∷ y2 ∷ y3 ∷ y4 ∷ d1 ∷ m1 ∷ m2 ∷ d2 ∷ n1 ∷ n2 ∷ [] ≡ written f) × (f.year ≤ 9999)
unfolding match_date
ten_sound y1 y2 y3 y4 d1 m1 m2 d2 n1 n2 f h =
    let g : Fields = record {
      year = number_of 0 (y1 ∷ y2 ∷ y3 ∷ y4 ∷ []);
      month = number_of 0 (m1 ∷ m2 ∷ []);
      day = number_of 0 (n1 ∷ n2 ∷ []);
    } in
    let same : g ≡ f = ground arith in
    let y = year_digits y1 y2 y3 y4 (ground arith) (ground arith) (ground arith) (ground arith) in
    let m = pair_digits m1 m2 (ground arith) (ground arith) in
    let n = pair_digits n1 n2 (ground arith) (ground arith) in
    let d : d1 ≡ b'-' = ground arith in
    let e : d2 ≡ b'-' = ground arith in
    subst
      (λ k. (y1 ∷ y2 ∷ y3 ∷ y4 ∷ d1 ∷ m1 ∷ m2 ∷ d2 ∷ n1 ∷ n2 ∷ [] ≡ written k) × (k.year ≤ 9999))
      same (cc, y.0)

match_date_sound :
    (cs : List ℕ) (f : Fields) → match_date cs ≡ some f → (cs ≡ written f) × (f.year ≤ 9999)
unfolding match_date
match_date_sound [] f h = cc
match_date_sound (y1 ∷ []) f h = cc
match_date_sound (y1 ∷ y2 ∷ []) f h = cc
match_date_sound (y1 ∷ y2 ∷ y3 ∷ []) f h = cc
match_date_sound (y1 ∷ y2 ∷ y3 ∷ y4 ∷ []) f h = cc
match_date_sound (y1 ∷ y2 ∷ y3 ∷ y4 ∷ d1 ∷ []) f h = cc
match_date_sound (y1 ∷ y2 ∷ y3 ∷ y4 ∷ d1 ∷ m1 ∷ []) f h = cc
match_date_sound (y1 ∷ y2 ∷ y3 ∷ y4 ∷ d1 ∷ m1 ∷ m2 ∷ []) f h = cc
match_date_sound (y1 ∷ y2 ∷ y3 ∷ y4 ∷ d1 ∷ m1 ∷ m2 ∷ d2 ∷ []) f h = cc
match_date_sound (y1 ∷ y2 ∷ y3 ∷ y4 ∷ d1 ∷ m1 ∷ m2 ∷ d2 ∷ n1 ∷ []) f h = cc
match_date_sound (y1 ∷ y2 ∷ y3 ∷ y4 ∷ d1 ∷ m1 ∷ m2 ∷ d2 ∷ n1 ∷ n2 ∷ []) f h =
    ten_sound y1 y2 y3 y4 d1 m1 m2 d2 n1 n2 f h
match_date_sound (y1 ∷ y2 ∷ y3 ∷ y4 ∷ d1 ∷ m1 ∷ m2 ∷ d2 ∷ n1 ∷ n2 ∷ x ∷ xs) f h = cc

is_date-IsDate : (f : Fields) → f.year ≤ 9999 → is_date f ≡ true → IsDate f
is_date-IsDate f le h =
    let lo : 1 ≤ f.month = ground arith in
    let hi : f.month ≤ 12 = ground arith in
    record {
      year_in = (ground arith, le);
      month_in = (lo, hi);
      day_in = (ground arith, (le-days_in_month f.year f.month f.day lo hi).0 (ground arith));
    }

is_date-true : (f : Fields) → IsDate f → is_date f ≡ true
is_date-true f d =
    let (lo, hi) = d.month_in in
    let (first, day) = d.day_in in
    let (y, _) = d.year_in in ground (arith, (le-days_in_month f.year f.month f.day lo hi).1 day)

-- Text is accepted exactly if it is some day of the Gregorian calendar from the year 1 to 9999,
-- written as YYYY-MM-DD.
pub is_exact_calendar_date_iff :
    (value : String)
    → (is_exact_calendar_date value ≡ true) ↔ ((f : Fields) × IsDate f × (codes value ≡ written f))
unfolding is_exact_calendar_date
is_exact_calendar_date_iff value = (
  λ h. elim (Option-cases (match_date (codes value))) [
    | inl e ↦ absurd (false-ne-true (subst (λ o. is_some_date o ≡ true) e h))
    | inr (f, e) ↦
        let (w, y) = match_date_sound (codes value) f e in
        (f, is_date-IsDate f y (subst (λ o. is_some_date o ≡ true) e h), w)
  ],
  λ (f, d, w).
      rw
        (
          w,
          match_date-written f d.year_in.1 (omega (arith, d.month_in))
              (ground (arith, IsDay-le f.year f.month f.day d.day_in.1)),
        )
        (is_date-true f d),
)
