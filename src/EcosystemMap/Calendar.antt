-- ===== src/EcosystemMap/Calendar.antt =====
-- `isExactCalendarDate`: text in the form YYYY-MM-DD that names a day of the Gregorian calendar.
pub mod Laws
use leitstand.Common.{
  ℕ, zero, suc, ◌+◌, ◌-◌, ◌*◌, ◌%◌, Bool, true, false, not, ◌&&◌, ◌||◌, String, Option, none, some,
  List, [], ◌∷◌, nat_eq, leb, if◌then◌else◌,
}
use leitstand.Common.Text.{codes}

abbrev pub is_digit : ℕ → Bool
is_digit c = leb b'0' c && leb c b'9'

-- `Number` of some digits.
abbrev pub number_of : ℕ → List ℕ → ℕ
number_of n [] = n
number_of n (c ∷ cs) = number_of (n * 10 + (c - b'0')) cs

pub record Fields : Type 0 where
  pub year : ℕ
  pub month : ℕ
  pub day : ℕ

-- `/^(\d{4})-(\d{2})-(\d{2})$/`, with the groups read as numbers.
unfoldable pub match_date : List ℕ → Option Fields
match_date (y1 ∷ y2 ∷ y3 ∷ y4 ∷ d1 ∷ m1 ∷ m2 ∷ d2 ∷ n1 ∷ n2 ∷ []) =
    if is_digit y1
      && is_digit y2
      && is_digit y3
      && is_digit y4
      && nat_eq d1 b'-'
      && is_digit m1
      && is_digit m2
      && nat_eq d2 b'-'
      && is_digit n1
      && is_digit n2
    then some (record {
      year = number_of 0 (y1 ∷ y2 ∷ y3 ∷ y4 ∷ []);
      month = number_of 0 (m1 ∷ m2 ∷ []);
      day = number_of 0 (n1 ∷ n2 ∷ []);
    })
    else none
match_date _ = none

unfoldable pub is_leap : ℕ → Bool
is_leap year = nat_eq (year % 4) 0 && (not (nat_eq (year % 100) 0) || nat_eq (year % 400) 0)

-- `xs[i]`, which is never read outside the array.
abbrev at_or_zero : ℕ → List ℕ → ℕ
at_or_zero i [] = 0
at_or_zero zero (x ∷ xs) = x
at_or_zero (suc i) (x ∷ xs) = at_or_zero i xs

unfoldable pub days_in_month : ℕ → ℕ → ℕ
unfolding is_leap
days_in_month year month =
    at_or_zero (month - 1) (
      31 ∷ (if is_leap year then 29 else 28) ∷ 31 ∷ 30 ∷ 31 ∷ 30 ∷ 31 ∷ 31 ∷ 30 ∷ 31 ∷ 30 ∷ 31 ∷ [])

abbrev is_date : Fields → Bool
is_date f =
    if not (leb 1 f.year) || not (leb 1 f.month) || not (leb f.month 12) || not (leb 1 f.day)
    then false
    else leb f.day (days_in_month f.year f.month)

abbrev is_some_date : Option Fields → Bool
is_some_date none = false
is_some_date (some f) = is_date f

unfoldable pub is_exact_calendar_date : String → Bool
is_exact_calendar_date value = is_some_date (match_date (codes value))
