-- ===== src/Common/Lists.antt =====
-- Lists as JavaScript arrays: `length`, `filter`, `some`, `every`, `slice` with Boolean tests.
use Prim.Native.Nat.{ℕ, zero, suc, ◌+◌, ◌≤◌}
use mathlib.Core.Path.{◌≡◌, refl, ap}
use mathlib.Core.Logic.{◌↔◌, ◌≢◌}
use mathlib.Core.Bool.{Bool, true, false, ◌&&◌, ◌||◌}
use mathlib.Core.Option.{Option, none, some}
use mathlib.Core.List.{List, [], ◌∷◌, ◌++◌}
use native.Mathlib.Omega.{arith}
use leitstand.Common.Booleans.{if◌then◌else◌, nat_eq}

module _ {ℓ} {A : Type ℓ} where
  abbrev pub length : List A → ℕ
  length [] = 0
  length (x ∷ xs) = suc (length xs)

  abbrev pub take : ℕ → List A → List A
  take zero xs = []
  take (suc n) [] = []
  take (suc n) (x ∷ xs) = x ∷ take n xs

  -- `xs.filter(p)`
  abbrev pub filter : (A → Bool) → List A → List A
  filter p [] = []
  filter p (x ∷ xs) = if p x then x ∷ filter p xs else filter p xs

  -- `xs.filter(p).length`
  abbrev pub count : (A → Bool) → List A → ℕ
  count p xs = length (filter p xs)

  -- `xs.some(p)` and `xs.every(p)`
  abbrev pub any : (A → Bool) → List A → Bool
  any p [] = false
  any p (x ∷ xs) = p x || any p xs

  abbrev pub all : (A → Bool) → List A → Bool
  all p [] = true
  all p (x ∷ xs) = p x && all p xs

  -- `xs.find(p)`
  abbrev pub find : (A → Bool) → List A → Option A
  find p [] = none
  find p (x ∷ xs) = if p x then some x else find p xs

-- `xs.map(f).filter((y) => y !== null)`
abbrev pub filter_map {ℓ κ} : {A : Type ℓ} {B : Type κ} → (A → Option B) → List A → List B
filter_map f [] = []
filter_map f (x ∷ xs) = elim (f x) [ none ↦ filter_map f xs | some y ↦ y ∷ filter_map f xs ]

-- `xss.flat()`
abbrev pub concat {ℓ} : {A : Type ℓ} → List (List A) → List A
concat [] = []
concat (xs ∷ xss) = xs ++ concat xss

module _ {ℓ κ} {A : Type ℓ} (P : A → Type κ) where
  abbrev pub All : List A → Type κ
  All [] = Unit
  All (x ∷ xs) = P x × All xs

module _ {ℓ κ μ} {A : Type ℓ} {P : A → Type κ} {Q : A → Type μ} where
  pub All-mono : ((x : A) → P x → Q x) → (xs : List A) → All P xs → All Q xs
  All-mono f [] h = tt
  All-mono f (x ∷ xs) (p, h) = (f x p, All-mono f xs h)

module _ {ℓ κ} {A : Type ℓ} (P : A → Type κ) where
  pub All-append : (xs ys : List A) → All P xs → All P ys → All P (xs ++ ys)
  All-append [] ys h k = k
  All-append (x ∷ xs) ys (p, h) k = (p, All-append xs ys h k)

  pub All-filter : (p : A → Bool) (xs : List A) → All P xs → All P (filter p xs)
  All-filter p [] h = tt
  All-filter p (x ∷ xs) (q, h) = ground (arith, All-filter p xs h)

module _ {ℓ} {A : Type ℓ} where
  pub length-append : (xs ys : List A) → length (xs ++ ys) ≡ length xs + length ys
  length-append [] ys = omega arith
  length-append (x ∷ xs) ys = omega (arith, length-append xs ys)

  pub length-take_le : (n : ℕ) (xs : List A) → length (take n xs) ≤ n
  length-take_le zero xs = omega arith
  length-take_le (suc n) [] = omega arith
  length-take_le (suc n) (x ∷ xs) = omega (arith, length-take_le n xs)

  pub count_le : (p : A → Bool) (xs : List A) → count p xs ≤ length xs
  count_le p [] = omega arith
  count_le p (x ∷ xs) = ground (arith, count_le p xs)

  -- What a filter keeps passes its test.
  pub filter-All : (p : A → Bool) (xs : List A) → All (λ x. p x ≡ true) (filter p xs)
  filter-All p [] = tt
  filter-All p (x ∷ xs) = ground (arith, filter-All p xs)

  pub count_all : (xs : List A) → count (λ _. true) xs ≡ length xs
  count_all [] = refl
  count_all (x ∷ xs) = ap suc (count_all xs)

  pub any-false_iff : (p : A → Bool) (xs : List A) → (any p xs ≡ false) ↔ (count p xs ≡ 0)
  any-false_iff p [] = (λ _. refl, λ _. refl)
  any-false_iff p (x ∷ xs) = ground (arith, any-false_iff p xs)

  -- A test that all elements pass counts them all; one that none passes counts none.
  pub All-count_iff :
      (p : A → Bool) (xs : List A) → All (λ x. p x ≡ true) xs ↔ (count p xs ≡ length xs)
  All-count_iff p [] = (λ _. refl, λ _. tt)
  All-count_iff p (x ∷ xs) = ground (arith, All-count_iff p xs, count_le p xs)

  pub None-count_iff : (p : A → Bool) (xs : List A) → All (λ x. p x ≡ false) xs ↔ (count p xs ≡ 0)
  None-count_iff p [] = (λ _. refl, λ _. tt)
  None-count_iff p (x ∷ xs) = ground (arith, None-count_iff p xs)

-- `!xs.includes(n)`
pub any-nat_eq : (n : ℕ) (xs : List ℕ) → any (nat_eq n) xs ≡ false → All (λ x. x ≢ n) xs
any-nat_eq n [] h = tt
any-nat_eq n (x ∷ xs) h = ((λ e. ground arith), any-nat_eq n xs (ground arith))
