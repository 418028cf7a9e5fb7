-- ===== src/Common/Distinct.antt =====
-- Sets of text, as the lists of what was added: `seen.has(x)`, and lists without repetition.
use mathlib.Core.Path.{◌≡◌}
use mathlib.Core.Logic.{◌≢◌}
use mathlib.Core.Bool.{Bool, true, false, not, ◌&&◌}
use mathlib.Core.List.{List, [], ◌∷◌}
use Prim.Native.String.{String}
use native.Mathlib.Omega.{arith}
use text.Mathlib.Text.{◌==◌}
use text.Mathlib.TextEquality.{eq_iff}
use leitstand.Common.Lists.{any, All, All-mono}

-- `seen.has(x)`
abbrev pub has : List String → String → Bool
has seen x = any (λ y. y == x) seen

-- `new Set(xs).size === xs.length`
abbrev pub all_distinct : List String → Bool
all_distinct [] = true
all_distinct (x ∷ xs) = not (has xs x) && all_distinct xs

abbrev pub Distinct : List String → Type 0
Distinct [] = Unit
Distinct (x ∷ xs) = All (λ y. y ≢ x) xs × Distinct xs

-- None of the elements was seen.
abbrev pub New : List String → List String → Type 0
New seen xs = All (λ x. has seen x ≡ false) xs

has-false : (xs : List String) (x : String) → has xs x ≡ false → All (λ y. y ≢ x) xs
has-false [] x h = tt
has-false (y ∷ ys) x h = ((λ e. ground (arith, eq_iff y x)), has-false ys x (ground arith))

pub all_distinct-Distinct : (xs : List String) → all_distinct xs ≡ true → Distinct xs
all_distinct-Distinct [] h = tt
all_distinct-Distinct (x ∷ xs) h =
    (has-false xs x (ground arith), all_distinct-Distinct xs (ground arith))

not_seen : (seen : List String) (x y : String) → has (x ∷ seen) y ≡ false → y ≢ x
not_seen seen x y h e = ground (arith, eq_iff x y)

-- A walk that adds each element to what was seen before it goes on.
module _ (seen : List String) (x : String) where
  pub New-step : (xs : List String) → New (x ∷ seen) xs → New seen xs
  New-step xs h = All-mono (λ y p. ground arith) xs h

  pub Distinct-step : (xs : List String) → New (x ∷ seen) xs → All (λ y. y ≢ x) xs
  Distinct-step xs h = All-mono (λ y p. not_seen seen x y p) xs h
