-- ===== src/Common/TextOrder.antt =====
-- The order of the language on strings is transitive.
use Prim.Native.Nat.{ℕ}
use Prim.Native.String.{String}
use mathlib.Core.Path.{◌≡◌, refl}
use mathlib.Core.Bool.{true, false}
use mathlib.Core.List.{List, [], ◌∷◌}
use native.Mathlib.Omega.{arith}
use leitstand.Common.Text.{codes, units, before_units, text_before}

before_units_trans :
    (a b c : List ℕ) → before_units a b ≡ true → before_units b c ≡ true → before_units a c ≡ true
before_units_trans a [] c h k = cc
before_units_trans a (y ∷ b) [] h k = cc
before_units_trans [] (y ∷ b) (z ∷ c) h k = refl
before_units_trans (x ∷ a) (y ∷ b) (z ∷ c) h k = ground (arith, before_units_trans a b c)

pub text_before_trans :
    (a b c : String) → text_before a b ≡ true → text_before b c ≡ true → text_before a c ≡ true
unfolding text_before
text_before_trans a b c = before_units_trans (units (codes a)) (units (codes b)) (units (codes c))

before_units_irrefl : (a : List ℕ) → before_units a a ≡ false
before_units_irrefl [] = refl
before_units_irrefl (x ∷ a) = ground (arith, before_units_irrefl a)

pub text_before_irrefl : (a : String) → text_before a a ≡ false
unfolding text_before
text_before_irrefl a = before_units_irrefl (units (codes a))

before_units_asym : (a b : List ℕ) → before_units a b ≡ true → before_units b a ≡ false
before_units_asym a [] h = cc
before_units_asym [] (y ∷ b) h = refl
before_units_asym (x ∷ a) (y ∷ b) h = ground (arith, before_units_asym a b)

pub text_before_asym : (a b : String) → text_before a b ≡ true → text_before b a ≡ false
unfolding text_before
text_before_asym a b = before_units_asym (units (codes a)) (units (codes b))

not_before_trans :
    (a b c : List ℕ)
    → before_units b a ≡ false
    → before_units c b ≡ false
    → before_units c a ≡ false
not_before_trans [] b c h k = refl
not_before_trans (x ∷ a) [] c h k = cc
not_before_trans (x ∷ a) (y ∷ b) [] h k = cc
not_before_trans (x ∷ a) (y ∷ b) (z ∷ c) h k = ground (arith, not_before_trans a b c)

pub text_not_before_trans :
    (a b c : String) → text_before b a ≡ false → text_before c b ≡ false → text_before c a ≡ false
unfolding text_before
text_not_before_trans a b c = not_before_trans (units (codes a)) (units (codes b)) (units (codes c))
