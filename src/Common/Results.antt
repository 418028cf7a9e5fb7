-- ===== src/Common/Results.antt =====
-- Code that may throw: `err m` is an `Error` thrown with the message `m`.
use Prim.Native.Nat.{ℕ, suc}
use Prim.Native.String.{String}
use mathlib.Core.Path.{◌≡◌, refl, ap, ◌∙◌, subst}
use mathlib.Core.Logic.{◌↔◌, ◌⊎◌, inl, inr}
use mathlib.Core.Bool.{Bool, true, false}
use mathlib.Core.List.{List, [], ◌∷◌}
use native.Mathlib.Omega.{arith}
use leitstand.Common.Lists.{length, All}

pub data Result {ℓ} (A : Type ℓ) : Type ℓ where
  ok : A → Result A
  err : String → Result A

module _ {ℓ κ} {A : Type ℓ} {B : Type κ} where
  infixl 5 ◌>>=◌
  abbrev pub ◌>>=◌ : Result A → (A → Result B) → Result B
  err message >>= next = err message
  ok value >>= next = next value

  -- What a step that did not throw went through.
  pub >>=-eq-ok :
      (step : Result A) (next : A → Result B) {y : B}
      → (step >>= next) ≡ ok y
      → (x : A) × (step ≡ ok x) × (next x ≡ ok y)
  >>=-eq-ok (err message) next thrown = cc
  >>=-eq-ok (ok value) next done = (value, refl, done)

infixl 5 ◌>>◌
abbrev pub ◌>>◌ {ℓ} : {B : Type ℓ} → Result (Unit {0}) → Result B → Result B
check >> rest = check >>= (λ _. rest)

-- `if (!test) throw new Error(message)`
abbrev pub require : Bool → String → Result (Unit {0})
require false message = err message
require true message = ok tt

pub Result-cases {ℓ} :
    {A : Type ℓ} (r : Result A) → ((a : A) × (r ≡ ok a)) ⊎ ((m : String) × (r ≡ err m))
Result-cases (ok a) = inl (a, refl)
Result-cases (err m) = inr (m, refl)

module _ {ℓ κ} {A : Type ℓ} {B : Type κ} where
  -- `xs.map(f)` with an `f` that may throw: the first error ends it.
  abbrev pub traverse : (A → Result B) → List A → Result (List B)
  traverse f [] = ok []
  traverse f (x ∷ xs) = f x >>= λ y. traverse f xs >>= λ ys. ok (y ∷ ys)

  -- The lists are of one length, and `R` relates their elements place by place.
  abbrev pub Pointwise : (A → B → Type 0) → List A → List B → Type 0
  Pointwise R [] [] = Unit
  Pointwise R [] (_ ∷ _) = ⊥
  Pointwise R (_ ∷ _) [] = ⊥
  Pointwise R (x ∷ xs) (y ∷ ys) = R x y × Pointwise R xs ys

  pub length-Pointwise :
      (R : A → B → Type 0) (xs : List A) (ys : List B) → Pointwise R xs ys → length xs ≡ length ys
  length-Pointwise R [] [] h = refl
  length-Pointwise R [] (_ ∷ _) h = absurd h
  length-Pointwise R (_ ∷ _) [] h = absurd h
  length-Pointwise R (x ∷ xs) (y ∷ ys) h = ap suc (length-Pointwise R xs ys h.1)

  pub Pointwise-mono :
      (R S : A → B → Type 0)
      → ((x : A) (y : B) → R x y → S x y)
      → (xs : List A) (ys : List B) → Pointwise R xs ys
      → Pointwise S xs ys
  Pointwise-mono R S f [] [] h = tt
  Pointwise-mono R S f [] (_ ∷ _) h = h
  Pointwise-mono R S f (_ ∷ _) [] h = h
  Pointwise-mono R S f (x ∷ xs) (y ∷ ys) h = (f x y h.0, Pointwise-mono R S f xs ys h.1)

  pub Pointwise-All :
      (R : A → B → Type 0) (P : B → Type 0)
      → ((x : A) (y : B) → R x y → P y)
      → (xs : List A) (ys : List B) → Pointwise R xs ys
      → All P ys
  Pointwise-All R P f [] [] h = tt
  Pointwise-All R P f [] (_ ∷ _) h = absurd h
  Pointwise-All R P f (_ ∷ _) [] h = absurd h
  Pointwise-All R P f (x ∷ xs) (y ∷ ys) h = (f x y h.0, Pointwise-All R P f xs ys h.1)

module _ {A B : Type 0} (f : A → Result B) where
  traverse_sound :
      (xs : List A) (ys : List B) → traverse f xs ≡ ok ys → Pointwise (λ x y. f x ≡ ok y) xs ys
  traverse_sound [] [] h = tt
  traverse_sound [] (_ ∷ _) h = cc
  traverse_sound (x ∷ xs) [] h =
      let (y, here, h') = >>=-eq-ok (f x) _ h in
      let (ys, later, e) = >>=-eq-ok (traverse f xs) _ h' in cc
  traverse_sound (x ∷ xs) (y ∷ ys) h =
      let (y', here, h') = >>=-eq-ok (f x) _ h in
      let (ys', later, e) = >>=-eq-ok (traverse f xs) _ h' in
      (here ∙ cc, traverse_sound xs ys (later ∙ cc))

  traverse_complete :
      (xs : List A) (ys : List B) → Pointwise (λ x y. f x ≡ ok y) xs ys → traverse f xs ≡ ok ys
  traverse_complete [] [] h = refl
  traverse_complete [] (_ ∷ _) h = absurd h
  traverse_complete (x ∷ xs) [] h = absurd h
  traverse_complete (x ∷ xs) (y ∷ ys) (p, q) = rw (p, traverse_complete xs ys q)

  pub traverse-ok_iff :
      (xs : List A) (ys : List B) → (traverse f xs ≡ ok ys) ↔ Pointwise (λ x y. f x ≡ ok y) xs ys
  traverse-ok_iff xs ys = (traverse_sound xs ys, traverse_complete xs ys)

-- `xs.map((x, index) => …)` with a function that may throw, from an index on.
module _ {ℓ κ} {A : Type ℓ} {B : Type κ} where
  abbrev pub traverse_from : ℕ → (ℕ → A → Result B) → List A → Result (List B)
  traverse_from i f [] = ok []
  traverse_from i f (x ∷ xs) = f i x >>= λ y. traverse_from (suc i) f xs >>= λ ys. ok (y ∷ ys)

  pub length-traverse_from :
      (i : ℕ) (f : ℕ → A → Result B) (xs : List A) {ys : List B}
      → traverse_from i f xs ≡ ok ys
      → length ys ≡ length xs
  length-traverse_from i f [] h = ground arith
  length-traverse_from i f (x ∷ xs) h =
      let (y, here, h') = >>=-eq-ok (f i x) _ h in
      let (ys, later, e) = >>=-eq-ok (traverse_from (suc i) f xs) _ h' in
      let shorter = length-traverse_from (suc i) f xs later in ground arith

-- `P` holds of the message, if the code throws one.
pub data Throws {ℓ} {B : Type ℓ} (P : String → Type 0) : Result B → Type ℓ where
  returns : {b : B} → Throws P (ok b)
  throws : {m : String} → P m → Throws P (err m)

module _ (P : String → Type 0) where
  pub Throws-require : (b : Bool) (message : String) → P message → Throws P (require b message)
  Throws-require true message h = returns
  Throws-require false message h = throws h

  pub Throws->>= :
      {A B : Type 0} (m : Result A) (f : A → Result B)
      → Throws P m
      → ((a : A) → Throws P (f a))
      → Throws P (m >>= f)
  Throws->>= (ok a) f h k = k a
  Throws->>= (err m) f (throws h) k = throws h

  pub Throws-traverse :
      {A B : Type 0} (f : A → Result B)
      → ((a : A) → Throws P (f a))
      → (xs : List A) → Throws P (traverse f xs)
  Throws-traverse f h [] = returns
  Throws-traverse f h (x ∷ xs) =
      Throws->>= (f x) _ (h x)
        λ y. Throws->>= (traverse f xs) _ (Throws-traverse f h xs) λ ys. returns

  Throws-inversion : {B : Type 0} {r : Result B} (m : String) → Throws P r → r ≡ err m → P m
  Throws-inversion m returns e = cc
  Throws-inversion m (throws h) e = subst P (ground arith) h

  pub Throws-err : {B : Type 0} (r : Result B) (m : String) → Throws P r → r ≡ err m → P m
  Throws-err r m h e = Throws-inversion m h e

pub ruleset throwing = (returns, Throws-require, Throws->>=, Throws-traverse)

pub ok-injective {ℓ} : {A : Type ℓ} {a b : A} → ok a ≡ ok b → a ≡ b
ok-injective e = cc

pub require-true : (b : Bool) (message : String) {u : Unit} → require b message ≡ ok u → b ≡ true
require-true true message e = refl
require-true false message e = cc
