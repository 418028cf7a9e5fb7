-- ===== src/Common/Order.antt =====
-- `[...xs].sort(compare)`: the stable sort. `le a b` says that `compare(a, b)` is not positive.
use Prim.Native.Nat.{ℕ}
use mathlib.Core.Path.{◌≡◌, refl, sym, ap, ◌∙◌}
use mathlib.Core.Logic.{inl, inr}
use mathlib.Core.Bool.{Bool, true, false}
use mathlib.Core.List.{List, [], ◌∷◌, ◌++◌, Perm}
use mathlib.Core.List.Perm
use native.Mathlib.Omega.{arith}
use leitstand.Common.Booleans.{leb, if◌then◌else◌, Bool-cases}
use leitstand.Common.Lists.{All, All-mono, count, length, count_all}

-- The comparison is total and transitive, as `sort` asks of it.
pub record IsOrder {ℓ} {A : Type ℓ} (le : A → A → Bool) : Type ℓ where
  pub total : (a b : A) → le a b ≡ false → le b a ≡ true
  pub trans : (a b c : A) → le a b ≡ true → le b c ≡ true → le a c ≡ true

module _ {ℓ} {A : Type ℓ} (le : A → A → Bool) where
  -- An element goes before the first one that it may stand before.
  abbrev pub insert_by : A → List A → List A
  insert_by a [] = a ∷ []
  insert_by a (x ∷ xs) = if le a x then a ∷ x ∷ xs else x ∷ insert_by a xs

  unfoldable pub sort_by : List A → List A
  sort_by [] = []
  sort_by (x ∷ xs) = insert_by x (sort_by xs)

  -- Each element may stand before all later ones.
  abbrev pub IsSortedBy : List A → Type 0
  IsSortedBy [] = Unit
  IsSortedBy (x ∷ xs) = All (λ y. le x y ≡ true) xs × IsSortedBy xs

  -- An element goes past all that it may not stand before, and in front of all that it may.
  pub insert_by-past :
      (a : A) (us vs : List A)
      → All (λ u. le a u ≡ false) us
      → insert_by a (us ++ vs) ≡ us ++ insert_by a vs
  insert_by-past a [] vs h = refl
  insert_by-past a (u ∷ us) vs (p, h) = rw p (ap (λ ws. u ∷ ws) (insert_by-past a us vs h))

  pub insert_by-front :
      (a : A) (vs : List A) → All (λ v. le a v ≡ true) vs → insert_by a vs ≡ a ∷ vs
  insert_by-front a [] h = refl
  insert_by-front a (v ∷ vs) (p, h) = rw p refl

  insert_by-perm : (a : A) (xs : List A) → Perm (insert_by a xs) (a ∷ xs)
  insert_by-perm a [] = Perm.refl (a ∷ [])
  insert_by-perm a (x ∷ xs) = elim (Bool-cases (le a x)) [
    | inl e ↦ rw e (Perm.refl (a ∷ x ∷ xs))
    | inr e ↦ rw e (Perm.trans (Perm.cons x (insert_by-perm a xs)) (Perm.swap a x xs))
  ]

  pub sort_by-perm : (xs : List A) → Perm (sort_by xs) xs
  unfolding sort_by
  sort_by-perm [] = Perm.refl []
  sort_by-perm (x ∷ xs) = Perm.trans (insert_by-perm x (sort_by xs)) (Perm.cons x (sort_by-perm xs))

  count-insert_by :
      (p : A → Bool) (a : A) (xs : List A) → count p (insert_by a xs) ≡ count p (a ∷ xs)
  count-insert_by p a [] = refl
  count-insert_by p a (x ∷ xs) = ground (arith, count-insert_by p a xs)

  pub count-sort_by : (p : A → Bool) (xs : List A) → count p (sort_by xs) ≡ count p xs
  unfolding sort_by
  count-sort_by p [] = refl
  count-sort_by p (x ∷ xs) = count-insert_by p x (sort_by xs) ∙ ground (arith, count-sort_by p xs)

  pub length-sort_by : (xs : List A) → length (sort_by xs) ≡ length xs
  length-sort_by xs = sym (count_all (sort_by xs)) ∙ count-sort_by (λ _. true) xs ∙ count_all xs

  All-insert_by : (P : A → Type 0) (a : A) (xs : List A) → P a → All P xs → All P (insert_by a xs)
  All-insert_by P a [] h k = (h, tt)
  All-insert_by P a (x ∷ xs) h (p, k) = elim (Bool-cases (le a x)) [
    | inl e ↦ rw e (h, (p, k))
    | inr e ↦ rw e (p, All-insert_by P a xs h k)
  ]

  pub All-sort_by : (P : A → Type 0) (xs : List A) → All P xs → All P (sort_by xs)
  unfolding sort_by
  All-sort_by P [] h = tt
  All-sort_by P (x ∷ xs) (p, h) = All-insert_by P x (sort_by xs) p (All-sort_by P xs h)

  module _ (o : IsOrder le) where
    insert_by-IsSortedBy : (a : A) (xs : List A) → IsSortedBy xs → IsSortedBy (insert_by a xs)
    insert_by-IsSortedBy a [] s = (tt, tt)
    insert_by-IsSortedBy a (x ∷ xs) (p, s) = elim (Bool-cases (le a x)) [
      | inl e ↦ rw e ((e, All-mono (λ y h. o.trans a x y e h) xs p), (p, s))
      | inr e ↦
          rw e
            (All-insert_by (λ y. le x y ≡ true) a xs (o.total a x e) p, insert_by-IsSortedBy a xs s)
    ]

    pub sort_by-IsSortedBy : (xs : List A) → IsSortedBy (sort_by xs)
    unfolding sort_by
    sort_by-IsSortedBy [] = tt
    sort_by-IsSortedBy (x ∷ xs) = insert_by-IsSortedBy x (sort_by xs) (sort_by-IsSortedBy xs)

module _ {ℓ} {A : Type ℓ} (le : A → A → Bool) where
  sort_by-sorted : (xs : List A) → IsSortedBy le xs → sort_by le xs ≡ xs
  unfolding sort_by
  sort_by-sorted [] s = refl
  sort_by-sorted (x ∷ xs) (p, s) =
      ap (insert_by le x) (sort_by-sorted xs s) ∙ insert_by-front le x xs p

-- The sort by a number: `sort((a, b) => rank(a) - rank(b))`.
module _ {ℓ} {A : Type ℓ} (rank : A → ℕ) where
  abbrev pub rank_le : A → A → Bool
  rank_le a b = leb (rank a) (rank b)

  unfoldable pub sort : List A → List A
  unfolding sort_by
  sort = sort_by rank_le

  rank_le-IsOrder : IsOrder rank_le
  rank_le-IsOrder = record { total = λ a b h. ground arith; trans = λ a b c h k. ground arith }

  pub sort-sort : (xs : List A) → sort (sort xs) ≡ sort xs
  unfolding sort
  sort-sort xs = sort_by-sorted rank_le _ (sort_by-IsSortedBy rank_le rank_le-IsOrder xs)
