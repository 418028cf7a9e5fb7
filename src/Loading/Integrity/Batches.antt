-- ===== src/Loading/Integrity/Batches.antt =====
-- The loop over batches gives what one pass over all files gives.
use leitstand.Common.{
  ℕ, zero, suc, ◌+◌, ◌-◌, ◌≤◌, ◌≡◌, refl, ◌∙◌, ap, sym, Bool-cases, inl, inr, String, Option,
  Option-cases, List, [], ◌∷◌, ◌++◌, take, filter_map, ltb, length, arith,
}
use leitstand.Loading.Integrity.{drop, slice, load_batches}

pub ++-[] {ℓ} : {A : Type ℓ} (xs : List A) → xs ++ [] ≡ xs
++-[] [] = refl
++-[] (x ∷ xs) = ap (λ ys. x ∷ ys) (++-[] xs)

pub ++-assoc {ℓ} : {A : Type ℓ} (xs ys zs : List A) → (xs ++ ys) ++ zs ≡ xs ++ (ys ++ zs)
++-assoc [] ys zs = refl
++-assoc (x ∷ xs) ys zs = ap (λ us. x ∷ us) (++-assoc xs ys zs)

drop-nil : (n : ℕ) → drop {A = String} n [] ≡ []
drop-nil zero = refl
drop-nil (suc n) = refl

pub drop-drop : (i n : ℕ) (xs : List String) → drop n (drop i xs) ≡ drop (i + n) xs
drop-drop zero n xs = let e : n ≡ 0 + n = omega arith in ap (λ k. drop k xs) e
drop-drop (suc i) n [] = drop-nil n ∙ sym (drop-nil (suc i + n))
drop-drop (suc i) n (x ∷ xs) =
    let e : suc (i + n) ≡ suc i + n = omega arith in drop-drop i n xs ∙ ap (λ k. drop k (x ∷ xs)) e

pub drop-all : (i : ℕ) (xs : List String) → length xs ≤ i → drop i xs ≡ []
drop-all zero [] h = refl
drop-all zero (x ∷ xs) h = absurd (omega arith)
drop-all (suc i) [] h = refl
drop-all (suc i) (x ∷ xs) h = drop-all i xs (omega arith)

module _ {A : Type 0} (f : String → Option A) where
  filter_map-take-drop :
      (n : ℕ) (xs : List String)
      → filter_map f xs ≡ filter_map f (take n xs) ++ filter_map f (drop n xs)
  filter_map-take-drop zero xs = refl
  filter_map-take-drop (suc n) [] = refl
  filter_map-take-drop (suc n) (x ∷ xs) = elim (Option-cases (f x)) [
    | inl e ↦ ground (arith, filter_map-take-drop n xs)
    | inr (y, e) ↦ ground (arith, filter_map-take-drop n xs)
  ]

  -- From the index `i` on, with fuel for the files that are left.
  pub load_batches-filter_map :
      (fuel i : ℕ) (files : List String) (loaded : List A)
      → length files ≤ i + fuel
      → load_batches fuel f files i loaded ≡ loaded ++ filter_map f (drop i files)
  load_batches-filter_map zero i files loaded h =
      sym (++-[] loaded)
      ∙ ap (λ ys. loaded ++ filter_map f ys) (sym (drop-all i files (omega arith)))
  load_batches-filter_map (suc fuel) i files loaded h = elim (Bool-cases (ltb i (length files))) [
    | inr e ↦ rw e (
        sym (++-[] loaded)
        ∙ ap (λ ys. loaded ++ filter_map f ys) (sym (drop-all i files (ground arith))))
    | inl e ↦
        let ten : i + 10 - i ≡ 10 = omega arith in
        let batch = slice i (i + 10) files in
        let whole : filter_map f (drop i files)
            ≡ filter_map f batch ++ filter_map f (drop (i + 10) files) =
          filter_map-take-drop 10 (drop i files)
          ∙ ap (λ k. filter_map f (take k (drop i files)) ++ filter_map f (drop 10 (drop i files)))
              (sym ten)
          ∙ ap (λ ys. filter_map f batch ++ filter_map f ys) (drop-drop i 10 files) in
        rw e (
          load_batches-filter_map fuel (i + 10) files (loaded ++ filter_map f batch) (omega arith)
          ∙ ++-assoc loaded (filter_map f batch) (filter_map f (drop (i + 10) files))
          ∙ ap (λ ys. loaded ++ ys) (sym whole))
  ]
