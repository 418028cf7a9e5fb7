-- ===== src/StorageHealth/Truth/Laws.antt =====
-- Every claim of the part `current` is counted exactly once.
use leitstand.Common.{
  ℕ, suc, ◌+◌, ◌≡◌, refl, ap, ◌∙◌, String, Option, none, some, List, [], ◌∷◌, length, arith,
}
use leitstand.Json.{Json, JsonNumber, string}
use leitstand.StorageHealth.Values.{
  StorageTruth, observed, estimated, unavailable, StorageProducer, StorageViolation, StorageBlocker,
  UnownedArtifact,
}
use leitstand.StorageHealth.Truth.{
  Growth, Current, Truths, no_truths, count_word, count_truth, truth_name, of_number, of_text,
  producer_value, violation_value, blocker_value, unowned_value, list_value, filesystem_value,
  temporary_value, growth_value, current_value,
}

-- The sum of the three counters.
abbrev pub total : Truths → ℕ
total t = t.observed_count + t.estimated_count + t.unavailable_count

-- A truth that is counted, one by one.
word_total :
    (t : StorageTruth) (counts : Truths)
    → total (count_word (some (string (truth_name t))) counts) ≡ suc (total counts)
word_total observed counts = omega arith
word_total estimated counts = omega arith
word_total unavailable counts = omega arith

number_total : (n : Option JsonNumber) (counts : Truths) → count_truth (of_number n) counts ≡ counts
unfolding count_truth
number_total none counts = refl
number_total (some n) counts = refl

text_total : (s : Option String) (counts : Truths) → count_truth (of_text s) counts ≡ counts
unfolding count_truth
text_total none counts = refl
text_total (some s) counts = refl

module _ {A : Type 0} (f : A → Json)
    (one : (a : A) (counts : Truths) → total (count_truth (f a) counts) ≡ suc (total counts)) where
  list_total :
      (xs : List A) (counts : Truths)
      → total (count_truth (list_value f xs) counts) ≡ length xs + total counts
  unfolding count_truth
  list_total [] counts = omega arith
  list_total (x ∷ xs) counts = omega (arith, one x counts, list_total xs (count_truth (f x) counts))

producer_total :
    (p : StorageProducer) (counts : Truths)
    → total (count_truth (producer_value p) counts) ≡ suc (total counts)
unfolding count_truth
producer_total p counts = word_total p.truth counts

violation_total :
    (v : StorageViolation) (counts : Truths)
    → total (count_truth (violation_value v) counts) ≡ suc (total counts)
unfolding count_truth
violation_total v counts = word_total v.truth counts

blocker_total :
    (b : StorageBlocker) (counts : Truths)
    → total (count_truth (blocker_value b) counts) ≡ suc (total counts)
unfolding count_truth
blocker_total b counts = rw (number_total b.count) (word_total b.truth counts)

unowned_total :
    (a : UnownedArtifact) (counts : Truths)
    → total (count_truth (unowned_value a) counts) ≡ suc (total counts)
unfolding count_truth
unowned_total a counts = word_total a.truth counts

growth_total :
    (g : Growth) (counts : Truths)
    → total (count_truth (growth_value g) counts) ≡ suc (total counts)
unfolding count_truth
growth_total g counts =
    ap total (text_total g.baseline_at _ ∙ number_total g.percent _ ∙ number_total g.bytes _)
    ∙ word_total g.truth counts

-- How many claims the part `current` makes.
abbrev pub claims : Current → ℕ
claims c =
    3
    + length c.top_producers
    + length c.budget_violations
    + length c.unowned_artifacts
    + length c.cleanup_blockers

-- Every claim is counted once, under one of the three truths, and nothing else is.
pub total-count_truth : (c : Current) → total (count_truth (current_value c) no_truths) ≡ claims c
unfolding count_truth
total-count_truth c =
    let filesystem = count_truth (filesystem_value c.filesystem) no_truths in
    let temporary = count_truth (temporary_value c.temporary) filesystem in
    let growth = count_truth (growth_value c.growth_24h) temporary in
    let producers = count_truth (list_value producer_value c.top_producers) growth in
    let violations = count_truth (list_value violation_value c.budget_violations) producers in
    let unowned = count_truth (list_value unowned_value c.unowned_artifacts) violations in
    omega (
      arith,
      word_total c.filesystem.truth no_truths,
      word_total c.temporary.truth filesystem,
      growth_total c.growth_24h temporary,
      list_total producer_value producer_total c.top_producers growth,
      list_total violation_value violation_total c.budget_violations producers,
      list_total unowned_value unowned_total c.unowned_artifacts violations,
      list_total blocker_value blocker_total c.cleanup_blockers unowned,
    )
