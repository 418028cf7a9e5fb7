-- ===== src/Bureau/Parse/States.antt =====
-- The vocabulary of task states.
use leitstand.Common.{
  ℕ, ◌≡◌, refl, sym, ap, ◌∙◌, ◌≢◌, ◌↔◌, ◌⊎◌, inl, inr, true, String, Option, none, some, List, [],
  ◌∷◌, any, All, Bool-cases, false-ne-true, arith,
}
use leitstand.Common.Text.{codes, lower, same}
use leitstand.Json.{Json, null, boolean, number, string, array, object}
use leitstand.Bureau.Parse.{
  TaskState, queued, claimed, running, blocked, done, failed, unknown, is_word, state_of_word,
  normalize_state,
}

-- The words of a state, in lower case; a state that is not known has none.
abbrev pub words : TaskState → List String
words queued = "queued" ∷ "pending" ∷ "open" ∷ []
words claimed = "claimed" ∷ "assigned" ∷ []
words running = "running" ∷ "in_progress" ∷ "active" ∷ []
words blocked = "blocked" ∷ "waiting" ∷ "stalled" ∷ []
words done = "done" ∷ "completed" ∷ "complete" ∷ []
words failed = "failed" ∷ "error" ∷ "cancelled" ∷ "canceled" ∷ []
words unknown = []

words-state : (s : TaskState) → All (λ word. state_of_word (codes word) ≡ s) (words s)
unfolding state_of_word
words-state queued = (refl, (refl, (refl, tt)))
words-state claimed = (refl, (refl, tt))
words-state running = (refl, (refl, (refl, tt)))
words-state blocked = (refl, (refl, (refl, tt)))
words-state done = (refl, (refl, (refl, tt)))
words-state failed = (refl, (refl, (refl, (refl, tt))))
words-state unknown = tt

state-words :
    (w : List ℕ) (s : TaskState)
    → s ≢ unknown
    → state_of_word w ≡ s
    → any (is_word w) (words s) ≡ true
unfolding state_of_word is_word
state-words w queued n h = ground arith
state-words w claimed n h = ground arith
state-words w running n h = ground arith
state-words w blocked n h = ground arith
state-words w done n h = ground arith
state-words w failed n h = ground arith
state-words w unknown n h = absurd (n refl)

same-eq : (s t : List ℕ) → same s t ≡ true → s ≡ t
unfolding same
same-eq [] [] h = refl
same-eq [] (d ∷ t) h = cc
same-eq (c ∷ s) [] h = cc
same-eq (c ∷ s) (d ∷ t) h = ground (arith, same-eq s t)

-- The characters are those of one of the words.
abbrev pub SpelledAs : List ℕ → List String → Type 0
SpelledAs w [] = ⊥
SpelledAs w (word ∷ ws) = (w ≡ codes word) ⊎ SpelledAs w ws

any-SpelledAs : (w : List ℕ) (ws : List String) → any (is_word w) ws ≡ true → SpelledAs w ws
unfolding is_word
any-SpelledAs w [] h = absurd (false-ne-true h)
any-SpelledAs w (word ∷ ws) h = elim (Bool-cases (same w (codes word))) [
  | inl e ↦ inl (same-eq w (codes word) e)
  | inr e ↦ inr (any-SpelledAs w ws (ground arith))
]

SpelledAs-state :
    (w : List ℕ) (s : TaskState) (ws : List String)
    → All (λ word. state_of_word (codes word) ≡ s) ws
    → SpelledAs w ws
    → state_of_word w ≡ s
SpelledAs-state w s [] h k = absurd k
SpelledAs-state w s (word ∷ ws) (p, h) (inl e) = ap state_of_word e ∙ p
SpelledAs-state w s (word ∷ ws) (p, h) (inr k) = SpelledAs-state w s ws h k

-- What is spelled as one of the words of a state, whatever the case of its letters.
abbrev pub Names : Option Json → TaskState → Type 0
Names v s = (t : String) × (v ≡ some (string t)) × SpelledAs (lower (codes t)) (words s)

-- A value that is no text is read as the empty one.
nameless : normalize_state none ≡ unknown
unfolding normalize_state state_of_word lower
nameless = refl

normalize_state_sound :
    (v : Option Json) (s : TaskState) → s ≢ unknown → normalize_state v ≡ s → Names v s
unfolding normalize_state
normalize_state_sound (some (string t)) s n h =
    (t, refl, any-SpelledAs (lower (codes t)) (words s) (state-words (lower (codes t)) s n h))
normalize_state_sound none s n h = absurd (n (sym h ∙ nameless))
normalize_state_sound (some null) s n h = absurd (n (sym h ∙ nameless))
normalize_state_sound (some (boolean b)) s n h = absurd (n (sym h ∙ nameless))
normalize_state_sound (some (number m)) s n h = absurd (n (sym h ∙ nameless))
normalize_state_sound (some (array vs)) s n h = absurd (n (sym h ∙ nameless))
normalize_state_sound (some (object ms)) s n h = absurd (n (sym h ∙ nameless))

-- A value is read as a known state exactly if it is text that is spelled as one of the words of this
-- state: queued, pending, open; claimed, assigned; running, in_progress, active; blocked, waiting,
-- stalled; done, completed, complete; failed, error, cancelled, canceled; in any case of its letters.
pub normalize_state_iff :
    (v : Option Json) (s : TaskState) → s ≢ unknown → (normalize_state v ≡ s) ↔ Names v s
unfolding normalize_state
normalize_state_iff v s n = (
  normalize_state_sound v s n,
  λ (t, e, k).
      ap normalize_state e ∙ SpelledAs-state (lower (codes t)) s (words s) (words-state s) k,
)
