-- ===== src/Metrics/Latest/Laws.antt =====
-- The file that is chosen by its time is the latest one.
use leitstand.Common.{
  ◌∙◌, Bool-cases, ◌≡◌, refl, subst, ◌⊎◌, inl, inr, true, false, not, ◌&&◌, Option, none, some,
  List, [], ◌∷◌, All, arith,
}
use leitstand.Common.Int.{leb_ℤ}
use leitstand.Common.Text.{text_before}
use leitstand.Common.TextOrder.{text_before_trans, text_before_irrefl}
use leitstand.Metrics.Latest.{Entry, is_same_time, newer, latest_of}

-- An entry that is no later than the latest one, and of the same time only with a name that is not
-- after its own.
abbrev pub IsBehind : Entry → Entry → Type 0
IsBehind latest e =
    (leb_ℤ e.time latest.time ≡ true)
    × (is_same_time e.time latest.time ≡ true → text_before latest.file e.file ≡ false)

newer-IsBehind_new : (latest : Option Entry) (e : Entry) → IsBehind (newer latest e) e
unfolding newer
newer-IsBehind_new none e = (ground arith, λ same. text_before_irrefl e.file)
newer-IsBehind_new (some latest) e = ground (arith, text_before_irrefl e.file)

newer-IsBehind_old : (latest e x : Entry) → IsBehind latest x → IsBehind (newer (some latest) e) x
unfolding newer
newer-IsBehind_old latest e x h = ground (arith, text_before_trans latest.file e.file x.file)

latest_of-IsBehind_old :
    (l x r : Entry) (es : List Entry) → IsBehind l x → latest_of (some l) es ≡ some r → IsBehind r x
unfolding latest_of
latest_of-IsBehind_old l x r [] h e = let same : l ≡ r = cc in subst (λ r. IsBehind r x) same h
latest_of-IsBehind_old l x r (y ∷ es) h e =
    latest_of-IsBehind_old (newer (some l) y) x r es (newer-IsBehind_old l y x h) e

latest_of-IsBehind :
    (latest : Option Entry) (r : Entry) (es : List Entry)
    → latest_of latest es ≡ some r
    → All (IsBehind r) es
unfolding latest_of
latest_of-IsBehind latest r [] e = tt
latest_of-IsBehind latest r (x ∷ es) e = (
  latest_of-IsBehind_old (newer latest x) x r es (newer-IsBehind_new latest x) e,
  latest_of-IsBehind (some (newer latest x)) r es e,
)

abbrev pub IsAmong : Entry → List Entry → Type 0
IsAmong r [] = ⊥
IsAmong r (e ∷ es) = (r ≡ e) ⊎ IsAmong r es

newer-cases : (l x : Entry) → (newer (some l) x ≡ l) ⊎ (newer (some l) x ≡ x)
unfolding newer
newer-cases l x = elim (Bool-cases (not (leb_ℤ x.time l.time))) [
  | inl a ↦ inr (rw (a, newer) refl)
  | inr a ↦ elim (Bool-cases (is_same_time x.time l.time && text_before l.file x.file)) [
    | inl b ↦ inr (rw (a, newer, b) refl)
    | inr b ↦ inl (rw (a, newer, b) refl)
  ]
]

latest_of-IsAmong :
    (l r : Entry) (es : List Entry) → latest_of (some l) es ≡ some r → (r ≡ l) ⊎ IsAmong r es
unfolding latest_of
latest_of-IsAmong l r [] e = inl cc
latest_of-IsAmong l r (x ∷ es) e = elim (latest_of-IsAmong (newer (some l) x) r es e) [
  | inr later ↦ inr (inr later)
  | inl here ↦ elim (newer-cases l x) [
    | inl old ↦ inl (here ∙ old)
    | inr new ↦ inr (inl (here ∙ new))
  ]
]

-- The entry that is chosen is one of the entries, none of them is later, and none of the same time has
-- a name after its own.
pub latest_of-IsLatest :
    (es : List Entry) (r : Entry) → latest_of none es ≡ some r → IsAmong r es × All (IsBehind r) es
unfolding latest_of newer
latest_of-IsLatest es r e = (among es e, latest_of-IsBehind none r es e)
  where
    among : (es : List Entry) → latest_of none es ≡ some r → IsAmong r es
    among [] h = cc
    among (x ∷ es) h = latest_of-IsAmong x r es h
