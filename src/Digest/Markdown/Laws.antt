-- ===== src/Digest/Markdown/Laws.antt =====
-- When the Markdown of a digest can be written.
use leitstand.Common.{
  ◌≡◌, ◌↔◌, refl, true, false, String, ◌==◌, Option, none, some, List, [], ◌∷◌, All, All-mono,
  traverse, Result, ok, ◌>>=◌, ◌<>◌, ◌++◌, >>=-eq-ok, Bool-cases, inl, inr, arith,
}
use leitstand.Host.{Host}
use leitstand.Digest.{EventSummary, FleetHealth, DailyDigest}
use leitstand.Digest.Markdown.{
  document, available_lines, event_line, event_lines, last_update, fleet_lines,
  render_daily_digest_markdown,
}

abbrev pub Gives : {A : Type 0} → Result A → Type 0
Gives {A} r = (a : A) × (r ≡ ok a)

-- The text is a date that can be written in the pattern.
abbrev pub IsFormattable : Host → String → String → Type 0
IsFormattable H pattern text = Gives (H.format_iso text pattern)

-- Where the metrics are there and have a time, it can be written.
abbrev pub IsUpdatable : Host → FleetHealth → Type 0
IsUpdatable H fleet =
    fleet.available ≡ true
    → (t : String) → fleet.timestamp ≡ some t
    → (t == "") ≡ false
    → IsFormattable H "yyyy-MM-dd HH:mm:ss" t

traverse-Gives_iff :
    {A B : Type 0} (f : A → Result B) (xs : List A)
    → Gives (traverse f xs) ↔ All (λ x. Gives (f x)) xs
traverse-Gives_iff f [] = ((λ _. tt), (λ _. ([], refl)))
traverse-Gives_iff f (x ∷ xs) = (
  λ (ys, h).
      let (y, here, h1) = >>=-eq-ok (f x) _ h in
      let (rest, later, h2) = >>=-eq-ok (traverse f xs) _ h1 in
      ((y, here), (traverse-Gives_iff f xs).0 (rest, later)),
  λ ((y, here), later).
      let (rest, e) = (traverse-Gives_iff f xs).1 later in (y ∷ rest, rw (here, e) refl),
)

>>=-Gives_iff : {A B : Type 0} (r : Result A) (f : A → B) → Gives (r >>= (λ a. ok (f a))) ↔ Gives r
>>=-Gives_iff r f =
    (λ (b, h). let (a, e, h1) = >>=-eq-ok r _ h in (a, e), λ (a, e). (f a, rw e refl))

event_lines-Gives_iff :
    (H : Host) (es : List EventSummary)
    → Gives (event_lines H es) ↔ All (λ e. IsFormattable H "HH:mm:ss" e.timestamp) es
unfolding event_lines event_line
event_lines-Gives_iff H [] = ((λ _. tt), (λ _. (_, refl)))
event_lines-Gives_iff H (e ∷ es) =
    let written = traverse-Gives_iff (event_line H) (e ∷ es) in
    let whole =
      >>=-Gives_iff (traverse (event_line H) (e ∷ es))
        (λ lines. "## Key Events (last 24h)" ∷ "" ∷ lines ++ "" ∷ []) in
    (
      λ given.
          All-mono
            (λ s k.
              (>>=-Gives_iff (H.format_iso s.timestamp "HH:mm:ss")
                  (λ time. "- `" <> time <> "` " <> s.label)).0
                k)
            (e ∷ es) (written.0 (whole.0 given)),
      λ dated. whole.1 (
          written.1 (
            All-mono
              (λ s k.
                (>>=-Gives_iff (H.format_iso s.timestamp "HH:mm:ss")
                    (λ time. "- `" <> time <> "` " <> s.label)).1
                  k)
              (e ∷ es) dated)),
    )

last_update-Gives_iff :
    (H : Host) (timestamp : Option String)
    → Gives (last_update H timestamp) ↔ (
        (t : String)
        → timestamp ≡ some t
        → (t == "") ≡ false
        → IsFormattable H "yyyy-MM-dd HH:mm:ss" t)
unfolding last_update
last_update-Gives_iff H none = ((λ _ t h. absurd cc), (λ _. (_, refl)))
last_update-Gives_iff H (some t) = elim (Bool-cases (t == "")) [
  | inl e ↦ ((λ given u h dated. absurd (ground arith)), (λ _. ("unknown", rw e refl)))
  | inr e ↦ ((λ (a, k) u h dated. (a, ground arith)), (λ dated. rw e (dated t refl e)))
]

fleet_lines-Gives_iff :
    (H : Host) (fleet : FleetHealth) → Gives (fleet_lines H fleet) ↔ IsUpdatable H fleet
unfolding fleet_lines
fleet_lines-Gives_iff H fleet = elim (Bool-cases fleet.available) [
  | inr e ↦ (
    (λ given there. absurd (ground arith)),
    (λ _. ("## Fleet Health" ∷ "" ∷ "_No metrics available_" ∷ "" ∷ [], rw e refl)),
  )
  | inl e ↦
      let updated = last_update-Gives_iff H fleet.timestamp in
      let whole =
        >>=-Gives_iff (last_update H fleet.timestamp)
          (λ u. "## Fleet Health" ∷ "" ∷ available_lines fleet u ++ "" ∷ []) in
      rw e ((λ given there. updated.0 (whole.0 given)), (λ h. whole.1 (updated.1 (h refl))))
]

-- A digest can be rendered exactly if the times of its events and of its metrics are dates.
pub render_daily_digest_markdown-Gives_iff :
    (H : Host) (d : DailyDigest)
    → Gives (render_daily_digest_markdown H d)
      ↔ (All (λ e. IsFormattable H "HH:mm:ss" e.timestamp) d.events × IsUpdatable H d.fleet_health)
unfolding render_daily_digest_markdown
render_daily_digest_markdown-Gives_iff H d = (
  λ (text, h).
      let (events, e, h1) = >>=-eq-ok (event_lines H d.events) _ h in
      let (fleet, k, h2) = >>=-eq-ok (fleet_lines H d.fleet_health) _ h1 in
      (
        (event_lines-Gives_iff H d.events).0 (events, e),
        (fleet_lines-Gives_iff H d.fleet_health).0 (fleet, k),
      ),
  λ (dated, updatable).
      let (events, e) = (event_lines-Gives_iff H d.events).1 dated in
      let (fleet, k) = (fleet_lines-Gives_iff H d.fleet_health).1 updatable in
      (document H d events fleet, rw (e, k) refl),
)
