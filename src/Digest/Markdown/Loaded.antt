-- ===== src/Digest/Markdown/Loaded.antt =====
-- The Markdown of a digest whose events and metrics were loaded by the program.
use leitstand.Common.{
  All-filter, ◌≤◌, ℕ, zero, suc, ◌≡◌, refl, subst, sym, ◌∙◌, false, String, ◌==◌, Option, none,
  some, List, [], ◌∷◌, All, All-mono, filter_map, Pointwise, Pointwise-mono, take, traverse,
  traverse-ok_iff, ok, >>=-eq-ok, ok-injective, Bool-cases, Option-cases, false-ne-true,
  Result-cases, inl, inr, arith,
}
use leitstand.Common.Int.{ℤ, pos_part, neg_part}
use leitstand.Common.Text.{trim}
use leitstand.Json.{Json, get, truthy}
use leitstand.Host.{to_ns, Host, by_message}
use leitstand.Insights.Daily.{DailyInsights}
use leitstand.Events.{in_window, load_file, load_recent_events}
use leitstand.Events.Lines.{EventLine, event_of, parse_event_line}
use leitstand.Events.Laws.{load_recent_events-All}
use leitstand.Metrics.Repos.{
  RawMetrics, MetricsSnapshot, objects, names, timestamp_or, snapshot_of_raw,
}
use leitstand.Digest.{
  fleet_health_of, EventSummary, DailyDigest, summarize_event, build_daily_digest,
}
use leitstand.Digest.Laws.{Summarizes, summarize_event-Summarizes}
use leitstand.Digest.Markdown.{render_daily_digest_markdown}
use leitstand.Digest.Markdown.Laws.{
  Gives, IsFormattable, IsUpdatable, render_daily_digest_markdown-Gives_iff,
}

-- The instants that a Date can hold: 100,000,000 days before and after the epoch, in milliseconds.
abbrev pub InRange : ℤ → Type 0
InRange ms = (pos_part ms ≤ 8_640_000_000_000_000) × (neg_part ms ≤ 8_640_000_000_000_000)

-- `toISOString` of an instant in milliseconds.
abbrev pub iso_of : Host → ℤ → String
iso_of H ms = H.to_iso_string (to_ns ms)

-- A valid Date, and the clock, is in this range.
pub record HasDates (H : Host) : Type 0 where
  pub now_in_range : InRange H.now
  pub date_in_range : (value : Json) (ms : ℤ) → H.date_of value ≡ some ms → InRange ms

-- date-fns reads what `toISOString` writes of such an instant, and writes it in the two patterns that
-- the code uses.
abbrev pub ReadsIso : Host → Type 0
ReadsIso H =
    (ms : ℤ)
    → InRange ms
    → IsFormattable H "HH:mm:ss" (iso_of H ms) × IsFormattable H "yyyy-MM-dd HH:mm:ss" (iso_of H ms)

-- The text is what `toISOString` writes of an instant.
abbrev IsIsoText : Host → String → Type 0
IsIsoText H text = (ms : ℤ) × InRange ms × (text ≡ iso_of H ms)

abbrev IsIso : Host → EventLine → Type 0
IsIso H e = IsIsoText H e.timestamp

All-filter_map :
    {A B : Type 0} (P : B → Type 0) (f : A → Option B)
    → ((a : A) (b : B) → f a ≡ some b → P b)
    → (xs : List A) → All P (filter_map f xs)
All-filter_map P f each [] = tt
All-filter_map P f each (x ∷ xs) = elim (Option-cases (f x)) [
  | inl e ↦ rw (e, filter_map) (All-filter_map P f each xs)
  | inr (b, e) ↦ rw (e, filter_map) (each x b e, All-filter_map P f each xs)
]

event_of-IsIso :
    (H : Host) (raw : Json) (timestamp kind : Option Json) (e : EventLine)
    → HasDates H
    → event_of H raw timestamp kind ≡ some e
    → IsIso H e
event_of-IsIso H raw none kind e d h = absurd cc
event_of-IsIso H raw (some t) none e d h = absurd cc
event_of-IsIso H raw (some t) (some k) e d h = elim (Option-cases (H.date_of t)) [
  | inl undated ↦ absurd (ground arith)
  | inr (ms, dated) ↦ (ms, d.date_in_range t ms dated, ground arith)
]

parse_event_line-IsIso :
    (H : Host)
    → HasDates H
    → (line : String) (e : EventLine) → parse_event_line H line ≡ some e
    → IsIso H e
unfolding parse_event_line
parse_event_line-IsIso H d line e h = elim (Bool-cases (trim line == "")) [
  | inl empty ↦ absurd (ground arith)
  | inr text ↦ elim (Result-cases (H.parse_json (trim line))) [
    | inr (m, broken) ↦ absurd (ground arith)
    | inl (raw, parsed) ↦
        event_of-IsIso H raw (truthy (get "timestamp" raw)) (truthy (get "kind" raw)) e d
          (ground arith)
  ]
]

load_file-IsIso :
    (H : Host)
    → HasDates H
    → (since until path : String) (es : List EventLine) → load_file H since until path ≡ ok es
    → All (IsIso H) es
unfolding load_file
load_file-IsIso H d since until path es h =
    let (lines, _, e) = >>=-eq-ok (by_message (H.read_lines path)) _ h in
    subst (All (IsIso H)) (ok-injective e) (
      All-filter (IsIso H) (in_window since until) (filter_map (parse_event_line H) lines)
        (All-filter_map (IsIso H) (parse_event_line H) (parse_event_line-IsIso H d) lines))

All-take : {A : Type 0} (P : A → Type 0) (n : ℕ) (xs : List A) → All P xs → All P (take n xs)
All-take P zero xs h = tt
All-take P (suc n) [] h = tt
All-take P (suc n) (x ∷ xs) (p, h) = (p, All-take P n xs h)

-- What holds of the events holds of the times of their summaries.
summaries-IsIso :
    (H : Host) (es : List EventLine) (ss : List EventSummary)
    → Pointwise (Summarizes H) es ss
    → All (IsIso H) es
    → All (λ s. IsIsoText H s.timestamp) ss
summaries-IsIso H [] [] h k = tt
summaries-IsIso H [] (s ∷ ss) h k = absurd h
summaries-IsIso H (e ∷ es) [] h k = absurd h
summaries-IsIso H (e ∷ es) (s ∷ ss) (same, h) ((ms, range, iso), k) =
    ((ms, range, same.same_time ∙ iso), summaries-IsIso H es ss h k)

timestamp-snapshot_of_raw :
    (now : String) (raw : RawMetrics)
    → (snapshot_of_raw now raw).timestamp ≡ timestamp_or raw.timestamp now
unfolding snapshot_of_raw
timestamp-snapshot_of_raw now raw = elim (Option-cases raw.repos) [
  | inl e ↦ rw e refl
  | inr (objects [], e) ↦ rw e refl
  | inr (objects (r ∷ rs), e) ↦ rw e refl
  | inr (names ns, e) ↦ rw e refl
]

-- The metrics of the file, if there is one, as the program loads them.
abbrev pub metrics_loaded : Host → Option RawMetrics → Option MetricsSnapshot
metrics_loaded H none = none
metrics_loaded H (some raw) = some (snapshot_of_raw (H.to_iso_string (to_ns H.now)) raw)

abbrev pub IsDated : Host → Option RawMetrics → Type 0
IsDated H none = Unit
IsDated H (some raw) =
    (t : String)
    → raw.timestamp ≡ some t
    → (t == "") ≡ false
    → IsFormattable H "yyyy-MM-dd HH:mm:ss" t

timestamp_or-IsFormattable :
    (H : Host) (given : Option String)
    → HasDates H
    → ReadsIso H
    → ((t : String) → given ≡ some t → (t == "") ≡ false → IsFormattable H "yyyy-MM-dd HH:mm:ss" t)
    → IsFormattable H "yyyy-MM-dd HH:mm:ss" (timestamp_or given (H.to_iso_string (to_ns H.now)))
timestamp_or-IsFormattable H none d reads dated = (reads H.now d.now_in_range).1
timestamp_or-IsFormattable H (some t) d reads dated = elim (Bool-cases (t == "")) [
  | inl e ↦ rw e (reads H.now d.now_in_range).1
  | inr e ↦ rw e (dated t refl e)
]

fleet_health_of-IsUpdatable :
    (H : Host) (raw : Option RawMetrics)
    → HasDates H
    → ReadsIso H
    → IsDated H raw
    → IsUpdatable H (fleet_health_of (metrics_loaded H raw))
fleet_health_of-IsUpdatable H none d reads dated there t h filled = absurd (false-ne-true there)
fleet_health_of-IsUpdatable H (some raw) d reads dated there t h filled =
    let now = H.to_iso_string (to_ns H.now) in
    let same : timestamp_or raw.timestamp now ≡ t = sym (timestamp-snapshot_of_raw now raw) ∙ cc in
    subst (IsFormattable H "yyyy-MM-dd HH:mm:ss") same
      (timestamp_or-IsFormattable H raw.timestamp d reads dated)

-- Where each valid Date and the clock are in the range of Date, date-fns reads what `toISOString` writes
-- of an instant in this range and writes it in the two patterns that the code uses, and the time that a
-- metrics file names, if it names one, can be written in the second of them, the digest that is built
-- of the events that were loaded and of that file, if there is one, can be rendered.
pub render_daily_digest_markdown-loaded :
    (H : Host) (dir since until date : String) (es : List EventLine)
    (insights : Option DailyInsights) (raw : Option RawMetrics) (max_events : ℕ) (d : DailyDigest)
    → HasDates H
    → ReadsIso H
    → IsDated H raw
    → load_recent_events H dir since until ≡ ok es
    → build_daily_digest H date insights es (metrics_loaded H raw) max_events ≡ ok d
    → Gives (render_daily_digest_markdown H d)
unfolding build_daily_digest
render_daily_digest_markdown-loaded H dir since until date es insights raw max_events d range reads
      dated loaded h =
    let shown = take max_events es in
    let (summaries, each, h1) = >>=-eq-ok (traverse (summarize_event H) shown) _ h in
    let made =
      Pointwise-mono _ (Summarizes H) (summarize_event-Summarizes H) shown summaries
        ((traverse-ok_iff (summarize_event H) shown summaries).0 each) in
    let iso = All-take (IsIso H) max_events es (
      load_recent_events-All H dir since until (IsIso H) (load_file-IsIso H range since until) es
        loaded) in
    let formattable =
      All-mono (λ s (ms, i, e). subst (IsFormattable H "HH:mm:ss") (sym e) (reads ms i).0) summaries
        (summaries-IsIso H shown summaries made iso) in
    subst (λ x. Gives (render_daily_digest_markdown H x)) (ok-injective h1)
      ((render_daily_digest_markdown-Gives_iff H _).1
        (formattable, fleet_health_of-IsUpdatable H raw range reads dated))
