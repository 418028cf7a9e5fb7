-- ===== src/Digest/Laws.antt =====
-- What a digest shows of the events that were loaded.
use leitstand.Common.{
  ℕ, zero, suc, ◌≤◌, ◌≡◌, ◌≢◌, refl, subst, sym, ap, ◌∙◌, true, String, Option, List, [], ◌∷◌, ◌++◌,
  Bool, All, Pointwise, Pointwise-mono, length, length-Pointwise, length-take_le, take, traverse,
  traverse-ok_iff, IsSortedBy, IsOrder, ok, >>=-eq-ok, ok-injective,
}
use leitstand.Host.{Host, done}
use leitstand.Loading.Integrity.{drop}
use leitstand.Insights.Daily.{DailyInsights}
use leitstand.Events.{load_recent_events, newest_first}
use leitstand.Events.Lines.{EventLine}
use leitstand.Events.Laws.{load_recent_events-IsRecent}
use leitstand.Metrics.Repos.{MetricsSnapshot}
use leitstand.Digest.{
  EventSummary, DailyDigest, create_event_label, summarize_event, build_daily_digest,
}

-- The summary is of the event.
pub record Summarizes (H : Host) (e : EventLine) (s : EventSummary) : Type 0 where
  pub same_time : s.timestamp ≡ e.timestamp
  pub same_kind : s.kind ≡ e.kind
  pub labelled : create_event_label H e ≡ ok s.label

pub record ShowsNewest (H : Host) (max_events : ℕ) (es : List EventLine) (d : DailyDigest)
    : Type 0 where
  pub shown : List EventLine
  pub left_out : List EventLine
  pub split : es ≡ shown ++ left_out
  pub summarized : Pointwise (Summarizes H) shown d.events
  pub bounded : length d.events ≤ max_events
  pub full : left_out ≢ [] → length d.events ≡ max_events
  pub newest : All (λ s. All (λ l. H.locale_le l.timestamp s.timestamp ≡ true) left_out) shown

take-++-drop : {A : Type 0} (n : ℕ) (xs : List A) → xs ≡ take n xs ++ drop n xs
take-++-drop zero xs = refl
take-++-drop (suc n) [] = refl
take-++-drop (suc n) (x ∷ xs) = ap (λ ys. x ∷ ys) (take-++-drop n xs)

length-take_full : {A : Type 0} (n : ℕ) (xs : List A) → drop n xs ≢ [] → length (take n xs) ≡ n
length-take_full zero xs h = refl
length-take_full (suc n) [] h = absurd (h refl)
length-take_full (suc n) (x ∷ xs) h = ap suc (length-take_full n xs h)

All-drop : {A : Type 0} (P : A → Type 0) (n : ℕ) (xs : List A) → All P xs → All P (drop n xs)
All-drop P zero xs h = h
All-drop P (suc n) [] h = tt
All-drop P (suc n) (x ∷ xs) (p, h) = All-drop P n xs h

-- In a sorted list, what is taken goes before what is dropped.
take-IsBefore :
    {A : Type 0} (le : A → A → Bool) (n : ℕ) (xs : List A)
    → IsSortedBy le xs
    → All (λ s. All (λ l. le s l ≡ true) (drop n xs)) (take n xs)
take-IsBefore le zero xs h = tt
take-IsBefore le (suc n) [] h = tt
take-IsBefore le (suc n) (x ∷ xs) (p, h) =
    (All-drop (λ l. le x l ≡ true) n xs p, take-IsBefore le n xs h)

pub summarize_event-Summarizes :
    (H : Host) (e : EventLine) (s : EventSummary) → summarize_event H e ≡ ok s → Summarizes H e s
unfolding summarize_event
summarize_event-Summarizes H e s h =
    let (label, labelled, h1) = >>=-eq-ok (create_event_label H e) _ h in
    subst (Summarizes H e) (ok-injective h1)
      (record { same_time = refl; same_kind = refl; labelled = labelled })

-- Where `localeCompare` is an order, a digest that is built of the events that were loaded shows the
-- first of them, each with its time, its kind and its label: all of them, or as many as are allowed,
-- and then none that is left out is later than one that is shown.
pub build_daily_digest-ShowsNewest :
    (H : Host) (dir since until date : String) (files : List String) (es : List EventLine)
    (insights : Option DailyInsights) (metrics : Option MetricsSnapshot) (max_events : ℕ)
    (d : DailyDigest)
    → IsOrder H.locale_le
    → H.read_dir dir ≡ done files
    → load_recent_events H dir since until ≡ ok es
    → build_daily_digest H date insights es metrics max_events ≡ ok d
    → ShowsNewest H max_events es d
unfolding build_daily_digest
build_daily_digest-ShowsNewest H dir since until date files es insights metrics max_events d o
      listed loaded h =
    let recent = load_recent_events-IsRecent H dir since until files es o listed loaded in
    let shown = take max_events es in
    let (summaries, each, h1) = >>=-eq-ok (traverse (summarize_event H) shown) _ h in
    let made = (traverse-ok_iff (summarize_event H) shown summaries).0 each in
    let same_length = length-Pointwise _ shown summaries made in
    subst (ShowsNewest H max_events es) (ok-injective h1) (record {
      shown = shown;
      left_out = drop max_events es;
      split = take-++-drop max_events es;
      summarized =
          Pointwise-mono _ (Summarizes H) (summarize_event-Summarizes H) shown summaries made;
      bounded = subst (λ n. n ≤ max_events) same_length (length-take_le max_events es);
      full = λ more. sym same_length ∙ length-take_full max_events es more;
      newest = take-IsBefore (newest_first H) max_events es recent.newest;
    })
