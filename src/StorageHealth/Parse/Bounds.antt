-- ===== src/StorageHealth/Parse/Bounds.antt =====
-- The bounds that an accepted snapshot keeps.
use mathlib.Core.Bool.{false}
use leitstand.Common.{
  ℕ, ◌≤◌, ◌≡◌, subst, sym, true, String, Option, none, some, List, Result, ok, ok-injective,
  require, >>=-eq-ok, require-true, length-traverse_from, length-sort_by, length, arith,
}
use leitstand.Json.{
  Json, JsonNumber, finite, infinite, null, boolean, number, string, array, object, get, as_array,
  list_or_throw,
}
use leitstand.Host.{Host}
use leitstand.StorageHealth.Values.{
  StorageNotification, object_value, string_value, parse_producer, parse_violation, parse_blocker,
  parse_unowned, number_value, integer_within, bounded_integer, bounded_list,
}
use leitstand.StorageHealth.Series.{assert_increasing}
use leitstand.StorageHealth.Truth.{Current}
use leitstand.StorageHealth.Truth.Laws.{total, claims, total-count_truth}
use leitstand.StorageHealth.Current.{
  parse_list, parse_filesystem, parse_temporary, parse_growth, parse_summary, parse_current,
}
use leitstand.StorageHealth.Parse.{
  Parsed, check_daily, Retention, parse_retention, BoundedSeries, series_error, within_retention,
  series_of, parse_series, parse_generated_at, parse_notifications, parsed_snapshot, newest_first,
  parse_snapshot,
}

-- What the page can rely on.
pub record IsBounded (p : Parsed) : Type 0 where
  pub hourly : (p.hourly_count ≤ p.hourly_max) × (p.hourly_max ≤ 744)
  pub daily : (p.daily_count ≤ p.daily_max) × (p.daily_max ≤ 366)
  pub notifications : (length p.notifications ≤ p.notification_max) × (p.notification_max ≤ 512)
  pub producers : length p.current.top_producers ≤ 10
  pub violations : length p.current.budget_violations ≤ 514
  pub blockers : length p.current.cleanup_blockers ≤ 513
  pub unowned : length p.current.unowned_artifacts ≤ 512
  pub truths : total p.truths ≡ claims p.current

integer_within-le :
    (n : JsonNumber) (label : String) (maximum : ℕ) {k : ℕ}
    → integer_within n label maximum ≡ ok k
    → k ≤ maximum
integer_within-le (finite false whole fraction) label maximum h = ground arith
integer_within-le (finite true whole fraction) label maximum h = cc
integer_within-le (infinite negative) label maximum h = cc

bounded_integer-le :
    (v : Option Json) (label : String) (maximum : ℕ) {n : ℕ}
    → bounded_integer v label maximum ≡ ok n
    → n ≤ maximum
unfolding bounded_integer
bounded_integer-le v label maximum h =
    let (n, read, e) = >>=-eq-ok (number_value v label) _ h in integer_within-le n label maximum e

bounded_list-le :
    (v : Option Json) (maximum : ℕ) (message : String) {vs : List Json}
    → bounded_list v maximum message ≡ ok vs
    → length vs ≤ maximum
unfolding bounded_list
bounded_list-le (some (array us)) maximum message h = ground arith
bounded_list-le none maximum message h = cc
bounded_list-le (some null) maximum message h = cc
bounded_list-le (some (boolean b)) maximum message h = cc
bounded_list-le (some (number n)) maximum message h = cc
bounded_list-le (some (string s)) maximum message h = cc
bounded_list-le (some (object ms)) maximum message h = cc

parse_list-le :
    {A : Type 0} (parse : Json → String → Result A) (current : Json) (key name : String)
    (maximum : ℕ) {xs : List A}
    → parse_list parse current key name maximum ≡ ok xs
    → length xs ≤ maximum
parse_list-le parse current key name maximum h =
    let (vs, read, e) = >>=-eq-ok (bounded_list (get key current) maximum _) _ h in
    subst (λ n. n ≤ maximum) (sym (length-traverse_from 0 _ vs e))
      (bounded_list-le _ maximum _ read)

abbrev CurrentBounds : Current → Type 0
CurrentBounds c =
    (length c.top_producers ≤ 10)
    × (length c.budget_violations ≤ 514)
    × (length c.cleanup_blockers ≤ 513)
    × (length c.unowned_artifacts ≤ 512)

parse_current-bounds : (v : Option Json) (c : Current) → parse_current v ≡ ok c → CurrentBounds c
unfolding parse_current
parse_current-bounds v c h =
    let (current, _, h1) = >>=-eq-ok (object_value v "storage health current") _ h in
    let (filesystem, _, h2) =
      >>=-eq-ok (object_value (get "filesystem" current) "current.filesystem") _ h1 in
    let (temporary, _, h3) =
      >>=-eq-ok (object_value (get "temporary" current) "current.temporary") _ h2 in
    let (growth, _, h4) =
      >>=-eq-ok (object_value (get "growth24h" current) "current.growth24h") _ h3 in
    let (summary, _, h5) =
      >>=-eq-ok (object_value (get "summary" current) "current.summary") _ h4 in
    let (producers, p, h6) =
      >>=-eq-ok (parse_list parse_producer current "topProducers" "topProducers" 10) _ h5 in
    let (violations, q, h7) =
      >>=-eq-ok (parse_list parse_violation current "budgetViolations" "budgetViolations" 514) _
        h6 in
    let (blockers, r, h8) =
      >>=-eq-ok (parse_list parse_blocker current "cleanupBlockers" "cleanupBlockers" 513) _ h7 in
    let (unowned, s, h9) =
      >>=-eq-ok (parse_list parse_unowned current "unownedArtifacts" "unownedArtifacts" 512) _ h8 in
    let (observed_at, _, h10) =
      >>=-eq-ok (string_value (get "observedAt" current) "current.observedAt") _ h9 in
    let (f, _, h11) = >>=-eq-ok (parse_filesystem filesystem) _ h10 in
    let (t, _, h12) = >>=-eq-ok (parse_temporary temporary) _ h11 in
    let (g, _, h13) = >>=-eq-ok (parse_growth growth) _ h12 in
    let (u, _, h14) = >>=-eq-ok (parse_summary summary) _ h13 in
    subst CurrentBounds (ok-injective h14) (
      parse_list-le parse_producer current _ _ 10 p,
      parse_list-le parse_violation current _ _ 514 q,
      parse_list-le parse_blocker current _ _ 513 r,
      parse_list-le parse_unowned current _ _ 512 s,
    )

parse_retention-bounds :
    (root : Json) (r : Retention)
    → parse_retention root ≡ ok r
    → (r.hourly_max ≤ 744) × (r.daily_max ≤ 366) × (r.notification_max ≤ 512)
parse_retention-bounds root r h =
    let (v, _, h1) = >>=-eq-ok (object_value (get "retention" root) _) _ h in
    let (a, p, h2) = >>=-eq-ok (bounded_integer (get "hourlyMax" v) _ 744) _ h1 in
    let (b, q, h3) = >>=-eq-ok (bounded_integer (get "dailyMax" v) _ 366) _ h2 in
    let (c, t, h4) = >>=-eq-ok (bounded_integer (get "notificationMax" v) _ 512) _ h3 in
    let hourly = bounded_integer-le (get "hourlyMax" v) _ 744 p in
    let daily = bounded_integer-le (get "dailyMax" v) _ 366 q in
    let notification = bounded_integer-le (get "notificationMax" v) _ 512 t in ground arith

parse_series-within :
    (root : Json) (r : Retention) (s : BoundedSeries)
    → parse_series root r ≡ ok s
    → (within_retention s r ≡ true)
      × (assert_increasing s.hourly "bucket" "hourly series" ≡ ok tt)
      × (assert_increasing s.daily "date" "daily series" ≡ ok tt)
parse_series-within root r s h =
    let (hourly, _, h1) =
      >>=-eq-ok (list_or_throw (as_array (get "hourly" root)) series_error) _ h in
    let (daily, _, h2) =
      >>=-eq-ok (list_or_throw (as_array (get "daily" root)) series_error) _ h1 in
    let (notes, _, h3) =
      >>=-eq-ok (list_or_throw (as_array (get "notifications" root)) series_error) _ h2 in
    let (_, within, h4) =
      >>=-eq-ok (require (within_retention (series_of hourly daily notes) r) _) _ h3 in
    let (_, up, h5) = >>=-eq-ok (assert_increasing hourly "bucket" "hourly series") _ h4 in
    let (_, up', h6) = >>=-eq-ok (assert_increasing daily "date" "daily series") _ h5 in
    let (_, _, h7) = >>=-eq-ok (check_daily 0 daily) _ h6 in
    subst
      (λ (s : BoundedSeries).
        (within_retention s r ≡ true)
        × (assert_increasing s.hourly "bucket" "hourly series" ≡ ok tt)
        × (assert_increasing s.daily "date" "daily series" ≡ ok tt))
      (ok-injective h7)
      (require-true (within_retention (series_of hourly daily notes) r) _ within, up, up')

IsBounded-of_parts :
    (H : Host) (root : Json) (generated_at : String) (r : Retention) (s : BoundedSeries)
    (c : Current) (notes : List StorageNotification)
    → (r.hourly_max ≤ 744) × (r.daily_max ≤ 366) × (r.notification_max ≤ 512)
    → within_retention s r ≡ true
    → CurrentBounds c
    → length notes ≡ length s.raw_notifications
    → IsBounded (parsed_snapshot H root generated_at r s c notes)
unfolding parsed_snapshot
IsBounded-of_parts H root generated_at r s c notes (hm, dm, nm) within (p, v, b, u) same =
    let sorted = length-sort_by (newest_first H) notes in
    record {
      hourly = (ground arith, hm);
      daily = (ground arith, dm);
      notifications = (ground arith, nm);
      producers = p;
      violations = v;
      blockers = b;
      unowned = u;
      truths = total-count_truth c;
    }

-- Whatever the validator accepts is bounded, and every claim in it is counted under one truth.
pub parse_snapshot-IsBounded :
    (H : Host) (raw : Json) (p : Parsed) → parse_snapshot H raw ≡ ok p → IsBounded p
unfolding parse_snapshot
parse_snapshot-IsBounded H raw p h =
    let (root, _, h1) = >>=-eq-ok (object_value (some raw) _) _ h in
    let (generated_at, _, h2) = >>=-eq-ok (parse_generated_at H root) _ h1 in
    let (r, retained, h3) = >>=-eq-ok (parse_retention root) _ h2 in
    let (s, bounded, h4) = >>=-eq-ok (parse_series root r) _ h3 in
    let (c, current, h5) = >>=-eq-ok (parse_current (get "current" root)) _ h4 in
    let (notes, noted, h6) = >>=-eq-ok (parse_notifications H s.raw_notifications) _ h5 in
    let (within, _, _) = parse_series-within root r s bounded in
    subst IsBounded (ok-injective h6) (
      IsBounded-of_parts H root generated_at r s c notes (parse_retention-bounds root r retained)
        within (parse_current-bounds (get "current" root) c current)
        (length-traverse_from 0 _ s.raw_notifications noted))
