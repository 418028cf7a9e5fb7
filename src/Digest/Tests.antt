-- ===== src/Digest/Tests.antt =====
-- Two events of which one is shown, and the theorem at them.
use leitstand.Common.{
  String, ◌⊎◌, inl, inr, Bool-cases, nat_eq, arith, false, ◌≡◌, refl, none, some, List, [], ◌∷◌, ok,
  sort_by,
}
use leitstand.Common.Text.{trim, trim_start, trim_end, ends, ends_codes, same, text_before}
use leitstand.Common.Int.{ℤ, pos, negsuc}
use leitstand.Json.{Json, null, boolean, number, array, object, string}
use leitstand.Host.{to_ns}
use leitstand.Host.Samples.{sorts_before, Returns, value, value-ok}
use leitstand.Events.Lines.{EventLine, parse_event_line}
use leitstand.Events.{load_file, load_recent_events}
use leitstand.Events.Samples.{host, host-IsOrder}
use leitstand.Digest.{DailyDigest, create_event_label, summarize_event, build_daily_digest}
use leitstand.Metrics.Repos.{RawMetrics, names, snapshot_of_raw}
use leitstand.Digest.Markdown.{event_line, event_lines, fleet_lines, render_daily_digest_markdown}
use leitstand.Digest.Markdown.Laws.{Gives, IsFormattable}
use leitstand.Digest.Markdown.Loaded.{
  iso_of, InRange, HasDates, ReadsIso, metrics_loaded, render_daily_digest_markdown-loaded,
}
use leitstand.Digest.Laws.{ShowsNewest, build_daily_digest-ShowsNewest}

returned : Returns (load_recent_events host "d" "T2" "T4")
unfolding load_recent_events load_file ends ends_codes same
returned = tt

abbrev loaded : List EventLine
loaded = value (load_recent_events host "d" "T2" "T4") returned

digested : Returns (build_daily_digest host "today" none loaded none 1)
unfolding build_daily_digest summarize_event create_event_label load_recent_events load_file
    parse_event_line sort_by sorts_before text_before ends ends_codes same trim trim_start trim_end
digested = tt

abbrev digest : DailyDigest
digest = value (build_daily_digest host "today" none loaded none 1) digested

build_daily_digest-ShowsNewest_example : ShowsNewest host 1 loaded digest
build_daily_digest-ShowsNewest_example =
    build_daily_digest-ShowsNewest host "d" "T2" "T4" "today"
      ("a.jsonl" ∷ "notes.txt" ∷ "b.jsonl" ∷ []) loaded none none 1 digest host-IsOrder refl
      (value-ok (load_recent_events host "d" "T2" "T4") returned)
      (value-ok (build_daily_digest host "today" none loaded none 1) digested)

abbrev whole_event : EventLine
whole_event = record {
  timestamp = "T1";
  kind = string "ci.failure";
  repo = some (string "leitstand");
  job = some (string "");
  severity = some (string "high");
  payload = none;
}

-- An empty text is no part of the label.
whole_label : create_event_label host whole_event ≡ ok "ci.failure leitstand [high]"
unfolding create_event_label
whole_label = refl

abbrev metrics_file : RawMetrics
metrics_file = record {
  repo_count = none;
  repos = some (names ("leitstand" ∷ "chronik" ∷ []));
  status = none;
  ok = some 1;
  warn = some 1;
  fail = none;
  timestamp = none;
}

built :
    Returns
      (build_daily_digest host "today" none loaded (metrics_loaded host (some metrics_file)) 5)
unfolding build_daily_digest summarize_event create_event_label load_recent_events load_file
    parse_event_line sort_by sorts_before text_before ends ends_codes same trim trim_start trim_end
    snapshot_of_raw
built = tt

abbrev with_metrics : DailyDigest
with_metrics =
    value (build_daily_digest host "today" none loaded (metrics_loaded host (some metrics_file)) 5)
      built

host-HasDates : HasDates host
host-HasDates = record { now_in_range = (omega arith, omega arith); date_in_range = host_dates }
  where
    host_dates : (value : Json) (ms : ℤ) → host.date_of value ≡ some ms → InRange ms
    host_dates (string s) ms h = ground arith
    host_dates null ms h = absurd cc
    host_dates (boolean b) ms h = absurd cc
    host_dates (number n) ms h = absurd cc
    host_dates (array vs) ms h = absurd cc
    host_dates (object ms') ms h = absurd cc

-- The texts that the clock of the host writes.
abbrev IsKnown : String → Type 0
IsKnown text = (text ≡ "T3") ⊎ ((text ≡ "T2") ⊎ ((text ≡ "T1") ⊎ (text ≡ "T0")))

to_iso_string-IsKnown : (ns : ℤ) → IsKnown (host.to_iso_string ns)
to_iso_string-IsKnown (negsuc n) = inr (inr (inr refl))
to_iso_string-IsKnown (pos n) = elim (Bool-cases (nat_eq n 50_000_000_000_000)) [
  | inl e ↦ inl (rw e refl)
  | inr e ↦ elim (Bool-cases (nat_eq n 48_860_000_000_000)) [
    | inl f ↦ inr (inl (rw (e, f) refl))
    | inr f ↦ inr (inr (inl (rw (e, f) refl)))
  ]
]

known-IsFormattable :
    (text : String)
    → IsKnown text
    → IsFormattable host "HH:mm:ss" text × IsFormattable host "yyyy-MM-dd HH:mm:ss" text
known-IsFormattable text (inl e) = rw e ((_, refl), (_, refl))
known-IsFormattable text (inr (inl e)) = rw e ((_, refl), (_, refl))
known-IsFormattable text (inr (inr (inl e))) = rw e ((_, refl), (_, refl))
known-IsFormattable text (inr (inr (inr e))) = rw e ((_, refl), (_, refl))

host-ReadsIso : ReadsIso host
host-ReadsIso ms range = known-IsFormattable (iso_of host ms) (to_iso_string-IsKnown (to_ns ms))

render_daily_digest_markdown-loaded_example : Gives (render_daily_digest_markdown host with_metrics)
render_daily_digest_markdown-loaded_example =
    render_daily_digest_markdown-loaded host "d" "T2" "T4" "today" loaded none (some metrics_file) 5
      with_metrics host-HasDates host-ReadsIso (λ t h filled. absurd (cc))
      (value-ok (load_recent_events host "d" "T2" "T4") returned)
      (value-ok
        (build_daily_digest host "today" none loaded (metrics_loaded host (some metrics_file)) 5)
        built)

abbrev one_topic : DailyDigest
one_topic = record {
  date = "2026-01-01";
  topics = [];
  questions = "why?" ∷ [];
  deltas = [];
  events =
      record { timestamp = "T1"; kind = string "ci.failure"; label = "ci.failure leitstand" } ∷ [];
  fleet_health = record {
    available = false;
    timestamp = none;
    total_repos = 0;
    ok_count = 0;
    warn_count = 0;
    fail_count = 0;
  };
}

rendered :
    render_daily_digest_markdown host one_topic
    ≡ ok
        "# Heimgewebe Digest – 2026-01-01\n\nGenerated: T3\n\n## Top Topics\n\n_No topics available_\n\n### Questions\n\n- why?\n\n## Key Events (last 24h)\n\n- `13:32:20` ci.failure leitstand\n\n## Fleet Health\n\n_No metrics available_\n"
unfolding render_daily_digest_markdown event_lines event_line fleet_lines
rendered = refl
