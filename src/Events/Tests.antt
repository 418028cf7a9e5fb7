-- ===== src/Events/Tests.antt =====
-- Two event files with one event before the window, and the theorem at them.
use leitstand.Common.{◌≡◌, refl, String, List, [], ◌∷◌, map, ok, err, Result, sort_by}
use leitstand.Common.Text.{trim, trim_start, trim_end, ends, ends_codes, same, text_before}
use leitstand.Host.{Host}
use leitstand.Host.Samples.{sorts_before, Returns, value, value-ok}
use leitstand.Events.Lines.{EventLine, parse_event_line}
use leitstand.Events.{load_file, load_recent_events}
use leitstand.Events.Laws.{IsRecent, load_recent_events-IsRecent}
use leitstand.Events.Samples.{host, host-IsOrder}

run : Host → Result (List EventLine)
unfolding load_recent_events load_file parse_event_line sort_by sorts_before text_before ends
    ends_codes same trim trim_start trim_end
run H = load_recent_events H "d" "T2" "T4"

abbrev times : Result (List EventLine) → List String
times (ok es) = map (λ e. e.timestamp) es
times (err m) = []

runs : times (run host) ≡ "T3" ∷ "T2" ∷ []
unfolding run
runs = refl

returned : Returns (load_recent_events host "d" "T2" "T4")
unfolding load_recent_events load_file ends ends_codes same
returned = tt

abbrev loaded : List EventLine
loaded = value (load_recent_events host "d" "T2" "T4") returned

load_recent_events-IsRecent_example :
    IsRecent host "d" "T2" "T4" ("a.jsonl" ∷ "notes.txt" ∷ "b.jsonl" ∷ []) loaded
load_recent_events-IsRecent_example =
    load_recent_events-IsRecent host "d" "T2" "T4" ("a.jsonl" ∷ "notes.txt" ∷ "b.jsonl" ∷ []) loaded
      host-IsOrder refl (value-ok (load_recent_events host "d" "T2" "T4") returned)
