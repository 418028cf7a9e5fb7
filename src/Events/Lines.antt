-- ===== src/Events/Lines.antt =====
-- `parseEventLine`.
use leitstand.Common.{String, ◌==◌, Option, none, some, ok, err, if◌then◌else◌}
use leitstand.Common.Text.{trim}
use leitstand.Json.{Json, get, truthy}
use leitstand.Host.{to_ns, Host}

-- The values are taken over as they are, whatever their types.
pub record EventLine : Type 0 where
  pub timestamp : String
  pub kind : Json
  pub repo : Option Json
  pub job : Option Json
  pub severity : Option Json
  pub payload : Option Json

-- Without a time or a kind, or with a time that is no date, there is no event.
abbrev pub event_of : Host → Json → Option Json → Option Json → Option EventLine
event_of H raw (some timestamp) (some kind) = elim (H.date_of timestamp) [
  | none ↦ none
  | some ms ↦ some (record {
    timestamp = H.to_iso_string (to_ns ms);
    kind = kind;
    repo = get "repo" raw;
    job = get "job" raw;
    severity = get "severity" raw;
    payload = get "payload" raw;
  })
]
event_of H raw _ _ = none

-- A line that is empty or no JSON is skipped; so is one that holds `null`, on which the read throws.
unfoldable pub parse_event_line : Host → String → Option EventLine
parse_event_line H line =
    let trimmed = trim line in
    if trimmed == "" then none else elim (H.parse_json trimmed) [
      | err message ↦ none
      | ok raw ↦ event_of H raw (truthy (get "timestamp" raw)) (truthy (get "kind" raw))
    ]
