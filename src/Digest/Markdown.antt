-- ===== src/Digest/Markdown.antt =====
-- src/renderMarkdown.ts: the digest as Markdown, as the lines that the code pushes.
pub mod Laws
pub mod Loaded
use leitstand.Common.{
  Bool, true, false, String, ◌==◌, ◌<>◌, Option, none, some, List, [], ◌∷◌, ◌++◌, map, traverse,
  Result, ok, ◌>>=◌, if◌then◌else◌,
}
use leitstand.Common.Text.{print}
use leitstand.Host.{to_ns, Host, number_text}
use leitstand.Digest.{EventSummary, FleetHealth, TopicCount, DailyDigest}

-- `lines.join('\n')`
abbrev join_lines : List String → String
join_lines [] = ""
join_lines (l ∷ []) = l
join_lines (l ∷ k ∷ ks) = l <> "\n" <> join_lines (k ∷ ks)

abbrev header_lines : Host → DailyDigest → List String
header_lines H d =
    ("# Heimgewebe Digest – " <> d.date)
    ∷ ""
    ∷ ("Generated: " <> H.to_iso_string (to_ns H.now))
    ∷ ""
    ∷ []

abbrev topic_line : Host → TopicCount → String
topic_line H t = "- **" <> t.topic <> "** (" <> number_text H t.count <> ")"

abbrev topic_lines : Host → List TopicCount → List String
topic_lines H [] = "## Top Topics" ∷ "" ∷ "_No topics available_" ∷ "" ∷ []
topic_lines H (t ∷ ts) = "## Top Topics" ∷ "" ∷ map (topic_line H) (t ∷ ts) ++ "" ∷ []

-- A section that is left out if it has no items.
abbrev item_lines : String → List String → List String
item_lines title [] = []
item_lines title (i ∷ is) = title ∷ "" ∷ map (λ s. "- " <> s) (i ∷ is) ++ "" ∷ []

unfoldable pub event_line : Host → EventSummary → Result String
event_line H event =
    H.format_iso event.timestamp "HH:mm:ss" >>= λ time. ok ("- `" <> time <> "` " <> event.label)

unfoldable pub event_lines : Host → List EventSummary → Result (List String)
event_lines H [] = ok ("## Key Events (last 24h)" ∷ "" ∷ "_No events recorded_" ∷ "" ∷ [])
event_lines H (e ∷ es) = traverse (event_line H) (e ∷ es) >>= λ lines.
    ok ("## Key Events (last 24h)" ∷ "" ∷ lines ++ "" ∷ [])

-- `timestamp ? format(parseISO(timestamp), …) : 'unknown'`
unfoldable pub last_update : Host → Option String → Result String
last_update H none = ok "unknown"
last_update H (some timestamp) =
    if timestamp == "" then ok "unknown" else H.format_iso timestamp "yyyy-MM-dd HH:mm:ss"

abbrev available_lines : FleetHealth → String → List String
available_lines fleet updated =
    ("**Total Repositories:** " <> print fleet.total_repos)
    ∷ ""
    ∷ "**Status Breakdown:**"
    ∷ ("- ✅ OK: " <> print fleet.ok_count)
    ∷ ("- ⚠\u{fe0f}  Warning: " <> print fleet.warn_count)
    ∷ ("- ❌ Failed: " <> print fleet.fail_count)
    ∷ ""
    ∷ ("_Last updated: " <> updated <> "_")
    ∷ []

unfoldable pub fleet_lines : Host → FleetHealth → Result (List String)
fleet_lines H fleet = elim fleet.available [
  | true ↦ last_update H fleet.timestamp >>= λ updated.
      ok ("## Fleet Health" ∷ "" ∷ available_lines fleet updated ++ "" ∷ [])
  | false ↦ ok ("## Fleet Health" ∷ "" ∷ "_No metrics available_" ∷ "" ∷ [])
]

abbrev pub document : Host → DailyDigest → List String → List String → String
document H d events fleet = join_lines (
    header_lines H d
    ++ topic_lines H d.topics
    ++ item_lines "### Questions" d.questions
    ++ item_lines "### Changes Detected" d.deltas
    ++ events
    ++ fleet)

unfoldable pub render_daily_digest_markdown : Host → DailyDigest → Result String
render_daily_digest_markdown H d = event_lines H d.events >>= λ events.
    fleet_lines H d.fleet_health >>= λ fleet. ok (document H d events fleet)
