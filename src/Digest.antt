-- ===== src/Digest.antt =====
-- src/digest.ts: the digest of a day, made of the insights, the events and the metrics.
pub mod Laws
pub mod Markdown
mod Tests
use leitstand.Common.{
  ℕ, ◌+◌, Bool, true, false, String, ◌<>◌, Option, none, some, List, [], ◌∷◌, ◌++◌, map, take,
  traverse, Result, ok, ◌>>=◌,
}
use leitstand.Json.{Json, JsonNumber, truthy}
use leitstand.Host.{Host, text_of}
use leitstand.Insights.Items.{Topic}
use leitstand.Insights.Daily.{DailyInsights}
use leitstand.Events.Lines.{EventLine}
use leitstand.Metrics.Repos.{MetricsSnapshot}

-- The kind is taken over from the event as it is.
pub record EventSummary : Type 0 where
  pub timestamp : String
  pub kind : Json
  pub label : String

pub record FleetHealth : Type 0 where
  pub available : Bool
  pub timestamp : Option String
  pub total_repos : ℕ
  pub ok_count : ℕ
  pub warn_count : ℕ
  pub fail_count : ℕ

pub record TopicCount : Type 0 where
  pub topic : String
  pub count : JsonNumber

pub record DailyDigest : Type 0 where
  pub date : String
  pub topics : List TopicCount
  pub questions : List String
  pub deltas : List String
  pub events : List EventSummary
  pub fleet_health : FleetHealth

-- `parts.join(' ')`
abbrev join_words : List String → String
join_words [] = ""
join_words (w ∷ []) = w
join_words (w ∷ v ∷ vs) = w <> " " <> join_words (v ∷ vs)

-- The text of a part, in the brackets of a template or not; a falsy value is no part.
abbrev part : Host → (String → String) → Option Json → Result (List String)
part H around none = ok []
part H around (some v) = text_of H v >>= λ s. ok (around s ∷ [])

-- The template turns the severity to text before `join` does so with the other parts.
unfoldable pub create_event_label : Host → EventLine → Result String
create_event_label H event = do
  severity ← part H (λ s. "[" <> s <> "]") (truthy event.severity)
  kind ← text_of H event.kind
  repo ← part H (λ s. s) (truthy event.repo)
  job ← part H (λ s. s) (truthy event.job)
  ok (join_words (kind ∷ repo ++ job ++ severity))

unfoldable pub summarize_event : Host → EventLine → Result EventSummary
summarize_event H event = create_event_label H event >>= λ label.
    ok (record { timestamp = event.timestamp; kind = event.kind; label = label })

abbrev count_topic : Topic → TopicCount
count_topic t = record { topic = t.name; count = t.frequency }

abbrev topics_of : Option DailyInsights → List TopicCount
topics_of none = []
topics_of (some i) = map count_topic i.topics

abbrev questions_of : Option DailyInsights → List String
questions_of none = []
questions_of (some i) = i.questions

abbrev deltas_of : Option DailyInsights → List String
deltas_of none = []
deltas_of (some i) = i.deltas

abbrev pub fleet_health_of : Option MetricsSnapshot → FleetHealth
fleet_health_of none = record {
  available = false;
  timestamp = none;
  total_repos = 0;
  ok_count = 0;
  warn_count = 0;
  fail_count = 0;
}
fleet_health_of (some m) = record {
  available = true;
  timestamp = some m.timestamp;
  total_repos = m.repo_count;
  ok_count = m.status.ok;
  warn_count = m.status.warn;
  fail_count = m.status.fail;
}

unfoldable pub build_daily_digest :
    Host
    → String
    → Option DailyInsights
    → List EventLine
    → Option MetricsSnapshot
    → ℕ
    → Result DailyDigest
build_daily_digest H date insights events metrics max_events =
    traverse (summarize_event H) (take max_events events) >>= λ summaries. ok (record {
      date = date;
      topics = topics_of insights;
      questions = questions_of insights;
      deltas = deltas_of insights;
      events = summaries;
      fleet_health = fleet_health_of metrics;
    })
