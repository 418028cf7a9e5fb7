-- ===== src/Events.antt =====
-- src/events.ts: the events of a window of time.
pub mod Lines
pub mod Laws
pub mod Samples
mod Tests
use leitstand.Common.{
  concat, ℕ, zero, suc, ◌+◌, Bool, true, false, not, ◌&&◌, String, ◌<>◌, Option, none, some, List,
  [], ◌∷◌, ◌++◌, filter, filter_map, traverse, sort_by, ltb, length, Result, ok, err, ◌>>=◌,
  if◌then◌else◌,
}
use leitstand.Common.Text.{ends, text_before}
use leitstand.Host.{Host, by_message}
use leitstand.Loading.Integrity.{slice}
use leitstand.Events.Lines.{EventLine, parse_event_line}

abbrev pub batch_size : ℕ
batch_size = 8

-- `event.timestamp >= sinceIso && event.timestamp < untilIso`
abbrev pub in_window : String → String → EventLine → Bool
in_window since until e = not (text_before e.timestamp since) && text_before e.timestamp until

-- The loop over the batches, from the index `i` on; as many turns as there are files are enough.
abbrev pub load_batches :
    ℕ
    → (String → Result (List EventLine))
    → List String
    → ℕ
    → List EventLine
    → Result (List EventLine)
load_batches zero load files i events = ok events
load_batches (suc fuel) load files i events = elim (ltb i (length files)) [
  | false ↦ ok events
  | true ↦ traverse load (slice i (i + batch_size) files) >>= λ results.
      load_batches fuel load files (i + batch_size) (events ++ concat results)
]

-- The outer `catch`.
abbrev failure : {A : Type 0} → Result A → Result A
failure (ok a) = ok a
failure (err message) = err ("Failed to load events: " <> message)

module _ (H : Host) where
  -- The events of one file; an error of its stream is thrown. The warning on a bad date is left out.
  unfoldable pub load_file : String → String → String → Result (List EventLine)
  load_file since until path = by_message (H.read_lines path) >>= λ lines.
      ok (filter (in_window since until) (filter_map (parse_event_line H) lines))

  -- `b.timestamp.localeCompare(a.timestamp) <= 0`
  abbrev pub newest_first : EventLine → EventLine → Bool
  newest_first a b = H.locale_le b.timestamp a.timestamp

  -- `since` and `until` are the texts of `toISOString`.
  unfoldable pub load_recent_events : String → String → String → Result (List EventLine)
  unfolding load_file sort_by
  load_recent_events data_dir since until = failure (
      by_message (H.read_dir data_dir) >>= λ files.
      (let jsonl_files = filter (λ f. ends f ".jsonl") files in
        load_batches (length jsonl_files)
          (λ file. load_file since until (H.join (data_dir ∷ file ∷ []))) jsonl_files 0 []
        >>= λ events. ok (sort_by newest_first events)))
