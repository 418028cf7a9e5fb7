-- ===== src/Events/Samples.antt =====
-- A directory with two event files, which hold one event before the window and two in it.
use leitstand.Common.{
  nat_eq, String, [], ◌∷◌, ok, err, Result, ◌>>=◌, ◌<>◌, IsOrder, arith, ◌==◌, if◌then◌else◌,
}
use leitstand.Common.Int.{pos}
use leitstand.Common.TextOrder.{text_before_asym, text_not_before_trans}
use leitstand.Json.{Json, string, object, end, member}
use leitstand.Host.{Host, done}
use leitstand.Host.Samples.{sample_host, sorts_before}

abbrev event : String → Json
event date = object (member "timestamp" (string date) (member "kind" (string "deploy") end))

-- The times of day of the instants that the host knows; other texts are no dates.
abbrev time_of : String → Result String
time_of text =
    if text == "T3"
    then ok "13:53:20"
    else if text == "T2"
    then ok "13:34:20"
    else if text == "T1"
    then ok "13:32:20"
    else if text == "T0"
    then ok "00:00:00"
    else err "Invalid time value"

abbrev format_time : String → String → Result String
format_time text pattern =
    if pattern == "HH:mm:ss"
    then time_of text
    else if pattern == "yyyy-MM-dd HH:mm:ss"
    then time_of text >>= (λ time. ok ("1970-01-01 " <> time))
    else err "Format string contains an unescaped latin alphabet character"

abbrev pub host : Host
host =
    let sample =
      sample_host
        (("l1", ok (event "19 before"))
          ∷ ("l2", ok (event "21 before"))
          ∷ ("l3", ok (event "noon"))
          ∷ [])
        [] in
    record sample {
      read_dir = λ dir. done ("a.jsonl" ∷ "notes.txt" ∷ "b.jsonl" ∷ []);
      read_lines = λ path.
          if path == "d/a.jsonl" then done ("l1" ∷ "l2" ∷ "" ∷ []) else done ("l3" ∷ "broken" ∷ []);
      to_iso_string = λ ns. elim ns [
        | pos n ↦
            if nat_eq n 50_000_000_000_000
            then "T3"
            else if nat_eq n 48_860_000_000_000
            then "T2"
            else "T1"
        | _ ↦ "T0"
      ];
      format_iso = format_time;
    }

pub host-IsOrder : IsOrder host.locale_le
unfolding sorts_before
host-IsOrder = record {
  total = λ a b h. ground (arith, text_before_asym a b, text_before_asym b a);
  trans = λ a b c h k. ground (arith, text_not_before_trans a b c);
}
