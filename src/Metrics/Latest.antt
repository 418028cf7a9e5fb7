-- ===== src/Metrics/Latest.antt =====
-- `loadLatestMetrics`: which file is taken for the latest.
pub mod Laws
use leitstand.Common.{
  ℕ, zero, suc, ◌+◌, Bool, true, false, not, ◌&&◌, ◌||◌, String, ◌==◌, Option, none, some, List, [],
  ◌∷◌, map, filter, filter_map, sort_by, all, length, nat_eq, leb, take, if◌then◌else◌,
}
use leitstand.Common.Int.{ℤ, leb_ℤ}
use leitstand.Common.Text.{codes, skip, begin, ends, text_before}
use leitstand.Host.{Host, Attempt, done, failed, Fault}

pub record Entry : Type 0 where
  pub file : String
  -- `mtime.getTime()`
  pub time : ℤ

-- `/^\d{4}-\d{2}-\d{2}\.json$/`, character by character; `date` is what stands before the last five.
abbrev pub is_digit : ℕ → Bool
is_digit c = leb b'0' c && leb c b'9'

abbrev fits : List ℕ → List ℕ → Bool
fits [] [] = true
fits (p ∷ ps) (c ∷ cs) = (if nat_eq p b'd' then is_digit c else nat_eq c p) && fits ps cs
fits _ _ = false

-- A `d` of the pattern stands for a digit; the rest of the name is `.json`.
abbrev pub is_dated : String → Bool
is_dated file = fits (codes "dddd-dd-dd") (take 10 (codes file)) && skip 10 file == ".json"

-- The step of the loop over the entries: a later entry, or one of the same time whose name is later.
abbrev pub is_same_time : ℤ → ℤ → Bool
is_same_time a b = leb_ℤ a b && leb_ℤ b a

unfoldable pub newer : Option Entry → Entry → Entry
newer none entry = entry
newer (some latest) entry =
    if not (leb_ℤ entry.time latest.time)
    then entry
    else if is_same_time entry.time latest.time && text_before latest.file entry.file
    then entry
    else latest

unfoldable pub latest_of : Option Entry → List Entry → Option Entry
latest_of latest [] = latest
latest_of latest (entry ∷ entries) = latest_of (some (newer latest entry)) entries

-- What is chosen: a file, none, or an error of the file system.
pub data Choice : Type 0 where
  chosen : (file : String) → Choice
  nothing : Choice
  error : Fault → Choice

abbrev choice_of : Option Entry → Choice
choice_of none = nothing
choice_of (some entry) = chosen entry.file

module _ (H : Host) where
  -- The `stat`s of all candidates; one that fails ends the choice, here the first of the list where
  -- `Promise.all` gives the first in time.
  unfoldable pub stat_all : String → List String → Attempt (List Entry)
  stat_all dir [] = done []
  stat_all dir (file ∷ files) =
      let later = stat_all dir files in
      elim (H.stat (H.join (dir ∷ file ∷ []))) [
        | failed fault ↦ failed fault
        | done s ↦ elim later [
          | failed fault ↦ failed fault
          | done entries ↦ done (record { file = file; time = H.to_ms s.mtime } ∷ entries)
        ]
      ]

  -- `b.date.localeCompare(a.date) <= 0`
  abbrev newest_date : String → String → Bool
  newest_date a b = H.locale_le b a

  abbrev first_or : List String → Choice → Choice
  first_or [] other = other
  first_or (file ∷ files) other = chosen file

  abbrev not_found_or : Fault → Choice
  not_found_or fault = if fault.code == "ENOENT" then nothing else error fault

  abbrev by_time : String → List String → Choice
  by_time dir files = elim (stat_all dir files) [
    | failed fault ↦ not_found_or fault
    | done entries ↦ choice_of (latest_of none entries)
  ]

  -- The dates have one length and are followed by `.json`, so they stand for their files in the sort.
  unfoldable pub choose_latest : String → Choice
  unfolding sort_by stat_all latest_of
  choose_latest dir = elim (H.read_dir dir) [
    | failed fault ↦ not_found_or fault
    | done files ↦
        let json = filter (λ f. ends f ".json") files in
        first_or (sort_by (λ a b. newest_date (begin 10 a) (begin 10 b)) (filter is_dated json))
          (by_time dir json)
  ]
