-- ===== src/Host/Samples.antt =====
-- A concrete host for tests: a table of files, each with what `JSON.parse` makes of its text, and a
-- table of environment variables. Its clock reads dates that are written as one of a few texts.
use leitstand.Common.{
  ◌≡◌, refl, Bool, String, ◌==◌, ◌<>◌, Option, none, some, not, List, [], ◌∷◌, Result, err,
  if◌then◌else◌, true, false, ok,
}
use leitstand.Common.Int.{ℤ, pos}
use leitstand.Common.Text.{text_before}
use leitstand.Json.{Json, string}
use leitstand.Host.{Host, Fault, FileStat, Attempt, done, failed, error}

abbrev pub lookup {ℓ} : {A : Type ℓ} → String → List (String × A) → Option A
lookup key [] = none
lookup key ((k, v) ∷ rest) = if k == key then some v else lookup key rest

abbrev pub joined : List String → String
joined [] = ""
joined (s ∷ []) = s
joined (s ∷ t ∷ rest) = s <> "/" <> joined (t ∷ rest)

-- Noon is at 50,000,000 ms; the other dates are some minutes before it or after.
abbrev pub dates : List (String × ℤ)
dates =
    ("noon", pos 50_000_000)
    ∷ ("19 before", pos 48_860_000)
    ∷ ("20 before", pos 48_800_000)
    ∷ ("21 before", pos 48_740_000)
    ∷ []

abbrev no_such_file : String → Fault
no_such_file path = record {
  code = "ENOENT";
  message = "ENOENT: no such file or directory, open '" <> path <> "'";
}

-- A file that was last changed at noon.
abbrev sample_stat : FileStat
sample_stat = record {
  is_directory = false;
  is_file = true;
  is_symbolic_link = false;
  size = 1;
  mtime = pos 50_000_000_000_000;
}

abbrev open_file : String → List (String × Result Json) → Attempt String
open_file path files = elim (lookup path files) [
  | none ↦ failed (no_such_file path)
  | some _ ↦ done path
]

abbrev stat_file : String → List (String × Result Json) → Attempt FileStat
stat_file path files = elim (lookup path files) [
  | none ↦ failed (no_such_file path)
  | some _ ↦ done sample_stat
]

abbrev read_date : Json → Option ℤ
read_date (string s) = lookup s dates
read_date _ = none

-- The text of a file is its path, and parses to the value of the table.
unfoldable pub sorts_before : String → String → Bool
unfolding text_before
sorts_before s t = not (text_before t s)

abbrev pub sample_host : List (String × Result Json) → List (String × String) → Host
sample_host files variables = record {
  env = λ name. lookup name variables;
  cwd = "/srv";
  now = pos 50_000_000;
  read_file = λ path. open_file path files;
  stat = λ path. stat_file path files;
  lstat = λ path. stat_file path files;
  parse_json =
      λ text. elim (lookup text files) [ none ↦ err "Unexpected end of JSON input" | some r ↦ r ];
  parse_date = λ text. lookup text dates;
  to_iso_string = λ ns. "some time";
  to_ms = λ ns. ns;
  read_lines = λ path. failed (no_such_file path);
  date_of = λ value. read_date value;
  dirname = λ path. path;
  read_bytes = λ path. failed (no_such_file path);
  decode = λ bytes. "";
  sha256 = λ bytes. "";
  to_number = λ text. none;
  spawn = λ command args. record { earlier = []; ending = error; later = [] };
  to_text = λ value. err "Cannot convert object to primitive value";
  quote = λ text. "\"" <> text <> "\"";
  encode_uri_component = λ text. text;
  format_iso = λ text pattern. ok text;
  read_dir = λ path. failed (no_such_file path);
  locale_le = sorts_before;
  join = joined;
  resolve = λ path. path;
  resolve_from = λ base path. joined (base ∷ path ∷ []);
  relative = λ root path. path;
  basename = λ path. path;
}

-- The value of a run that is known to return one.
module _ {A : Type 0} where
  abbrev pub Returns : Result A → Type 0
  Returns (ok a) = Unit
  Returns (err m) = ⊥

  abbrev pub value : (r : Result A) → Returns r → A
  value (ok a) h = a
  value (err m) h = absurd h

  pub value-ok : (r : Result A) (h : Returns r) → r ≡ ok (value r h)
  value-ok (ok a) h = refl
  value-ok (err m) h = absurd h
