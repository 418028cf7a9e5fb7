-- ===== src/Host.antt =====
-- What the program takes from Node and the operating system: the environment, the files, the clock,
-- `node:path`, and the two parsers whose outcome the language leaves to the implementation (the
-- texts of `JSON.parse`'s errors, and `Date.parse` on text in other than the ISO format). One value
-- stands for one request: the files and the clock do not change while it is served.
pub mod Samples
use leitstand.Common.{
  ◌+◌, ◌*◌, ◌-◌, ◌≡◌, refl, ◌⊎◌, inl, inr, ℕ, Bool, String, List, Option, Result, ok, err,
}
use leitstand.Common.Int.{ℤ, pos, negsuc}
use leitstand.Json.{Json, JsonNumber, string, number}

-- An error of the file system: `error.code` and `error.message`.
pub record Fault : Type 0 where
  pub code : String
  pub message : String

-- A call of the file system: what it gives, or the error that it throws.
pub data Attempt (A : Type 0) : Type 0 where
  done : A → Attempt A
  failed : Fault → Attempt A

pub Attempt-cases :
    {A : Type 0} (r : Attempt A) → ((a : A) × (r ≡ done a)) ⊎ ((f : Fault) × (r ≡ failed f))
Attempt-cases (done a) = inl (a, refl)
Attempt-cases (failed f) = inr (f, refl)

-- The error as the controllers see it that look at its message alone.
abbrev pub by_message : {A : Type 0} → Attempt A → Result A
by_message (done a) = ok a
by_message (failed fault) = err fault.message

-- `stat` and `lstat`: the time of the last change is in nanoseconds since the epoch.
pub record FileStat : Type 0 where
  pub is_directory : Bool
  pub is_file : Bool
  pub is_symbolic_link : Bool
  pub size : ℕ
  pub mtime : ℤ

-- What Node reports of a child process, and the timer that the caller has set beside it.
pub data Activity : Type 0 where
  stdout_data stderr_data : List ℕ → Activity
  timer : Activity

-- `error` if it could not be started, `close` with its exit code (`none` after a signal).
pub data Ending : Type 0 where
  error : Ending
  close : Option ℕ → Ending

pub data ChildEvent : Type 0 where
  active : Activity → ChildEvent
  ended : Ending → ChildEvent

-- Node documents that a child ends: `ending` is the first of its ends, `later` what is reported
-- after it.
pub record Child : Type 0 where
  pub earlier : List Activity
  pub ending : Ending
  pub later : List ChildEvent

pub record Host : Type 0 where
  -- `process.env[name]`, `none` if the variable is not set.
  pub env : String → Option String
  -- `process.cwd()`
  pub cwd : String
  -- `Date.now()`, in milliseconds since the epoch.
  pub now : ℤ
  -- `readFile(path, 'utf-8')`, `stat(path)` and `lstat(path)`.
  pub read_file : String → Attempt String
  pub stat : String → Attempt FileStat
  pub lstat : String → Attempt FileStat
  -- The lines of a file, as `readline` gives them with `crlfDelay: Infinity`.
  pub read_lines : String → Attempt (List String)
  -- `new Date(value).getTime()`, `none` if it is `NaN`.
  pub date_of : Json → Option ℤ
  -- `readdir(path)`
  pub read_dir : String → Attempt (List String)
  -- `JSON.parse(text)`; an error is the message of the `SyntaxError`.
  pub parse_json : String → Result Json
  -- `Date.parse(text)`, `none` if it is `NaN`.
  pub parse_date : String → Option ℤ
  -- `stat().mtime.getTime()`: whole milliseconds.
  pub to_ms : ℤ → ℤ
  -- `new Date(ns / 1e6).toISOString()`, which is read in the range of Date only: beyond it, the call
  -- throws, and what this gives stands for nothing.
  pub to_iso_string : ℤ → String
  -- `a.localeCompare(b) <= 0`
  pub locale_le : String → String → Bool
  -- `node:path`
  pub join : List String → String
  pub resolve : String → String
  pub resolve_from : String → String → String
  pub relative : String → String → String
  pub basename : String → String
  pub dirname : String → String
  -- `readFile(path)`: the bytes of a file; `bytes.toString('utf-8')`; the SHA-256 of bytes, in hex.
  pub read_bytes : String → Attempt (List ℕ)
  pub decode : List ℕ → String
  pub sha256 : List ℕ → String
  -- `Number(text)`, `none` if it is `NaN`.
  pub to_number : String → Option JsonNumber
  -- `spawn(command, args)`
  pub spawn : String → List String → Child
  -- `String(value)` of a value that is not text; it throws for an object with a `toString` of its own.
  pub to_text : Json → Result String
  -- `JSON.stringify(text)` and `encodeURIComponent(text)`
  pub quote : String → String
  pub encode_uri_component : String → String
  -- `format(parseISO(text), pattern)` of date-fns, which throws for text that is no date.
  pub format_iso : String → String → Result String

-- `String(value)`
abbrev pub text_of : Host → Json → Result String
text_of H (string s) = ok s
text_of H v = H.to_text v

-- `String(n)`, which does not throw for a number.
abbrev pub number_text : Host → JsonNumber → String
number_text H n = elim (H.to_text (number n)) [ ok s ↦ s | err m ↦ "" ]

-- An instant of `Date`, in milliseconds, on the nanoseconds of the file system.
abbrev pub to_ns : ℤ → ℤ
to_ns (pos ms) = pos (ms * 1_000_000)
to_ns (negsuc n) = negsuc ((n + 1) * 1_000_000 - 1)
