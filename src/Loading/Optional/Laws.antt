-- ===== src/Loading/Optional/Laws.antt =====
-- What the optional load returns: the first file that can be read, or the worst of the errors.
use leitstand.Common.{
  ℕ, ◌≡◌, refl, ap, true, false, String, Option, none, some, List, [], ◌∷◌, leb, arith,
  if◌then◌else◌, inl, inr,
}
use leitstand.Host.{Host}
use leitstand.Loading.Files.{
  read, unread, read_json_file, ErrorClass, not_found, empty, corrupt, other, class_of, LoadSource,
  missing, LoadResult, load_result,
}
use leitstand.Loading.Fallback.Laws.{ReadOutcome-cases}
use leitstand.Loading.Optional.{
  Seen, nothing_seen, note_class, reason_of, OptionalOptions, candidates, try_candidates,
  load_optional,
}

-- How bad an error is.
abbrev pub severity : ErrorClass → ℕ
severity not_found = 0
severity empty = 1
severity corrupt = 2
severity other = 3

abbrev pub class_name : ErrorClass → String
class_name not_found = "enoent"
class_name empty = "empty"
class_name corrupt = "invalid-json"
class_name other = "error"

abbrev pub worse : ErrorClass → ErrorClass → ErrorClass
worse a b = if leb (severity a) (severity b) then b else a

-- The specification: the first candidate that can be read; else the worst of the errors, starting from
-- the one given.
abbrev pub first_readable : Host → ErrorClass → List (String × LoadSource) → LoadResult
first_readable H worst [] = load_result none missing (class_name worst)
first_readable H worst ((path, source) ∷ rest) = elim (read_json_file H path) [
  | read value ↦ load_result (some value) source "ok"
  | unread e ↦ first_readable H (worse worst (class_of e)) rest
]

-- The flags after errors of which `worst` is the worst.
abbrev Tracks : Seen → ErrorClass → Type 0
Tracks s not_found =
    (s.had_other_error ≡ false)
    × (s.had_corruption ≡ false)
    × (s.had_empty ≡ false)
    × (s.had_error ≡ s.had_enoent)
Tracks s empty = (s.had_other_error ≡ false) × (s.had_corruption ≡ false) × (s.had_empty ≡ true)
Tracks s corrupt = (s.had_other_error ≡ false) × (s.had_corruption ≡ true)
Tracks s other = s.had_other_error ≡ true

Tracks-reason : (s : Seen) (worst : ErrorClass) → Tracks s worst → reason_of s ≡ class_name worst
Tracks-reason s not_found h = ground arith
Tracks-reason s empty h = ground arith
Tracks-reason s corrupt h = ground arith
Tracks-reason s other h = ground arith

Tracks-note_class :
    (s : Seen) (worst c : ErrorClass) → Tracks s worst → Tracks (note_class c s) (worse worst c)
Tracks-note_class s not_found not_found h = ground arith
Tracks-note_class s not_found empty h = ground arith
Tracks-note_class s not_found corrupt h = ground arith
Tracks-note_class s not_found other h = ground arith
Tracks-note_class s empty not_found h = ground arith
Tracks-note_class s empty empty h = ground arith
Tracks-note_class s empty corrupt h = ground arith
Tracks-note_class s empty other h = ground arith
Tracks-note_class s corrupt not_found h = ground arith
Tracks-note_class s corrupt empty h = ground arith
Tracks-note_class s corrupt corrupt h = ground arith
Tracks-note_class s corrupt other h = ground arith
Tracks-note_class s other not_found h = ground arith
Tracks-note_class s other empty h = ground arith
Tracks-note_class s other corrupt h = ground arith
Tracks-note_class s other other h = ground arith

try_candidates-first :
    (H : Host) (cs : List (String × LoadSource)) (seen : Seen) (worst : ErrorClass)
    → Tracks seen worst
    → try_candidates H cs seen ≡ first_readable H worst cs
unfolding try_candidates
try_candidates-first H [] seen worst h = ap (load_result none missing) (Tracks-reason seen worst h)
try_candidates-first H ((path, source) ∷ rest) seen worst h =
    elim (ReadOutcome-cases (read_json_file H path)) [
      | inl (v, e) ↦ ground arith
      | inr (error, e) ↦ ground (
        arith,
        try_candidates-first H rest (note_class (class_of error) seen)
            (worse worst (class_of error)) (Tracks-note_class seen worst (class_of error) h),
      )
    ]

-- The optional load returns the first candidate that can be read, under its own label; if none can be,
-- it returns no data, and for reason the worst of the errors: a system error before invalid JSON before
-- an empty file before a missing one.
pub load_optional-first_readable :
    (H : Host) (artifact_path : String) (fixture_path : Option String) (o : OptionalOptions)
    → load_optional H artifact_path fixture_path o
      ≡ first_readable H not_found (candidates artifact_path fixture_path o)
unfolding load_optional
load_optional-first_readable H artifact_path fixture_path o =
    try_candidates-first H (candidates artifact_path fixture_path o) nothing_seen not_found
      (refl, refl, refl, refl)
