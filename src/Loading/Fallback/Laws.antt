-- ===== src/Loading/Fallback/Laws.antt =====
-- When a fixture stands in, and that a corrupt artifact is never passed over.
use leitstand.Common.{◌≡◌, refl, ◌↔◌, ◌⊎◌, inl, inr, false, String, arith}
use leitstand.Json.{Json}
use leitstand.Host.{Host}
use leitstand.Loading.Files.{
  ReadError, invalid_json, ReadOutcome, read, unread, read_json_file, not_found, empty, class_of,
  fixture,
}
use leitstand.Loading.Fallback.{
  LoadOptions, Outcome, gives, throws, failure, original, load_with_fallback,
}

pub ReadOutcome-cases :
    (r : ReadOutcome) → ((v : Json) × (r ≡ read v)) ⊎ ((e : ReadError) × (r ≡ unread e))
ReadOutcome-cases (read v) = inl (v, refl)
ReadOutcome-cases (unread e) = inr (e, refl)

abbrev pub SourceIsFixture : Outcome → Type 0
SourceIsFixture (gives r) = r.source ≡ fixture
SourceIsFixture (throws t) = ⊥

module _ (H : Host) (artifact_path fixture_path : String) (o : LoadOptions) where
  -- Neither strict mode is on, the artifact is missing or empty, and the fixture can be read.
  pub record FallsBack : Type 0 where
    pub not_strict_fail : o.strict_fail ≡ false
    pub not_strict : o.strict ≡ false
    pub error : ReadError
    pub failed : read_json_file H artifact_path ≡ unread error
    pub harmless : (class_of error ≡ not_found) ⊎ (class_of error ≡ empty)
    pub value : Json
    pub loads : read_json_file H fixture_path ≡ read value

  fixture_sound : SourceIsFixture (load_with_fallback H artifact_path fixture_path o) → FallsBack
  unfolding load_with_fallback
  fixture_sound h = elim (ReadOutcome-cases (read_json_file H artifact_path)) [
    | inl (v, e) ↦ absurd (ground arith)
    | inr (error, failed) ↦ elim (ReadOutcome-cases (read_json_file H fixture_path)) [
      | inr (e', unloaded) ↦ absurd (ground arith)
      | inl (value, loads) ↦ record {
        not_strict_fail = ground arith;
        not_strict = ground arith;
        error = error;
        failed = failed;
        harmless = ground arith;
        value = value;
        loads = loads;
      }
    ]
  ]

  fixture_complete : FallsBack → SourceIsFixture (load_with_fallback H artifact_path fixture_path o)
  unfolding load_with_fallback
  fixture_complete f =
      ground (arith, f.failed, f.loads, f.not_strict, f.not_strict_fail, f.harmless)

  -- A result comes from the fixture exactly if neither strict mode is on, the artifact is missing or
  -- empty, and the fixture can be read.
  pub load_with_fallback-fixture_iff :
      SourceIsFixture (load_with_fallback H artifact_path fixture_path o) ↔ FallsBack
  load_with_fallback-fixture_iff = (fixture_sound, fixture_complete)

abbrev pub IsFailure : Outcome → Type 0
IsFailure (throws (failure m)) = Unit
IsFailure (throws (original e)) = ⊥
IsFailure (gives r) = ⊥

-- An artifact that is no JSON makes the load throw an error of its own, in every mode and whatever
-- the fixture holds.
pub load_with_fallback-corrupt :
    (H : Host) (artifact_path fixture_path path message : String) (o : LoadOptions)
    → read_json_file H artifact_path ≡ unread (invalid_json path message)
    → IsFailure (load_with_fallback H artifact_path fixture_path o)
unfolding load_with_fallback
load_with_fallback-corrupt H artifact_path fixture_path path message o h = ground arith
