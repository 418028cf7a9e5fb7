-- ===== src/RepoBrief/Page.antt =====
-- `configuredBundleIndex`, `emptyData`, `getRepoBriefData`.
pub mod Laws
use leitstand.Common.{
  ℕ, ◌+◌, ◌/◌, Bool, true, false, ◌||◌, String, ◌==◌, Option, none, some, List, [], ◌∷◌, length,
  count, leb, Result, ok, err, ◌>>=◌, if◌then◌else◌,
}
use leitstand.Common.Int.{◌-ℤ◌, max_zero}
use leitstand.Json.{Json}
use leitstand.Host.{Host, by_message}
use leitstand.Snapshot.{SourceKind, artifact, fixture, FreshnessState, fresh, stale, text_or}
use leitstand.RepoBrief.Parse.{
  SourceStatus, available, unavailable, unspecified, BundleView, Parsed, default_non_claims,
  classify_error, parse_index,
}

pub record ViewMeta : Type 0 where
  pub freshness_state : FreshnessState
  pub source_kind : SourceKind
  pub source_path : String
  pub missing_reason : String
  pub generated_at : Option String
  pub data_age_seconds : Option ℕ
  pub stale_after_seconds : Option ℕ
  pub source_status : SourceStatus
  pub bundle_count : ℕ
  pub public_export_ready_count : ℕ
  pub warning_count : ℕ
  pub does_not_establish : List String

pub record ViewData : Type 0 where
  pub bundles : List BundleView
  pub view_meta : ViewMeta

unfoldable pub empty_data : SourceKind → String → String → ViewData
empty_data kind reason source_path = record {
  bundles = [];
  view_meta = record {
    freshness_state = FreshnessState.unknown;
    source_kind = kind;
    source_path = source_path;
    missing_reason = reason;
    generated_at = none;
    data_age_seconds = none;
    stale_after_seconds = none;
    source_status = unavailable;
    bundle_count = 0;
    public_export_ready_count = 0;
    warning_count = 0;
    does_not_establish = default_non_claims;
  };
}

abbrev pub is_artifact : SourceKind → Bool
is_artifact artifact = true
is_artifact _ = false

abbrev pub is_available : SourceStatus → Bool
is_available available = true
is_available _ = false

-- The test on the age, for a source that can be fresh.
abbrev within : Option ℕ → Option ℕ → FreshnessState
within (some age) (some limit) = if leb age limit then fresh else stale
within _ _ = FreshnessState.unknown

unfoldable pub freshness_of : SourceKind → SourceStatus → Option ℕ → Option ℕ → FreshnessState
freshness_of kind status age limit =
    if is_artifact kind
    then (if is_available status then within age limit else FreshnessState.unknown)
    else FreshnessState.unknown

abbrev pub visible : FreshnessState → List BundleView → List BundleView
visible fresh bundles = bundles
visible _ bundles = []

abbrev total_warnings : List BundleView → ℕ
total_warnings [] = 0
total_warnings (b ∷ bs) = length b.warnings + total_warnings bs

abbrev reason_of_freshness : FreshnessState → String
reason_of_freshness stale = "canonical_publication_catalog_stale"
reason_of_freshness FreshnessState.unknown = "canonical_publication_freshness_unbound"
reason_of_freshness fresh = "ok"

unfoldable pub missing_reason_of : SourceKind → SourceStatus → FreshnessState → String
missing_reason_of kind status freshness =
    if is_artifact kind
    then (if is_available status
        then reason_of_freshness freshness
        else "canonical_publication_catalog_unavailable")
    else "fixture_fallback"

module _ (H : Host) where
  -- `configured` is the first variable that is set and not empty, `""` if none is.
  abbrev pub configured : String
  configured =
      text_or (H.env "LEITSTAND_REPOGROUND_BUNDLES_PATH")
        (text_or (H.env "LEITSTAND_REPOBRIEF_BUNDLES_PATH") "")

  unfoldable pub configured_bundle_index : String × SourceKind
  configured_bundle_index =
      if configured == ""
      then (H.join (H.cwd ∷ "src" ∷ "fixtures" ∷ "repobrief-bundles.json" ∷ []), fixture)
      else (configured, artifact)

  unfoldable pub data_age_seconds : Option String → Option ℕ
  data_age_seconds none = none
  data_age_seconds (some s) =
      if s == ""
      then none
      else elim (H.parse_date s) [ none ↦ none | some ts ↦ some (max_zero (H.now -ℤ ts) / 1000) ]

  -- The `return` of the `try` block.
  unfoldable pub data_from_parsed : Parsed → SourceKind → String → ViewData
  data_from_parsed parsed kind source_path =
      let age = data_age_seconds parsed.generated_at in
      let freshness = freshness_of kind parsed.source_status age parsed.stale_after_seconds in
      let bundles = visible freshness parsed.bundles in
      record {
        bundles = bundles;
        view_meta = record {
          freshness_state = freshness;
          source_kind = kind;
          source_path = source_path;
          missing_reason = missing_reason_of kind parsed.source_status freshness;
          generated_at = parsed.generated_at;
          data_age_seconds = age;
          stale_after_seconds = parsed.stale_after_seconds;
          source_status = parsed.source_status;
          bundle_count = length bundles;
          public_export_ready_count = count (λ b. b.public_export_ready) bundles;
          warning_count = length parsed.warnings + total_warnings parsed.bundles;
          does_not_establish = parsed.does_not_establish;
        };
      }

  unfoldable pub load : String → Result Parsed
  load source_path = do
    text ← by_message (H.read_file source_path)
    raw ← H.parse_json text
    parse_index raw

  unfoldable pub get_repo_brief_data : ViewData
  get_repo_brief_data =
      let (path, kind) = configured_bundle_index in
      let source_path = H.resolve path in
      elim (load source_path) [
        | ok parsed ↦ data_from_parsed parsed kind source_path
        | err message ↦
            let (error_kind, reason) = classify_error message in
            empty_data error_kind reason source_path
      ]
