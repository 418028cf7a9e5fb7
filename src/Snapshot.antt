-- ===== src/Snapshot.antt =====
-- What src/controllers/bureau.ts, checkouts.ts and storageHealth.ts share, each in a copy of its own:
-- where a snapshot is looked for, how an error is classed, when the fixture stands in for it, how
-- old it is (src/freshnessPolicy.ts). A `Controller` holds what differs between the copies.
pub mod Laws
pub mod Freshness
mod Tests
use leitstand.Common.{
  ℕ, ◌*◌, Bool, true, false, not, ◌&&◌, ◌||◌, String, ◌==◌, Option, none, some, List, [], ◌∷◌,
  Result, ok, err, ◌>>=◌, if◌then◌else◌,
}
use leitstand.Common.Text.{codes, lower, same, begins, includes}
use leitstand.Common.Int.{ℤ, pos, ◌-ℤ◌, leb_ℤ}
use leitstand.Json.{Json}
use leitstand.Host.{Host, by_message}

pub data SourceKind : Type 0 where
  artifact fixture missing corrupt : SourceKind

pub data FreshnessState : Type 0 where
  fresh stale unknown : FreshnessState

abbrev pub operational_snapshot_stale_after_minutes : ℕ
operational_snapshot_stale_after_minutes = 20

abbrev pub operational_snapshot_stale_after_ms : ℕ
operational_snapshot_stale_after_ms = operational_snapshot_stale_after_minutes * 60 * 1000

-- `message.toLowerCase().includes(word)`
unfoldable pub says : String → String → Bool
unfolding lower includes
says message word = includes (lower (codes message)) (codes word)

-- `value || fallback`
abbrev pub text_or : Option String → String → String
text_or none fallback = fallback
text_or (some s) fallback = if s == "" then fallback else s

abbrev pub is_set : Option String → Bool
is_set none = false
is_set (some _) = true

abbrev pub env_is : Option String → String → Bool
env_is none s = false
env_is (some value) s = value == s

module _ (H : Host) where
  unfoldable pub freshness_within : ℕ → Option String → FreshnessState
  freshness_within limit none = unknown
  freshness_within limit (some generated_at) =
      if generated_at == "" then unknown else elim (H.parse_date generated_at) [
        | none ↦ unknown
        | some ts ↦ if leb_ℤ (H.now -ℤ ts) (pos limit) then fresh else stale
      ]

  unfoldable pub display_source_path : String → String → String
  unfolding begins
  display_source_path source_path source_root =
      let rel = H.relative source_root (H.resolve source_path) in
      if not (rel == "")
        && not (begins (codes rel) (codes ".."))
        && not (begins (codes rel) (codes "/"))
      then rel
      else "<external snapshot>"

  unfoldable pub fixture_fallback_enabled : String → Bool
  unfolding lower same
  fixture_fallback_enabled variable = elim (H.env variable) [
    | some explicit ↦ explicit == "1" || same (lower (codes explicit)) (codes "true")
    | none ↦ env_is (H.env "LEITSTAND_STRICT") "0" || env_is (H.env "LEITSTAND_STRICT") "false"
  ]

-- `Parsed` is what the validator returns, `View` what the page is given.
pub record Controller (Parsed View : Type 0) : Type 0 where
  pub path_variable : String
  pub fallback_variable : String
  pub artifact_file : String
  pub fixture_file : String
  pub fixture_reason : String
  pub parse_snapshot : Json → Result Parsed
  pub classify_error : String → SourceKind × String
  pub empty_data : SourceKind → String → String → String → View
  pub data_from_parsed : Parsed → SourceKind → String → String → String → View

abbrev pub is_missing : SourceKind → Bool
is_missing missing = true
is_missing _ = false

module _ (H : Host) {Parsed View : Type 0} (C : Controller Parsed View) where
  -- `loadSnapshot`
  unfoldable pub load_snapshot : String → Result Parsed
  load_snapshot path = do
    text ← by_message (H.read_file path)
    raw ← H.parse_json text
    C.parse_snapshot raw

  abbrev pub artifact_path : String → String
  artifact_path source_root =
      text_or (H.env C.path_variable) (H.join (source_root ∷ "artifacts" ∷ C.artifact_file ∷ []))

  abbrev pub fixture_path : String → String
  fixture_path source_root = H.join (source_root ∷ "src" ∷ "fixtures" ∷ C.fixture_file ∷ [])

  -- The inner `try`: the fixture in place of the artifact.
  unfoldable pub load_fixture : String → View
  load_fixture source_root =
      let fallback_path = H.resolve (fixture_path source_root) in
      elim (load_snapshot fallback_path) [
        | ok parsed ↦ C.data_from_parsed parsed fixture fallback_path C.fixture_reason source_root
        | err message ↦
            let (kind, reason) = C.classify_error message in
            C.empty_data kind reason fallback_path source_root
      ]

  -- The outer `catch`.
  unfoldable pub recover : String → String → String → View
  recover source_root source_path message =
      let (kind, reason) = C.classify_error message in
      if is_set (H.env C.path_variable)
        || not (is_missing kind)
        || not (fixture_fallback_enabled H C.fallback_variable)
      then C.empty_data kind reason source_path source_root
      else load_fixture source_root

  unfoldable pub get_data : Option String → View
  get_data option =
      let source_root = H.resolve (elim option [ none ↦ H.cwd | some root ↦ root ]) in
      let source_path = H.resolve (artifact_path source_root) in
      elim (load_snapshot source_path) [
        | ok parsed ↦ C.data_from_parsed parsed artifact source_path "ok" source_root
        | err message ↦ recover source_root source_path message
      ]
