-- ===== src/Metrics/Repos.antt =====
-- `processRepoStatus`, and the counts of `loadMetricsSnapshot`. The file is not validated by the code:
-- it is taken as its types say.
pub mod Laws
use leitstand.Common.{
  ℕ, zero, suc, ◌+◌, Bool, true, false, not, ◌&&◌, String, ◌==◌, Option, none, some, List, [], ◌∷◌,
  map, filter, any, count, length, if◌then◌else◌,
}

-- `RepoData`: what the code reads of it. The two places where the profile may be expected are the
-- fields of `ai_context` and of `config`.
pub record RepoData : Type 0 where
  pub name : Option String
  pub issues : Option (List String)
  pub status : Option String
  pub expected_by_context : Option Bool
  pub expected_by_config : Option Bool

abbrev pub missing_profile : String
missing_profile = "missing .wgx/profile.yml"

-- `a ?? b`
abbrev or_else {ℓ} : {A : Type ℓ} → Option A → A → A
or_else none b = b
or_else (some a) b = a

abbrev pub issues_of : RepoData → List String
issues_of repo = or_else repo.issues []

abbrev pub profile_expected : RepoData → Bool
profile_expected repo = or_else repo.expected_by_context (or_else repo.expected_by_config true)

abbrev is_issue : String → Bool
is_issue i = i == missing_profile

abbrev ok_if_none : List String → Option String → Option String
ok_if_none [] status = some "ok"
ok_if_none (i ∷ is) status = status

unfoldable pub process_repo_status : RepoData → RepoData
process_repo_status repo =
    let left = filter (λ i. not (is_issue i)) (issues_of repo) in
    if any is_issue (issues_of repo) && not (profile_expected repo)
    then record repo { issues = some left; status = ok_if_none left repo.status }
    else repo

pub record RepoStatus : Type 0 where
  pub ok : ℕ
  pub warn : ℕ
  pub fail : ℕ

-- `(newRepo.status || 'unknown') === word`, for a word that is neither empty nor 'unknown'.
abbrev pub has_status : String → RepoData → Bool
has_status word repo = or_else repo.status "unknown" == word

abbrev pub is_unknown : RepoData → Bool
is_unknown repo =
    not (has_status "ok" repo) && not (has_status "warn" repo) && not (has_status "fail" repo)

-- `repos`: objects, or the names alone.
pub data Repos : Type 0 where
  objects : List RepoData → Repos
  names : List String → Repos

pub record RawMetrics : Type 0 where
  pub repo_count : Option ℕ
  pub repos : Option Repos
  pub status : Option RepoStatus
  pub ok : Option ℕ
  pub warn : Option ℕ
  pub fail : Option ℕ
  pub timestamp : Option String

-- The metadata is left out but for the count that the code adds to it.
pub record MetricsSnapshot : Type 0 where
  pub timestamp : String
  pub repo_count : ℕ
  pub status : RepoStatus
  pub unknown_count : Option ℕ
  pub repos : Option Repos

abbrev repos_length : Option Repos → Option ℕ
repos_length none = none
repos_length (some (objects rs)) = some (length rs)
repos_length (some (names ns)) = some (length ns)

abbrev given_status : RawMetrics → RepoStatus
given_status raw =
    or_else raw.status
      (record { ok = or_else raw.ok 0; warn = or_else raw.warn 0; fail = or_else raw.fail 0 })

abbrev pub counted_status : List RepoData → RepoStatus
counted_status repos = record {
  ok = count (has_status "ok") repos;
  warn = count (has_status "warn") repos;
  fail = count (has_status "fail") repos;
}

abbrev when_positive : ℕ → Option ℕ
when_positive zero = none
when_positive (suc n) = some (suc n)

abbrev pub timestamp_or : Option String → String → String
timestamp_or none now = now
timestamp_or (some s) now = if s == "" then now else s

-- What is made of the parsed file; `now` is `new Date().toISOString()`.
unfoldable pub snapshot_of_raw : String → RawMetrics → MetricsSnapshot
unfolding process_repo_status
snapshot_of_raw now raw = elim raw.repos [
  | some (objects (r ∷ rs)) ↦
      let processed = map process_repo_status (r ∷ rs) in
      record {
        timestamp = timestamp_or raw.timestamp now;
        repo_count = or_else raw.repo_count (length (r ∷ rs));
        status = counted_status processed;
        unknown_count = when_positive (count is_unknown processed);
        repos = some (objects processed);
      }
  | _ ↦ record {
    timestamp = timestamp_or raw.timestamp now;
    repo_count = or_else raw.repo_count (or_else (repos_length raw.repos) 0);
    status = given_status raw;
    unknown_count = none;
    repos = raw.repos;
  }
]
