-- ===== src/Metrics/Tests.antt =====
-- Repositories with and without the known issue, the choice of a file, and the theorems at them.
use leitstand.Common.{ℕ, ◌≡◌, refl, false, String, none, some, List, [], ◌∷◌, All, sort_by}
use leitstand.Common.Int.{pos}
use leitstand.Common.Text.{same, ends, ends_codes, skip, begin, text_before}
use leitstand.Host.{Host, done}
use leitstand.Host.Samples.{sample_host, sorts_before}
use leitstand.Metrics.Repos.{RepoData, missing_profile, process_repo_status}
use leitstand.Metrics.Latest.{Entry, newer, latest_of, stat_all, Choice, chosen, choose_latest}
use leitstand.Metrics.Latest.Laws.{IsAmong, IsBehind, latest_of-IsLatest}

abbrev repo : List String → RepoData
repo issues = record {
  name = some "r";
  issues = some issues;
  status = some "fail";
  expected_by_context = none;
  expected_by_config = some false;
}

runs :
    ((process_repo_status (repo (missing_profile ∷ []))).status ≡ some "ok")
    × ((process_repo_status (repo (missing_profile ∷ "stale" ∷ []))).status ≡ some "fail")
unfolding process_repo_status
runs = (refl, refl)

abbrev entry : String → ℕ → Entry
entry file time = record { file = file; time = pos time }

abbrev entries : List Entry
entries = entry "b" 2 ∷ entry "c" 2 ∷ entry "z" 1 ∷ []

picks : latest_of none entries ≡ some (entry "c" 2)
unfolding latest_of newer text_before
picks = refl

latest_of-IsLatest_example : IsAmong (entry "c" 2) entries × All (IsBehind (entry "c" 2)) entries
latest_of-IsLatest_example = latest_of-IsLatest entries (entry "c" 2) picks

abbrev listed : List String → Host
listed files = record (sample_host [] []) { read_dir = λ dir. done files }

choose : Host → Choice
unfolding choose_latest stat_all latest_of newer sort_by sorts_before text_before ends ends_codes
    same skip begin
choose H = choose_latest H "m"

chooses :
    choose (listed ("2026-01-09.json" ∷ "2026-01-10.json" ∷ "all.json" ∷ "2026-01-11.txt" ∷ []))
    ≡ chosen "2026-01-10.json"
unfolding choose
chooses = refl
