-- ===== src/Metrics/Repos/Laws.antt =====
-- What the processing of a repository changes, and that the counts add up.
use leitstand.Common.{
  ◌+◌, ◌≡◌, refl, ◌∙◌, ap, inl, inr, Bool-cases, true, false, not, ◌&&◌, String, ◌==◌, eq_iff, List,
  [], ◌∷◌, filter, any, count, length, arith,
}
use leitstand.Metrics.Repos.{
  RepoData, issues_of, profile_expected, is_issue, process_repo_status, is_unknown, counted_status,
  or_else,
}

any-filtered : (is : List String) → any is_issue (filter (λ i. not (is_issue i)) is) ≡ false
any-filtered [] = refl
any-filtered (i ∷ is) = ground (arith, any-filtered is)

-- To process a repository twice changes nothing more.
pub process_repo_status-process_repo_status :
    (repo : RepoData) → process_repo_status (process_repo_status repo) ≡ process_repo_status repo
unfolding process_repo_status
process_repo_status-process_repo_status repo =
    elim (Bool-cases (any is_issue (issues_of repo) && not (profile_expected repo))) [
      | inr e ↦ rw (e, process_repo_status, e) refl
      | inl e ↦ rw (e, process_repo_status, any-filtered (issues_of repo)) refl
    ]

-- A text is not two words at once.
apart : (s a b : String) → (a == b) ≡ false → (s == a) ≡ true → (s == b) ≡ false
apart s a b different h = ap (λ t. t == b) ((eq_iff s a).0 h) ∙ different

-- Every repository is counted under exactly one of the four statuses.
pub counted_status_total :
    (repos : List RepoData)
    → (counted_status repos).ok
        + (counted_status repos).warn
        + (counted_status repos).fail
        + count is_unknown repos
      ≡ length repos
counted_status_total [] = refl
counted_status_total (r ∷ rs) =
    let s = or_else r.status "unknown" in
    ground (
      arith,
      apart s "ok" "warn" refl,
      apart s "ok" "fail" refl,
      apart s "warn" "fail" refl,
      counted_status_total rs,
    )
