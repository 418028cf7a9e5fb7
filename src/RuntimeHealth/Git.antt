-- ===== src/RuntimeHealth/Git.antt =====
-- The Git head of the release: from `parseGitdirFile` to `readGitHealth`.
pub mod Laws
use leitstand.Common.{
  ℕ, Bool, true, false, not, ◌&&◌, ◌||◌, String, ◌==◌, Option, none, some, List, [], ◌∷◌, Result,
  ok, err, nat_eq, all, any, if◌then◌else◌,
}
use leitstand.Common.Text.{codes, trim, starts, skip, split, cut_at_space}
use leitstand.Host.{Host, Attempt, done, failed}
use leitstand.RuntimeHealth.Snapshots.{CheckStatus, pass, warn, is_git_head, display_path}

pub record GitHealth : Type 0 where
  pub status : CheckStatus
  pub reason : String
  pub head : Option String
  pub branch : Option String
  pub source_path : String
  pub source_path_display : String

unfoldable pub parse_gitdir_file : String → Option String
parse_gitdir_file raw =
    let trimmed = trim raw in
    if starts trimmed "gitdir:" then some (trim (skip 7 trimmed)) else none

abbrev pub is_safe_segment : String → Bool
is_safe_segment s = not (s == "") && not (s == ".") && not (s == "..")

unfoldable pub is_safe_git_ref : String → Bool
is_safe_git_ref ref =
    starts ref "refs/"
    && not (any (nat_eq 0x5c) (codes ref))
    && all is_safe_segment (split b'/' ref)

-- One line of `packed-refs`: its head, if it is the line of the ref. The separator `/\r?\n/` takes a
-- `\r` at the end of a line in; so does the `trim`.
abbrev packed_head : String → String → Option String
packed_head ref line =
    let trimmed = trim line in
    if trimmed == "" || starts trimmed "#" || starts trimmed "^"
    then none
    else elim (cut_at_space trimmed) [
      | none ↦ none
      | some (head, packed_ref) ↦
          if not (head == "") && packed_ref == ref && is_git_head head then some head else none
    ]

unfoldable pub find_packed : String → List String → Option String
find_packed ref [] = none
find_packed ref (line ∷ lines) = elim (packed_head ref line) [
  | some head ↦ some head
  | none ↦ find_packed ref lines
]

-- The first of the files that holds a head.
abbrev loose_head : Host → String → Option String
loose_head H path = elim (H.read_file path) [
  | failed fault ↦ none
  | done text ↦ if is_git_head (trim text) then some (trim text) else none
]

unfoldable pub find_loose : Host → List String → Option String
find_loose H [] = none
find_loose H (path ∷ paths) = elim (loose_head H path) [
  | some head ↦ some head
  | none ↦ find_loose H paths
]

module _ (H : Host) where
  -- An error of `readFile` on a `.git` that is not a directory is not caught.
  unfoldable pub resolve_git_dir : String → Result String
  resolve_git_dir cwd =
      let dot_git_path = H.join (cwd ∷ ".git" ∷ []) in
      elim (H.stat dot_git_path) [
        | failed fault ↦ ok dot_git_path
        | done dot_git_stat ↦
            if dot_git_stat.is_directory then ok dot_git_path else elim (H.read_file dot_git_path) [
              | failed fault ↦ err fault.message
              | done text ↦ elim (parse_gitdir_file text) [
                | none ↦ ok dot_git_path
                | some gitdir ↦
                    ok (if gitdir == "" then dot_git_path else H.resolve_from cwd gitdir)
              ]
            ]
      ]

  unfoldable pub resolve_common_git_dir : String → String
  resolve_common_git_dir git_dir = elim (H.read_file (H.join (git_dir ∷ "commondir" ∷ []))) [
    | failed fault ↦ git_dir
    | done text ↦
        let common_dir = trim text in
        if common_dir == "" then git_dir else H.resolve_from git_dir common_dir
  ]

  unfoldable pub read_packed_ref : String → String → Option String
  read_packed_ref common_git_dir ref =
      elim (H.read_file (H.join (common_git_dir ∷ "packed-refs" ∷ []))) [
        | failed fault ↦ none
        | done packed_refs ↦ find_packed ref (split 10 packed_refs)
      ]

  -- `[...new Set([a, b])]`
  abbrev candidates : String → String → List String
  candidates a b = if a == b then a ∷ [] else a ∷ b ∷ []

  unfoldable pub read_git_ref : String → String → Option String
  read_git_ref git_dir ref =
      if is_safe_git_ref ref
      then (let common_git_dir = resolve_common_git_dir git_dir in
          elim (find_loose H
            (candidates (H.join (git_dir ∷ ref ∷ [])) (H.join (common_git_dir ∷ ref ∷ [])))) [
              | some head ↦ some head
              | none ↦ read_packed_ref common_git_dir ref
            ])
      else none

  abbrev git_base : String → String → GitHealth
  git_base cwd head_path = record {
    status = warn;
    reason = "git_head_unavailable";
    head = none;
    branch = none;
    source_path = head_path;
    source_path_display = display_path H cwd head_path;
  }

  abbrev on_branch : GitHealth → String → Option String → GitHealth
  on_branch b ref none = record b {
    status = warn;
    reason = "git_ref_unresolved";
    head = none;
    branch = some (if starts ref "refs/heads/" then skip 11 ref else ref);
  }
  on_branch b ref (some head) = record b {
    status = pass;
    reason = "git_head_resolved";
    head = some head;
    branch = some (if starts ref "refs/heads/" then skip 11 ref else ref);
  }

  abbrev detached : GitHealth → String → GitHealth
  detached b raw_head = record b {
    status = if is_git_head raw_head then pass else warn;
    reason =
        if is_git_head raw_head then "git_detached_head_resolved" else "git_head_unexpected_format";
    head = if raw_head == "" then none else some raw_head;
  }

  -- The rest of `readGitHealth`, once the Git directory is resolved.
  unfoldable pub read_head : String → String → GitHealth
  read_head cwd git_dir =
      let head_path = H.join (git_dir ∷ "HEAD" ∷ []) in
      let b = git_base cwd head_path in
      elim (H.read_file head_path) [
        | failed fault ↦ b
        | done text ↦
            let raw_head = trim text in
            if starts raw_head "ref:"
            then (let ref = trim (skip 4 raw_head) in on_branch b ref (read_git_ref git_dir ref))
            else detached b raw_head
      ]

  unfoldable pub read_git_health : String → Result GitHealth
  read_git_health cwd = elim (resolve_git_dir cwd) [
    | err message ↦ err message
    | ok git_dir ↦ ok (read_head cwd git_dir)
  ]
