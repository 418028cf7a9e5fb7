-- ===== src/RuntimeHealth/Git/Laws.antt =====
-- What a resolved Git head is, and which files were asked for it.
use leitstand.Common.{
  false-ne-true, any-nat_eq, all, All, ◌≢◌, ◌≡◌, ap, subst, inl, inr, true, false, String, ◌==◌,
  eq_iff, Option, none, some, List, [], ◌∷◌, ok, Result-cases, Option-cases, Bool-cases, arith, ◌∙◌,
}
use leitstand.Common.Text.{codes, is_hex, split, starts, trim, skip}
use leitstand.Host.{Attempt-cases, Host}
use leitstand.RuntimeHealth.Snapshots.{pass, is_git_head}
use leitstand.RuntimeHealth.Git.{
  GitHealth, is_safe_segment, is_safe_git_ref, packed_head, find_packed, loose_head, find_loose,
  candidates, resolve_common_git_dir, resolve_git_dir, read_packed_ref, read_git_ref, read_head,
  read_git_health,
}

abbrev IsHead : Option String → Type 0
IsHead none = Unit
IsHead (some head) = is_git_head head ≡ true

packed_head-IsHead : (ref line : String) → IsHead (packed_head ref line)
packed_head-IsHead ref line = ground arith

find_packed-IsHead : (ref : String) (lines : List String) → IsHead (find_packed ref lines)
unfolding find_packed
find_packed-IsHead ref [] = tt
find_packed-IsHead ref (line ∷ lines) =
    ground (arith, packed_head-IsHead ref line, find_packed-IsHead ref lines)

loose_head-IsHead : (H : Host) (path : String) → IsHead (loose_head H path)
loose_head-IsHead H path = ground arith

find_loose-IsHead : (H : Host) (paths : List String) → IsHead (find_loose H paths)
unfolding find_loose
find_loose-IsHead H [] = tt
find_loose-IsHead H (path ∷ paths) =
    ground (arith, loose_head-IsHead H path, find_loose-IsHead H paths)

read_packed_ref-IsHead : (H : Host) (dir ref : String) → IsHead (read_packed_ref H dir ref)
unfolding read_packed_ref
read_packed_ref-IsHead H dir ref =
    elim (Attempt-cases (H.read_file (H.join (dir ∷ "packed-refs" ∷ [])))) [
      | inr (fault, e) ↦ ground arith
      | inl (text, e) ↦ ground (arith, find_packed-IsHead ref (split 10 text))
    ]

read_git_ref-IsHead : (H : Host) (dir ref : String) → IsHead (read_git_ref H dir ref)
unfolding read_git_ref
read_git_ref-IsHead H dir ref =
    let common = resolve_common_git_dir H dir in
    ground (
      arith,
      find_loose-IsHead H (candidates H (H.join (dir ∷ ref ∷ [])) (H.join (common ∷ ref ∷ []))),
      read_packed_ref-IsHead H common ref,
    )

abbrev pub IsPlain : String → Type 0
IsPlain piece = (piece ≢ "") × (piece ≢ ".") × (piece ≢ "..")

is_safe_segment-IsPlain : (piece : String) → is_safe_segment piece ≡ true → IsPlain piece
is_safe_segment-IsPlain piece h = (
  λ e. ground (arith, eq_iff piece ""),
  λ e. ground (arith, eq_iff piece "."),
  λ e. ground (arith, eq_iff piece ".."),
)

all_segments-IsPlain :
    (pieces : List String) → all is_safe_segment pieces ≡ true → All IsPlain pieces
all_segments-IsPlain [] h = tt
all_segments-IsPlain (piece ∷ pieces) h =
    (is_safe_segment-IsPlain piece (ground arith), all_segments-IsPlain pieces (ground arith))

-- A name that can be joined to a directory without leaving it.
pub record IsInside (ref : String) : Type 0 where
  pub below_refs : starts ref "refs/" ≡ true
  pub plain : All IsPlain (split b'/' ref)
  pub unescaped : All (λ c. c ≢ 0x5c) (codes ref)

is_safe_git_ref-IsInside : (ref : String) → is_safe_git_ref ref ≡ true → IsInside ref
unfolding is_safe_git_ref
is_safe_git_ref-IsInside ref h = record {
  below_refs = ground arith;
  plain = all_segments-IsPlain (split b'/' ref) (ground arith);
  unescaped = any-nat_eq 0x5c (codes ref) (ground arith);
}

safe_of_resolved :
    (H : Host) (git_dir ref head : String)
    → read_git_ref H git_dir ref ≡ some head
    → is_safe_git_ref ref ≡ true
unfolding read_git_ref
safe_of_resolved H git_dir ref head h = ground arith

-- A ref resolves to a full commit id only, and only if its name begins with `refs/`, has no backslash,
-- and none of the parts between its slashes is empty, a single dot or two dots.
pub read_git_ref_safe :
    (H : Host) (git_dir ref head : String)
    → read_git_ref H git_dir ref ≡ some head
    → IsInside ref × (is_git_head head ≡ true)
read_git_ref_safe H git_dir ref head h = (
  is_safe_git_ref-IsInside ref (safe_of_resolved H git_dir ref head h),
  ground (arith, read_git_ref-IsHead H git_dir ref),
)

-- A commit id is not empty.
head_named : (s : String) → is_git_head s ≡ true → (s == "") ≡ false
unfolding is_hex
head_named s h = elim (Bool-cases (s == "")) [
  | inr e ↦ e
  | inl e ↦ absurd (false-ne-true (subst (λ t. is_git_head t ≡ true) ((eq_iff s "").0 e) h))
]

read_head-IsHead :
    (H : Host) (cwd dir : String)
    → (read_head H cwd dir).status ≡ pass
    → (head : String) × ((read_head H cwd dir).head ≡ some head) × (is_git_head head ≡ true)
unfolding read_head
read_head-IsHead H cwd dir passes =
    elim (Attempt-cases (H.read_file (H.join (dir ∷ "HEAD" ∷ [])))) [
      | inr (f, e) ↦ absurd (ground arith)
      | inl (text, e) ↦ elim (Bool-cases (starts (trim text) "ref:")) [
        | inr symbolic ↦ (trim text, ground (arith, head_named (trim text)), ground arith)
        | inl symbolic ↦
            let ref = trim (skip 4 (trim text)) in
            elim (Option-cases (read_git_ref H dir ref)) [
              | inl unresolved ↦ absurd (ground arith)
              | inr (head, resolved) ↦
                  (head, ground arith, ground (arith, read_git_ref-IsHead H dir ref))
            ]
      ]
    ]

-- A Git head that is reported as resolved is a full commit id.
pub read_git_health-head :
    (H : Host) (cwd : String) (git : GitHealth)
    → read_git_health H cwd ≡ ok git
    → git.status ≡ pass
    → (head : String) × (git.head ≡ some head) × (is_git_head head ≡ true)
unfolding read_git_health
read_git_health-head H cwd git h passes = elim (Result-cases (resolve_git_dir H cwd)) [
  | inr (m, e) ↦ absurd (ground arith)
  | inl (dir, e) ↦
      let built : read_head H cwd dir ≡ git = ground arith in
      subst (λ (g : GitHealth). (head : String) × (g.head ≡ some head) × (is_git_head head ≡ true))
        built (read_head-IsHead H cwd dir (ap (λ (g : GitHealth). g.status) built ∙ passes))
]
