-- ===== src/RuntimeHealth/Receipt/Release.antt =====
-- When the release that is served is the canonical head.
use leitstand.Common.{
  ◌≡◌, refl, ◌∙◌, ◌↔◌, true, String, ◌==◌, eq_iff, some, ok, ◌>>=◌, >>=-eq-ok, Result-cases,
  eq_refl, false-ne-true, ◌≢◌, inl, inr, arith, subst, ap,
}
use leitstand.Common.Text.{is_hex}
use leitstand.Json.{Json, string, get, is_text, is_number, string_or}
use leitstand.Json.Laws.{is_number-one_iff, is_text_iff, string_or-empty_iff, get-some_object, one}
use leitstand.Host.{Host, done, Attempt-cases, by_message}
use leitstand.RuntimeHealth.Snapshots.{pass, is_git_head}
use leitstand.RuntimeHealth.Receipt.{judge_head, read_ecosystem_map_head_consistency}

-- The file names the canonical head of the catalog, and the release is served from a directory of
-- this name.
pub record IsCanonical (H : Host) (path source_root : String) : Type 0 where
  pub text : String
  pub raw : Json
  pub read : H.read_file (H.resolve path) ≡ done text
  pub parsed : H.parse_json text ≡ ok raw
  pub version : get "schemaVersion" raw ≡ some one
  pub kind : get "kind" raw ≡ some (string "leitstand_source_head_snapshot")
  pub repository : get "repository" raw ≡ some (string "heimgewebe/systemkatalog")
  pub ref : get "ref" raw ≡ some (string "refs/heads/main")
  pub status : get "status" raw ≡ some (string "available")
  pub commit : is_git_head (H.basename (H.resolve source_root)) ≡ true
  pub released : get "head" raw ≡ some (string (H.basename (H.resolve source_root)))

judge_head_sound :
    (H : Host) (raw : Json) (root : String)
    → (judge_head H raw root).status ≡ pass
    → (is_number (get "schemaVersion" raw) 1 ≡ true)
      × (is_text (get "kind" raw) "leitstand_source_head_snapshot" ≡ true)
      × (is_text (get "repository" raw) "heimgewebe/systemkatalog" ≡ true)
      × (is_text (get "ref" raw) "refs/heads/main" ≡ true)
      × (is_text (get "status" raw) "available" ≡ true)
      × (is_git_head (string_or "" (get "head" raw)) ≡ true)
      × (is_git_head (H.basename (H.resolve root)) ≡ true)
      × (string_or "" (get "head" raw) == H.basename (H.resolve root) ≡ true)
unfolding judge_head
judge_head_sound H raw root h = ground arith

-- The empty text is no commit id.
commit_is_named : (s : String) → is_git_head s ≡ true → s ≢ ""
unfolding is_hex
commit_is_named s h e = false-ne-true (subst (λ t. is_git_head t ≡ true) e h)

module _ (H : Host) (path root : String) where
  abbrev release : String
  release = H.basename (H.resolve root)

  by_message-done :
      (text : String)
      → by_message (H.read_file (H.resolve path)) ≡ ok text
      → H.read_file (H.resolve path) ≡ done text
  by_message-done text h = elim (Attempt-cases (H.read_file (H.resolve path))) [
    | inl (t, e) ↦ e ∙ ap done (ground arith)
    | inr (f, e) ↦ absurd (ground arith)
  ]

  sound : (read_ecosystem_map_head_consistency H path root).status ≡ pass → IsCanonical H path root
  unfolding read_ecosystem_map_head_consistency
  sound h = elim (Result-cases (by_message (H.read_file (H.resolve path)) >>= H.parse_json)) [
    | inr (m, e) ↦ absurd (ground arith)
    | inl (raw, e) ↦
        let judged : (judge_head H raw root).status ≡ pass = ground arith in
        let (text, read, parsed) = >>=-eq-ok (by_message (H.read_file (H.resolve path))) _ e in
        let (version, kind, repository, ref, status, full, commit, same) =
          judge_head_sound H raw root judged in
        let head : string_or "" (get "head" raw) ≡ release = (eq_iff _ release).0 same in
        record {
          text = text;
          raw = raw;
          read = by_message-done text read;
          parsed = parsed;
          version = (is_number-one_iff (get "schemaVersion" raw)).0 version;
          kind = (is_text_iff (get "kind" raw) _).0 kind;
          repository = (is_text_iff (get "repository" raw) _).0 repository;
          ref = (is_text_iff (get "ref" raw) _).0 ref;
          status = (is_text_iff (get "status" raw) _).0 status;
          commit = commit;
          released =
              (string_or-empty_iff (get "head" raw) release (commit_is_named release commit)).0
                head;
        }
  ]

  judge_head_complete : (c : IsCanonical H path root) → (judge_head H c.raw root).status ≡ pass
  unfolding judge_head
  judge_head_complete c =
      let version = (is_number-one_iff (get "schemaVersion" c.raw)).1 c.version in
      let kind = (is_text_iff (get "kind" c.raw) "leitstand_source_head_snapshot").1 c.kind in
      let repository =
        (is_text_iff (get "repository" c.raw) "heimgewebe/systemkatalog").1 c.repository in
      let ref = (is_text_iff (get "ref" c.raw) "refs/heads/main").1 c.ref in
      let status = (is_text_iff (get "status" c.raw) "available").1 c.status in
      let named = commit_is_named release c.commit in
      let head = (string_or-empty_iff (get "head" c.raw) release named).1 c.released in
      let commit = c.commit in
      let same = eq_refl release in
      rw (version, kind, repository, ref, status, head, commit, same) refl

  complete :
      IsCanonical H path root → (read_ecosystem_map_head_consistency H path root).status ≡ pass
  unfolding read_ecosystem_map_head_consistency
  complete c =
      let object = get-some_object "kind" c.raw _ c.kind in
      let read : (by_message (H.read_file (H.resolve path)) >>= H.parse_json) ≡ ok c.raw =
        rw (c.read, c.parsed) refl in
      rw (read, object, read_ecosystem_map_head_consistency) (judge_head_complete c)

  pub read_ecosystem_map_head_consistency-pass_iff :
      ((read_ecosystem_map_head_consistency H path root).status ≡ pass) ↔ IsCanonical H path root
  read_ecosystem_map_head_consistency-pass_iff = (sound, complete)
