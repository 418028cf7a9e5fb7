-- ===== src/EcosystemMap/Manifest/Contract.antt =====
-- What an accepted manifest is bound to.
use mathlib.Core.List.{Perm}
use mathlib.Core.List.Perm
use leitstand.Common.{
  ℕ, suc, ◌≤◌, ◌≡◌, refl, sym, subst, true, ◌&&◌, String, eq_iff, Option, none, some, List, [], ◌∷◌,
  length, ok, require, nat_eq, sort_by-perm, arith, >>=-eq-ok, require-true, ok-injective,
  Pointwise, length-Pointwise,
}
use leitstand.Common.Int.{ℤ}
use leitstand.Common.Text.{is_hex}
use leitstand.Json.{
  Json, string, object, null, boolean, number, array, Members, get, is_record, as_array, as_string,
  is_number, is_text, list_or_throw,
}
use leitstand.Json.Laws.{is_number-one_iff, one}
use leitstand.Host.{Host}
use leitstand.EcosystemMap.Manifest.{
  Expected, ManifestArtifact, ManifestSource, Manifest, artifact_contract, keys, sorts_before,
  same_texts, has_exact_keys, is_commit, parse_artifact, parse_artifacts, some_or_throw,
  positive_integer, is_list_of, check_identity, parse_source, parse_manifest, has_time,
  artifact_keys, source_keys, manifest_keys, is_expected, manifest_kind,
  does_not_establish_contract,
}

same_texts-eq : (ss ts : List String) → same_texts ss ts ≡ true → ss ≡ ts
same_texts-eq [] [] h = refl
same_texts-eq [] (t ∷ ts) h = cc
same_texts-eq (s ∷ ss) [] h = cc
same_texts-eq (s ∷ ss) (t ∷ ts) h = ground (arith, eq_iff s t, same_texts-eq ss ts)

-- The object has these keys, in some order, and no others.
abbrev pub HasKeys : Json → List String → Type 0
HasKeys raw expected = (ms : Members) × (raw ≡ object ms) × Perm (keys ms) expected

has_exact_keys-HasKeys :
    (raw : Json) (expected : List String)
    → has_exact_keys raw expected ≡ true
    → HasKeys raw expected
unfolding has_exact_keys
has_exact_keys-HasKeys (object ms) expected h =
    let same = same_texts-eq _ _ h in
    (
      ms,
      refl,
      Perm.trans (Perm.symm (sort_by-perm sorts_before (keys ms)))
          (subst (λ l. Perm l expected) (sym same) (sort_by-perm sorts_before expected)),
    )
has_exact_keys-HasKeys null expected h = cc
has_exact_keys-HasKeys (boolean b) expected h = cc
has_exact_keys-HasKeys (number n) expected h = cc
has_exact_keys-HasKeys (string s) expected h = cc
has_exact_keys-HasKeys (array vs) expected h = cc

-- An artifact of the manifest, at the place of the contract.
pub record Fits (expected : Expected) (a : ManifestArtifact) : Type 0 where
  pub role : a.role ≡ expected.role
  pub path : a.path ≡ expected.path
  pub content_type : a.content_type ≡ expected.content_type
  pub bytes : 1 ≤ a.bytes
  pub sha256 : is_hex 64 a.sha256 ≡ true

positive_integer-le : (v : Option Json) (n : ℕ) → positive_integer v ≡ some n → 1 ≤ n
positive_integer-le v n h = ground arith

given-some {ℓ} :
    {A : Type ℓ} {o : Option A} (message : String) {a : A}
    → some_or_throw o message ≡ ok a
    → o ≡ some a
given-some {o = some b} message h = ground arith
given-some {o = none} message h = cc

parse_artifact-Fits :
    (i : ℕ) (e : Expected) (item : Json) (a : ManifestArtifact)
    → parse_artifact i e item ≡ ok a
    → Fits e a
unfolding parse_artifact
parse_artifact-Fits i e item a h =
    let (_, e1, h1) =
      >>=-eq-ok (require (is_record item && has_exact_keys item artifact_keys) _) _ h in
    let (_, e2, h2) = >>=-eq-ok (require (is_expected e item) _) _ h1 in
    let (n, e3, h3) = >>=-eq-ok (some_or_throw (positive_integer (get "bytes" item)) _) _ h2 in
    let (d, e4, h4) = >>=-eq-ok (some_or_throw (as_string (get "sha256" item)) _) _ h3 in
    let (_, e5, h5) = >>=-eq-ok (require (is_hex 64 d) _) _ h4 in
    subst (Fits e) (ok-injective h5) record {
      role = refl;
      path = refl;
      content_type = refl;
      bytes = positive_integer-le (get "bytes" item) n (given-some _ e3);
      sha256 = require-true (is_hex 64 d) _ e5;
    }

parse_artifacts-Fits :
    (i : ℕ) (es : List Expected) (items : List Json) (as_parsed : List ManifestArtifact)
    → parse_artifacts i es items ≡ ok as_parsed
    → length items ≡ length es
    → Pointwise Fits es as_parsed
unfolding parse_artifacts
parse_artifacts-Fits i [] [] parsed h same = subst (Pointwise Fits []) (ok-injective h) tt
parse_artifacts-Fits i [] (item ∷ items) parsed h same = absurd (omega arith)
parse_artifacts-Fits i (e ∷ es) [] parsed h same = absurd (omega arith)
parse_artifacts-Fits i (e ∷ es) (item ∷ items) parsed h same =
    let (a, e1, h1) = >>=-eq-ok (parse_artifact i e item) _ h in
    let (rest, e2, h2) = >>=-eq-ok (parse_artifacts (suc i) es items) _ h1 in
    subst (Pointwise Fits (e ∷ es)) (ok-injective h2) (
      parse_artifact-Fits i e item a e1,
      parse_artifacts-Fits (suc i) es items rest e2 (omega (arith, same)),
    )

pub record IsManifest (H : Host) (raw : Json) (m : Manifest) : Type 0 where
  pub fields : HasKeys raw manifest_keys
  pub version : get "schemaVersion" raw ≡ some one
  pub source : Json
  pub source_read : get "source" raw ≡ some source
  pub source_fields : HasKeys source source_keys
  pub commit_read : get "commit" source ≡ some (string m.source.commit)
  pub commit : is_commit m.source.commit ≡ true
  pub dated : get "generatedAt" source ≡ some (string m.source.generated_at)
  pub time : ℤ
  pub valid_date : H.date_of (string m.source.generated_at) ≡ some time
  pub artifacts : Pointwise Fits artifact_contract m.artifacts
  pub counted : m.artifact_count ≡ length m.artifacts

as_string-some : (v : Option Json) (s : String) → as_string v ≡ some s → v ≡ some (string s)
as_string-some v s h = ground arith

module _ (H : Host) where
  check_identity_sound :
      (raw : Json) {u : Unit}
      → check_identity H raw ≡ ok u
      → HasKeys raw manifest_keys × (get "schemaVersion" raw ≡ some one)
  unfolding check_identity
  check_identity_sound raw h =
      let (_, e1, h1) = >>=-eq-ok (require (is_record raw) _) _ h in
      let (_, e2, h2) = >>=-eq-ok (require (has_exact_keys raw manifest_keys) _) _ h1 in
      let identity =
        is_number (get "schemaVersion" raw) 1 && is_text (get "kind" raw) manifest_kind in
      let (_, e3, h3) = >>=-eq-ok (require identity _) _ h2 in
      (
        has_exact_keys-HasKeys raw manifest_keys
            (require-true (has_exact_keys raw manifest_keys) _ e2),
        (is_number-one_iff (get "schemaVersion" raw)).0
            (ground (arith, require-true identity _ e3)),
      )

  has_time-some : (o : Option ℤ) → has_time H o ≡ true → (ts : ℤ) × (o ≡ some ts)
  has_time-some none h = cc
  has_time-some (some ts) h = (ts, refl)

  abbrev ReadsSource : Option Json → ManifestSource → Type 0
  ReadsSource value m =
      (raw : Json) × (value ≡ some raw)
      × HasKeys raw source_keys
      × (get "commit" raw ≡ some (string m.commit))
      × (is_commit m.commit ≡ true)
      × (get "generatedAt" raw ≡ some (string m.generated_at))
      × ((ts : ℤ) × (H.date_of (string m.generated_at) ≡ some ts))

  parse_source-ReadsSource :
      (value : Option Json) (m : ManifestSource) → parse_source H value ≡ ok m → ReadsSource value m
  unfolding parse_source
  parse_source-ReadsSource value m h =
      let (raw, e0, h0) = >>=-eq-ok (some_or_throw value _) _ h in
      let (_, e1, h1) =
        >>=-eq-ok (require (is_record raw && has_exact_keys raw source_keys) _) _ h0 in
      let (_, e2, h2) =
        >>=-eq-ok (require (is_text (get "repository" raw) "heimgewebe/systemkatalog") _) _ h1 in
      let (c, e3, h3) = >>=-eq-ok (some_or_throw (as_string (get "commit" raw)) _) _ h2 in
      let (_, e4, h4) = >>=-eq-ok (require (is_commit c) _) _ h3 in
      let (t, e5, h5) = >>=-eq-ok (some_or_throw (as_string (get "generatedAt" raw)) _) _ h4 in
      let (_, e6, h6) = >>=-eq-ok (require (has_time H (H.date_of (string t))) _) _ h5 in
      let both = require-true (is_record raw && has_exact_keys raw _) _ e1 in
      subst (ReadsSource value) (ok-injective h6) (
        raw,
        given-some _ e0,
        has_exact_keys-HasKeys raw _ (ground arith),
        as_string-some _ c (given-some _ e3),
        require-true (is_commit c) _ e4,
        as_string-some _ t (given-some _ e5),
        has_time-some (H.date_of (string t))
            (require-true (has_time H (H.date_of (string t))) _ e6),
      )

  pub parse_manifest-IsManifest :
      (raw : Json) (m : Manifest) → parse_manifest H raw ≡ ok m → IsManifest H raw m
  unfolding parse_manifest
  parse_manifest-IsManifest raw m h =
      let (_, e1, h1) = >>=-eq-ok (check_identity H raw) _ h in
      let (source, e2, h2) = >>=-eq-ok (parse_source H (get "source" raw)) _ h1 in
      let (items, e3, h3) = >>=-eq-ok (list_or_throw (as_array (get "artifacts" raw)) _) _ h2 in
      let six = is_number (get "artifactCount" raw) 6 && nat_eq (length items) 6 in
      let (_, e4, h4) = >>=-eq-ok (require six _) _ h3 in
      let (artifacts, e5, h5) = >>=-eq-ok (parse_artifacts 0 artifact_contract items) _ h4 in
      let (_, e6, h6) =
        >>=-eq-ok
          (require (is_list_of (as_array (get "doesNotEstablish" raw)) does_not_establish_contract)
            _)
          _ h5 in
      let six_items : length items ≡ 6 = ground (arith, require-true six _ e4) in
      let (fields, version) = check_identity_sound raw e1 in
      let (src, s0, s1, s2, s3, s4, (time, valid)) =
        parse_source-ReadsSource (get "source" raw) source e2 in
      let fit = parse_artifacts-Fits 0 artifact_contract items artifacts e5 six_items in
      subst (IsManifest H raw) (ok-injective h6) record {
        fields = fields;
        version = version;
        source = src;
        source_read = s0;
        source_fields = s1;
        commit_read = s2;
        commit = s3;
        dated = s4;
        time = time;
        valid_date = valid;
        artifacts = fit;
        counted = length-Pointwise Fits artifact_contract artifacts fit;
      }
