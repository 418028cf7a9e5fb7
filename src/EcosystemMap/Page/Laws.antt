-- ===== src/EcosystemMap/Page/Laws.antt =====
-- What the page of the map shows, for every manifest, repository and error.
use leitstand.Common.{
  true, ◌≡◌, refl, sym, ◌∙◌, subst, ◌⊎◌, inl, inr, String, ◌==◌, eq_iff, Option, some, List, [],
  ◌∷◌, traverse, traverse-ok_iff, Pointwise, Pointwise-mono, ok, All, Result-cases, >>=-eq-ok,
  ok-injective,
}
use leitstand.Json.{Json}
use leitstand.Host.{Host, by_message}
use leitstand.Snapshot.{FreshnessState, fresh}
use leitstand.EcosystemMap.Alignment.{
  read_canonical_head_inspection, inspect_alignment, combine_freshness,
}
use leitstand.EcosystemMap.Alignment.Laws.{
  inspect_alignment-IsAligned, IsDescendant, combine_freshness-fresh_iff,
}
use leitstand.EcosystemMap.Artifacts.{ArtifactView, ArtifactInspection, inspect_current_artifact}
use leitstand.EcosystemMap.Artifacts.Laws.{IsOnDisk, Outcome, inspect_current_artifact-Outcome}
use leitstand.EcosystemMap.Links.{load_ecosystem_cross_links}
use leitstand.EcosystemMap.Manifest.{Manifest, ManifestArtifact, artifact_contract, map_role}
use leitstand.EcosystemMap.Manifest.Contract.{IsManifest, parse_manifest-IsManifest, Fits}
use leitstand.EcosystemMap.Page.{
  MapView, age_freshness, configured_manifest_path, configured_stale_after_hours,
  source_root_for_manifest, read_manifest, load_map, view_of_role, data_from_manifest, empty_data,
  get_ecosystem_map_data, classify_error,
}

-- A manifest that has been read, and its artifacts as they were found.
pub record Loaded (H : Host) (v : MapView) : Type 0 where
  pub manifest : Manifest
  pub raw : Json
  pub contract : IsManifest H raw manifest
  pub current : List ArtifactInspection
  pub inspected :
      Pointwise
        (Outcome H (source_root_for_manifest H (H.resolve (configured_manifest_path H))))
        manifest.artifacts
        current
  pub is_data :
      v
      ≡ data_from_manifest H manifest
          (H.resolve (configured_manifest_path H))
          (source_root_for_manifest H (H.resolve (configured_manifest_path H)))
          (configured_stale_after_hours H)
          (load_ecosystem_cross_links H)
          current

unknown-fresh : FreshnessState.unknown ≡ fresh → ⊥
unknown-fresh e = cc

module _ (H : Host) where
  read_manifest-IsManifest :
      (path : String) (m : Manifest)
      → read_manifest H path ≡ ok m
      → (raw : Json) × IsManifest H raw m
  unfolding read_manifest
  read_manifest-IsManifest path m h =
      let (text, e1, h1) = >>=-eq-ok (by_message (H.read_file path)) _ h in
      let (raw, e2, h2) = >>=-eq-ok (H.parse_json text) _ h1 in
      (raw, parse_manifest-IsManifest H raw m h2)

  abbrev path : String
  path = H.resolve (configured_manifest_path H)

  abbrev root : String
  root = source_root_for_manifest H path

  load_map-Loaded :
      (v : MapView)
      → load_map H path (configured_stale_after_hours H) (load_ecosystem_cross_links H) ≡ ok v
      → Loaded H v
  load_map-Loaded v h =
      let (m, e1, h1) = >>=-eq-ok (read_manifest H path) _ h in
      let (current, e2, h2) =
        >>=-eq-ok (traverse (inspect_current_artifact H root) m.artifacts) _ h1 in
      let (raw, contract) = read_manifest-IsManifest path m e1 in
      record {
        manifest = m;
        raw = raw;
        contract = contract;
        current = current;
        inspected =
            Pointwise-mono _ (Outcome H root) (inspect_current_artifact-Outcome H root) m.artifacts
              current
              ((traverse-ok_iff (inspect_current_artifact H root) m.artifacts current).0 e2);
        is_data = sym (ok-injective h2);
      }

  -- The page shows what was loaded, or nothing.
  pub get_ecosystem_map_data-cases :
      Loaded H (get_ecosystem_map_data H)
      ⊎ ((m : String) × (get_ecosystem_map_data H
            ≡ empty_data H
                (classify_error m).0
                (classify_error m).1
                path
                (load_ecosystem_cross_links H)))
  unfolding get_ecosystem_map_data
  get_ecosystem_map_data-cases =
      elim (Result-cases
        (load_map H path (configured_stale_after_hours H) (load_ecosystem_cross_links H))) [
          | inl (v, e) ↦
              let same : get_ecosystem_map_data H ≡ v = rw (e, get_ecosystem_map_data) refl in
              inl (subst (Loaded H) (sym same) (load_map-Loaded v e))
          | inr (m, e) ↦ inr (m, rw (e, get_ecosystem_map_data) refl)
        ]

  -- The first artifact of the contract is the map.
  abbrev ShowsMap : Option ArtifactView → Type 0
  ShowsMap shown =
      (view : ArtifactView) × (shown ≡ some view)
      × ((a : ManifestArtifact) × (a.role ≡ map_role) × IsOnDisk H root a view)

  first_is_map :
      (a : ManifestArtifact) (i : ArtifactInspection) (rest : List ArtifactInspection)
      → a.role ≡ map_role
      → Outcome H root a i
      → i.matches ≡ true
      → ShowsMap (view_of_role H map_role (i ∷ rest))
  first_is_map a i rest role (same, (on_disk, _)) matches =
      let found : i.artifact.role == map_role ≡ true =
        (eq_iff i.artifact.role map_role).1 (rw same role) in
      rw (found, view_of_role) (i.view, refl, (a, role, on_disk matches))

  shows_map :
      (artifacts : List ManifestArtifact) (current : List ArtifactInspection)
      → Pointwise Fits artifact_contract artifacts
      → Pointwise (Outcome H root) artifacts current
      → All (λ i. i.matches ≡ true) current
      → ShowsMap (view_of_role H map_role current)
  shows_map [] current fits p m = absurd fits
  shows_map (a ∷ artifacts) [] fits p m = absurd p
  shows_map (a ∷ artifacts) (i ∷ current) (fit, fits) (o, p) (m, ms) =
      first_is_map a i current fit.role o m

  all-IsOnDisk :
      (artifacts : List ManifestArtifact) (current : List ArtifactInspection)
      → Pointwise (Outcome H root) artifacts current
      → All (λ i. i.matches ≡ true) current
      → All (λ a. (view : ArtifactView) × IsOnDisk H root a view) artifacts
  all-IsOnDisk [] [] p m = tt
  all-IsOnDisk [] (i ∷ current) p m = absurd p
  all-IsOnDisk (a ∷ artifacts) [] p m = absurd p
  all-IsOnDisk (a ∷ artifacts) (i ∷ current) ((same, (on_disk, _)), p) (m, ms) =
      ((i.view, on_disk m), all-IsOnDisk artifacts current p ms)

  -- What a page is that may be marked fresh.
  pub record IsFresh (v : MapView) : Type 0 where
    pub manifest : Manifest
    pub raw : Json
    pub contract : IsManifest H raw manifest
    pub young :
        (age_freshness H manifest.source.generated_at
          (configured_stale_after_hours H)).freshness_state
        ≡ fresh
    pub on_disk : All (λ a. (view : ArtifactView) × IsOnDisk H root a view) manifest.artifacts
    pub shows : ShowsMap v.shown_map
    pub head : String
    pub released : v.view_meta.source_head ≡ some head
    pub canonical_head : (read_canonical_head_inspection H).head ≡ some head
    pub commit : v.view_meta.source_commit ≡ some manifest.source.commit
    pub descendant : IsDescendant H root manifest head
    pub all_verified : v.view_meta.verified_artifact_count ≡ v.view_meta.declared_artifact_count

  loaded-IsFresh : (v : MapView) → Loaded H v → v.view_meta.freshness_state ≡ fresh → IsFresh v
  unfolding data_from_manifest
  loaded-IsFresh v l h =
      let canonical = read_canonical_head_inspection H in
      let age = age_freshness H l.manifest.source.generated_at (configured_stale_after_hours H) in
      let a = inspect_alignment H root l.manifest l.current canonical in
      let combined : (combine_freshness age.freshness_state a).0 ≡ fresh =
        subst (λ (w : MapView). w.view_meta.freshness_state ≡ fresh) l.is_data h in
      let (young, verified) = (combine_freshness-fresh_iff age.freshness_state a).0 combined in
      let aligned = inspect_alignment-IsAligned H root l.manifest l.current canonical verified in
      subst IsFresh (sym l.is_data) record {
        manifest = l.manifest;
        raw = l.raw;
        contract = l.contract;
        young = young;
        on_disk = all-IsOnDisk l.manifest.artifacts l.current l.inspected aligned.on_disk;
        shows =
            shows_map l.manifest.artifacts l.current l.contract.artifacts l.inspected
              aligned.on_disk;
        head = aligned.head;
        released = aligned.released;
        canonical_head = aligned.canonical_head;
        commit = refl;
        descendant = aligned.descendant;
        all_verified = aligned.all_verified ∙ sym l.contract.counted;
      }

  pub get_ecosystem_map_data-IsFresh :
      (get_ecosystem_map_data H).view_meta.freshness_state ≡ fresh
      → IsFresh (get_ecosystem_map_data H)
  unfolding empty_data
  get_ecosystem_map_data-IsFresh h = elim get_ecosystem_map_data-cases [
    | inl l ↦ loaded-IsFresh (get_ecosystem_map_data H) l h
    | inr (m, e) ↦
        absurd (unknown-fresh (subst (λ (w : MapView). w.view_meta.freshness_state ≡ fresh) e h))
  ]
