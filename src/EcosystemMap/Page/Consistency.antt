-- ===== src/EcosystemMap/Page/Consistency.antt =====
-- What the page of the map keeps to, fresh or not.
use leitstand.Common.{
  ◌≤◌, true, ◌≡◌, refl, sym, ◌∙◌, subst, ◌≢◌, inl, inr, String, ◌==◌, Option, none, some, List, [],
  ◌∷◌, find, length, length-Pointwise, Pointwise, arith, Bool-cases, Option-cases, false-ne-true,
}
use leitstand.Host.{Host}
use leitstand.Snapshot.{SourceKind, artifact, text_or}
use leitstand.EcosystemMap.Alignment.{read_canonical_head_inspection}
use leitstand.EcosystemMap.Alignment.Counts.{inspect_alignment-Within}
use leitstand.EcosystemMap.Artifacts.{ArtifactView, ArtifactInspection}
use leitstand.EcosystemMap.Artifacts.Laws.{Outcome}
use leitstand.EcosystemMap.Links.{LinkData, load_ecosystem_cross_links}
use leitstand.EcosystemMap.Links.Laws as LinkLaws
use leitstand.EcosystemMap.Manifest.{ManifestArtifact, nodes_role, map_role, artifact_contract}
use leitstand.EcosystemMap.Manifest.Contract.{Fits}
use leitstand.EcosystemMap.Nodes.{SemanticInspection}
use leitstand.EcosystemMap.Nodes.Laws as NodeLaws
use leitstand.EcosystemMap.Page.{
  MapView, source_root_for_manifest, data_from_manifest, empty_data, classify_error,
  get_ecosystem_map_data, view_of_role, missing_reason_of, configured_manifest_path,
}
use leitstand.EcosystemMap.Page.Laws.{Loaded, get_ecosystem_map_data-cases}

abbrev semantics_of : MapView → SemanticInspection
semantics_of v = record {
  nodes = v.nodes;
  declared_node_count = v.view_meta.semantic_node_count;
  review_state = v.view_meta.semantic_review_state;
  review_reason = v.view_meta.semantic_review_reason;
  reviewed_at = v.view_meta.semantic_reviewed_at;
  lifecycle_counts = v.view_meta.lifecycle_counts;
}

abbrev links_of : MapView → LinkData
links_of v = record { links = v.cross_links; link_meta = v.cross_link_meta }

-- The artifact that is shown has its content.
abbrev HasContent : Option ArtifactView → Type 0
HasContent shown =
    (view : ArtifactView) × (content : String) × (shown ≡ some view) × (view.content ≡ some content)

pub record IsConsistent (v : MapView) : Type 0 where
  pub semantics : NodeLaws.IsConsistent (semantics_of v)
  pub reviewed_count : v.view_meta.semantic_reviewed_node_count ≡ length v.nodes
  pub links : LinkLaws.IsConsistent (links_of v)
  pub verified : v.view_meta.verified_artifact_count ≤ v.view_meta.declared_artifact_count
  pub six : v.view_meta.declared_artifact_count ≡ 6
  pub shown : v.view_meta.source_kind ≡ artifact → HasContent v.shown_map

module _ (H : Host) where
  empty_data-IsConsistent :
      (kind : SourceKind) (reason path : String)
      → kind ≢ artifact
      → IsConsistent (empty_data H kind reason path (load_ecosystem_cross_links H))
  unfolding empty_data
  empty_data-IsConsistent kind reason path other = record {
    semantics = NodeLaws.without_nodes-IsConsistent 0 reason;
    reviewed_count = refl;
    links = LinkLaws.load_ecosystem_cross_links-IsConsistent H;
    verified = omega arith;
    six = refl;
    shown = λ h. absurd (other h);
  }

  found_outcome :
      (root role : String) (artifacts : List ManifestArtifact) (current : List ArtifactInspection)
      (i : ArtifactInspection)
      → Pointwise (Outcome H root) artifacts current
      → find (λ j. j.artifact.role == role) current ≡ some i
      → (a : ManifestArtifact) × Outcome H root a i
  found_outcome root role [] [] i p h = cc
  found_outcome root role [] (j ∷ current) i p h = absurd p
  found_outcome root role (a ∷ artifacts) [] i p h = absurd p
  found_outcome root role (a ∷ artifacts) (j ∷ current) i (o, p) h =
      elim (Bool-cases (j.artifact.role == role)) [
        | inl e ↦ let same : j ≡ i = ground arith in (a, subst (Outcome H root a) same o)
        | inr e ↦ found_outcome root role artifacts current i p (ground arith)
      ]

  outcome_content :
      (root : String) (a : ManifestArtifact) (i : ArtifactInspection)
      → Outcome H root a i
      → (text_or i.view.missing_reason "ok" == "ok") ≡ true
      → HasContent (some i.view)
  outcome_content root a i (_, (on_disk, missed)) h = elim (Bool-cases i.matches) [
    | inl e ↦ let d = on_disk e in (i.view, H.decode d.raw, refl, d.shown)
    | inr e ↦ absurd (false-ne-true (sym (missed e).1 ∙ h))
  ]

  shown_content :
      (root : String) (artifacts : List ManifestArtifact) (current : List ArtifactInspection)
      → Pointwise (Outcome H root) artifacts current
      → (missing_reason_of H (view_of_role H map_role current) == "ok") ≡ true
      → HasContent (view_of_role H map_role current)
  shown_content root artifacts current p h =
      elim (Option-cases (find (λ j. j.artifact.role == map_role) current)) [
        | inl e ↦
            let none_shown : view_of_role H map_role current ≡ none = rw (e, view_of_role) refl in
            absurd
              (false-ne-true (subst (λ o. (missing_reason_of H o == "ok") ≡ true) none_shown h))
        | inr (i, e) ↦
            let found : view_of_role H map_role current ≡ some i.view = rw (e, view_of_role) refl in
            let (a, o) = found_outcome root map_role artifacts current i p e in
            subst HasContent (sym found) (
              outcome_content root a i o
                (subst (λ o. (missing_reason_of H o == "ok") ≡ true) found h))
      ]

  loaded-IsConsistent : (v : MapView) → Loaded H v → IsConsistent v
  unfolding data_from_manifest
  loaded-IsConsistent v l =
      let m = l.manifest in
      let root = source_root_for_manifest H (H.resolve (configured_manifest_path H)) in
      let counted = l.contract.counted in
      let lengths = length-Pointwise _ m.artifacts l.current l.inspected in
      subst IsConsistent (sym l.is_data) record {
        semantics =
            NodeLaws.inspect_semantic_nodes-IsConsistent H (view_of_role H nodes_role l.current);
        reviewed_count = refl;
        links = LinkLaws.load_ecosystem_cross_links-IsConsistent H;
        verified = omega (
          arith,
          counted,
          inspect_alignment-Within H root m l.current (read_canonical_head_inspection H)
              (sym lengths),
        );
        six =
            counted
            ∙ sym (length-Pointwise Fits artifact_contract m.artifacts l.contract.artifacts);
        shown = λ h. shown_content root m.artifacts l.current l.inspected (ground arith);
      }

  classify-not_artifact : (m : String) → (classify_error m).0 ≢ artifact
  unfolding classify_error
  classify-not_artifact m e = ground arith

  -- The page agrees with itself for every manifest and error: its nodes are all that the registry
  -- declares, each reviewed, or none, and are counted by their state; its links are those of an accepted
  -- contract; at most the six declared artifacts count as verified; and it calls itself an artifact
  -- only if it shows the content of the map.
  pub get_ecosystem_map_data-IsConsistent : IsConsistent (get_ecosystem_map_data H)
  get_ecosystem_map_data-IsConsistent = elim (get_ecosystem_map_data-cases H) [
    | inl l ↦ loaded-IsConsistent (get_ecosystem_map_data H) l
    | inr (m, e) ↦ subst IsConsistent (sym e) (
        empty_data-IsConsistent (classify_error m).0 (classify_error m).1 _
          (classify-not_artifact m))
  ]
