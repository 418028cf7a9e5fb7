-- ===== src/EcosystemMap/Navigation/Laws.antt =====
-- Where the nodes of the map lead to.
use leitstand.Common.{
  true, false, ◌≡◌, refl, sym, subst, ◌⊎◌, inl, inr, String, ◌==◌, eq_iff, Option, none, some, List,
  [], ◌∷◌, ok, traverse-ok_iff, Pointwise, Pointwise-mono, All, arith, Bool, Bool-cases,
  Option-cases, >>=-eq-ok, ok-injective, false-ne-true,
}
use leitstand.Common.Text.{starts, begins}
use leitstand.Host.{Host}
use leitstand.EcosystemMap.Links.{Link, LinkStatus, linked, unmapped, Target}
use leitstand.EcosystemMap.Links.Laws.{IsLink}
use leitstand.EcosystemMap.Mermaid.{NodeIdentity, extract_mermaid_node_identities}
use leitstand.EcosystemMap.Navigation.{
  NodeNavigation, NodeSemanticInput, leitstand_page, systemkatalog, canonical_source_href,
  find_last, target_by, target_of, first_of, navigation_of, navigate,
  build_ecosystem_map_navigation,
}

module _ {A : Type 0} (p : A → Bool) (P : A → Type 0) where
  find_last-All : (xs : List A) (x : A) → All P xs → find_last p xs ≡ some x → P x
  unfolding find_last
  find_last-All [] x h e = cc
  find_last-All (y ∷ ys) x (q, h) e = elim (Option-cases (find_last p ys)) [
    | inr (z, f) ↦ find_last-All ys x h (ground arith)
    | inl f ↦ elim (Bool-cases (p y)) [
      | inr g ↦ absurd (ground arith)
      | inl g ↦ let same : y ≡ x = ground arith in subst P same q
    ]
  ]

-- To an address that begins with a slash, or to the source in the catalog.
abbrev pub IsAddressed : NodeNavigation → Type 0
IsAddressed n =
    ((n.target_kind ≡ leitstand_page) × (starts n.href "/" ≡ true))
    ⊎ ((n.target_kind ≡ systemkatalog) × (n.href ≡ n.source_href))

-- The address of a target that is used begins with a slash.
abbrev IsLocal : Option Target → Type 0
IsLocal none = Unit
IsLocal (some t) = starts t.href "/" ≡ true

first_of-IsLocal :
    (ts : List Target) → All (λ t. starts t.href "/" ≡ true) ts → IsLocal (first_of ts)
first_of-IsLocal [] h = tt
first_of-IsLocal (t ∷ ts) (p, h) = p

target_by-IsLocal :
    (s : LinkStatus) (ts : List Target)
    → All (λ t. starts t.href "/" ≡ true) ts
    → IsLocal (target_by s ts)
target_by-IsLocal linked ts h = first_of-IsLocal ts h
target_by-IsLocal unmapped ts h = tt

target_of-IsLocal :
    (links : List Link) (id : String)
    → All IsLink links
    → IsLocal (target_of (find_last (λ l. l.node_id == id) links))
target_of-IsLocal links id h = elim (Option-cases (find_last (λ l. l.node_id == id) links)) [
  | inl e ↦ subst (λ o. IsLocal (target_of o)) (sym e) tt
  | inr (link, e) ↦
      let valid = find_last-All (λ l. l.node_id == id) IsLink links link h e in
      subst (λ o. IsLocal (target_of o)) (sym e)
        (target_by-IsLocal link.status link.links valid.local_targets)
]

path_is_named : (s : String) → starts s "/" ≡ true → (s == "") ≡ false
unfolding starts begins
path_is_named s h = elim (Bool-cases (s == "")) [
  | inr e ↦ e
  | inl e ↦ absurd (false-ne-true (subst (λ t. starts t "/" ≡ true) ((eq_iff s "").0 e) h))
]

module _ (H : Host) where
  -- The node of the map that the entry of the navigation stands for.
  pub record StandsFor (repository commit map_path : String) (identity : NodeIdentity)
      (n : NodeNavigation) : Type 0 where
    pub mermaid_id : n.mermaid_id ≡ identity.mermaid_id
    pub node_id : n.node_id ≡ identity.node_id
    pub label : n.label ≡ identity.label
    pub source : canonical_source_href H repository commit map_path identity.line ≡ ok n.source_href
    pub leads : IsAddressed n

  leads_of :
      (identity : NodeIdentity) (source : String) (t : Option Target) (s : Option NodeSemanticInput)
      → IsLocal t
      → IsAddressed (navigation_of H identity source t s)
  leads_of identity source none s h = inr (refl, refl)
  leads_of identity source (some t) s h = inl (refl, rw (path_is_named t.href h) h)

  navigate-StandsFor :
      (links : List Link) (repository commit map_path : String) (semantics : List NodeSemanticInput)
      → All IsLink links
      → (identity : NodeIdentity) (n : NodeNavigation)
      → navigate H links repository commit map_path semantics identity ≡ ok n
      → StandsFor repository commit map_path identity n
  unfolding navigate
  navigate-StandsFor links repository commit map_path semantics valid identity n h =
      let (source, e, h') =
        >>=-eq-ok (canonical_source_href H repository commit map_path identity.line) _ h in
      let target = target_of (find_last (λ l. l.node_id == identity.node_id) links) in
      subst (StandsFor repository commit map_path identity) (ok-injective h') record {
        mermaid_id = refl;
        node_id = refl;
        label = refl;
        source = e;
        leads =
            leads_of identity source target
              (find_last (λ n. n.node_id == identity.node_id) semantics)
              (target_of-IsLocal links identity.node_id valid);
      }

  -- Where the links are those of an accepted contract, the navigation that is built has one entry for
  -- each node that is found in the text of the map, in this order, with the ids and the label of the
  -- node and the address of its line in the catalog; it leads to an address that begins
  -- with a slash or to this one.
  pub build_ecosystem_map_navigation-StandsFor :
      (content : String) (links : List Link) (repository commit map_path : String)
      (semantics : List NodeSemanticInput) (navigation : List NodeNavigation)
      → All IsLink links
      → build_ecosystem_map_navigation H content links repository commit map_path semantics
        ≡ ok navigation
      → Pointwise
          (StandsFor repository commit map_path)
          (extract_mermaid_node_identities content)
          navigation
  unfolding build_ecosystem_map_navigation
  build_ecosystem_map_navigation-StandsFor content links repository commit map_path semantics
        navigation valid h =
      let found = extract_mermaid_node_identities content in
      Pointwise-mono _ (StandsFor repository commit map_path)
        (navigate-StandsFor links repository commit map_path semantics valid) found navigation
        ((traverse-ok_iff (navigate H links repository commit map_path semantics) found
            navigation).0
          h)
