-- ===== src/EcosystemMap/Links/Laws.antt =====
-- What is known of the links whatever the file holds.
use leitstand.Common.{
  ◌≡◌, refl, ◌≢◌, ◌⊎◌, inl, inr, subst, sym, ◌∙◌, eq_refl, true, not, ◌&&◌, require, String, ◌==◌,
  eq_iff, Option, none, some, List, [], ◌∷◌, map, ok, find, traverse, traverse-ok_iff,
  Pointwise-All, All, All-mono, arith, Bool-cases, Result-cases, >>=-eq-ok, require-true,
  ok-injective,
}
use leitstand.Common.Distinct.{has, Distinct, New, New-step, Distinct-step}
use leitstand.Common.Text.{starts}
use leitstand.Json.{Json, get, is_object, as_array, string_or, is_number, is_text, list_or_throw}
use leitstand.Host.{Host, by_message}
use leitstand.Snapshot.{artifact}
use leitstand.EcosystemMap.Links.{
  LinkStatus, linked, unmapped, Target, Link, LinkData, Contract, parse_target, parse_targets,
  parse_link, check_unique, parse_contract, read_contract, load_ecosystem_cross_links,
  resolve_ecosystem_cross_link, status_of, check_targets, configured_links_path, contract_kind,
}

-- A link that is linked has a target, one that is unmapped has none.
abbrev pub FitsTargets : LinkStatus → List Target → Type 0
FitsTargets linked ts = ts ≢ []
FitsTargets unmapped ts = ts ≡ []

pub record IsLink (link : Link) : Type 0 where
  pub named : link.node_id ≢ ""
  pub labelled : link.label ≢ ""
  pub fits : FitsTargets link.status link.links
  pub local_targets : All (λ t. starts t.href "/" ≡ true) link.links

check_targets-FitsTargets :
    (s : LinkStatus) (ts : List Target) {u : Unit} → check_targets s ts ≡ ok u → FitsTargets s ts
check_targets-FitsTargets linked [] h = cc
check_targets-FitsTargets linked (t ∷ ts) h = λ e. cc
check_targets-FitsTargets unmapped [] h = refl
check_targets-FitsTargets unmapped (t ∷ ts) h = cc

check_unique-Distinct :
    (seen : List String) (links : List Link) {u : Unit}
    → check_unique seen links ≡ ok u
    → New seen (map (λ link. link.node_id) links) × Distinct (map (λ link. link.node_id) links)
unfolding check_unique
check_unique-Distinct seen [] h = (tt, tt)
check_unique-Distinct seen (link ∷ links) {u = u} h = elim (Bool-cases (has seen link.node_id)) [
  | inl e ↦ ground arith
  | inr e ↦
      let later = check_unique-Distinct (link.node_id ∷ seen) links {u = u} (ground arith) in
      (
        (e, New-step seen link.node_id _ later.0),
        (Distinct-step seen link.node_id _ later.0, later.1),
      )
]

module _ (H : Host) where
  parse_target-local :
      (raw : Json) (t : Target) → parse_target H raw ≡ ok t → starts t.href "/" ≡ true
  unfolding parse_target
  parse_target-local raw t h = ground arith

  targets-local :
      (raws : Option (List Json)) (ts : List Target)
      → parse_targets H raws ≡ ok ts
      → All (λ t. starts t.href "/" ≡ true) ts
  targets-local none ts h = subst (All (λ t. starts t.href "/" ≡ true)) (ok-injective h) tt
  targets-local (some raws) ts h =
      Pointwise-All (λ raw t. parse_target H raw ≡ ok t) (λ t. starts t.href "/" ≡ true)
        (parse_target-local) raws ts ((traverse-ok_iff (parse_target H) raws ts).0 h)

  parse_link-IsLink : (raw : Json) (link : Link) → parse_link H raw ≡ ok link → IsLink link
  unfolding parse_link
  parse_link-IsLink raw link h =
      let node_id = string_or "" (get "nodeId" raw) in
      let label = string_or "" (get "label" raw) in
      let (_, e1, h1) = >>=-eq-ok (require (is_object raw) _) _ h in
      let (_, e2, h2) = >>=-eq-ok (require (not (node_id == "") && not (label == "")) _) _ h1 in
      let (status, e3, h3) = >>=-eq-ok (status_of (get "status" raw)) _ h2 in
      let (targets, e4, h4) = >>=-eq-ok (parse_targets H (as_array (get "links" raw))) _ h3 in
      let (_, e5, h5) = >>=-eq-ok (check_targets status targets) _ h4 in
      let named = require-true (not (node_id == "") && not (label == "")) _ e2 in
      subst IsLink (ok-injective h5) record {
        named = λ e. ground (arith, named, eq_iff node_id "");
        labelled = λ e. ground (arith, named, eq_iff label "");
        fits = check_targets-FitsTargets status targets e5;
        local_targets = targets-local (as_array (get "links" raw)) targets e4;
      }

abbrev pub ids : List Link → List String
ids links = map (λ link. link.node_id) links

-- Among links with ids of their own, the search finds the link with the id.
find_skips :
    (link : Link) (links : List Link) (id : String)
    → link.node_id ≢ id
    → find (λ l. l.node_id == id) (link ∷ links) ≡ find (λ l. l.node_id == id) links
find_skips link links id other = ground (arith, eq_iff link.node_id id)

abbrev IsFound : List Link → Link → Type 0
IsFound links link = find (λ l. l.node_id == link.node_id) links ≡ some link

all_skip :
    (link : Link) (links rest : List Link)
    → All (λ id. id ≢ link.node_id) (ids rest)
    → All (IsFound links) rest
    → All (IsFound (link ∷ links)) rest
all_skip link links [] others found = tt
all_skip link links (r ∷ rest) (other, others) (f, found) = (
  find_skips link links r.node_id (λ e. other (sym e)) ∙ f,
  all_skip link links rest others found,
)

find-IsFound : (links : List Link) → Distinct (ids links) → All (IsFound links) links
find-IsFound [] d = tt
find-IsFound (link ∷ links) (others, d) =
    (here, all_skip link links links others (find-IsFound links d))
  where
    here : IsFound (link ∷ links) link
    here = rw (eq_refl link.node_id) refl

-- What the page may rely on.
pub record IsConsistent (link_data : LinkData) : Type 0 where
  pub distinct : Distinct (ids link_data.links)
  pub valid : All IsLink link_data.links
  pub resolved :
      All (λ link. resolve_ecosystem_cross_link link_data link.node_id ≡ link) link_data.links
  pub sourced : (link_data.link_meta.source_kind ≡ artifact) ⊎ (link_data.links ≡ [])

resolved_of :
    (link_data : LinkData)
    → Distinct (ids link_data.links)
    → All (λ link. resolve_ecosystem_cross_link link_data link.node_id ≡ link) link_data.links
unfolding resolve_ecosystem_cross_link
resolved_of link_data d =
    All-mono (λ link f. rw f refl) link_data.links (find-IsFound link_data.links d)

module _ (H : Host) where
  parse_contract_sound :
      (raw : Json) (c : Contract)
      → parse_contract H raw ≡ ok c
      → Distinct (ids c.links) × All IsLink c.links
  unfolding parse_contract
  parse_contract_sound raw c h =
      let (_, e1, h1) = >>=-eq-ok (require (is_object raw) _) _ h in
      let (_, e2, h2) =
        >>=-eq-ok
          (require (is_number (get "schemaVersion" raw) 1 && is_text (get "kind" raw) contract_kind)
            _)
          _ h1 in
      let (mappings, e3, h3) = >>=-eq-ok (list_or_throw (as_array (get "mappings" raw)) _) _ h2 in
      let (links, e4, h4) = >>=-eq-ok (traverse (parse_link H) mappings) _ h3 in
      let (_, e5, h5) = >>=-eq-ok (check_unique [] links) _ h4 in
      subst (λ (d : Contract). Distinct (ids d.links) × All IsLink d.links) (ok-injective h5)
        (
          (check_unique-Distinct [] links e5).1,
          Pointwise-All (λ raw link. parse_link H raw ≡ ok link) IsLink (parse_link-IsLink H)
              mappings links ((traverse-ok_iff (parse_link H) mappings links).0 e4),
        )

  read_contract_sound :
      (path : String) (c : Contract)
      → read_contract H path ≡ ok c
      → Distinct (ids c.links) × All IsLink c.links
  read_contract_sound path c h =
      let (text, e1, h1) = >>=-eq-ok (by_message (H.read_file path)) _ h in
      let (raw, e2, h2) = >>=-eq-ok (H.parse_json text) _ h1 in parse_contract_sound raw c h2

  -- Whatever the file holds, the ids of the links are distinct and neither they nor the labels empty,
  -- a link has a target exactly if it is linked, the address of every target begins with a slash, and
  -- each link is the one that its id resolves to; there are links only from a contract that was
  -- accepted.
  pub load_ecosystem_cross_links-IsConsistent : IsConsistent (load_ecosystem_cross_links H)
  unfolding load_ecosystem_cross_links
  load_ecosystem_cross_links-IsConsistent =
      let path = H.resolve (configured_links_path H) in
      elim (Result-cases (read_contract H path)) [
        | inl (c, e) ↦
            let (d, v) = read_contract_sound path c e in
            rw (e, load_ecosystem_cross_links)
              record { distinct = d; valid = v; resolved = resolved_of _ d; sourced = inl refl }
        | inr (m, e) ↦
            rw (e, load_ecosystem_cross_links)
              record { distinct = tt; valid = tt; resolved = tt; sourced = inr refl }
      ]
