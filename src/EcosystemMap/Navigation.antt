-- ===== src/EcosystemMap/Navigation.antt =====
-- src/controllers/ecosystemMapNavigation.ts: the links of the nodes of the rendered map.
pub mod Laws
pub mod Serialization
pub mod Serialized
mod Tests
use Prim.Native.Char.{Char, code}
use Prim.Native.String
use leitstand.Common.{
  ℕ, Bool, true, false, not, ◌&&◌, ◌||◌, String, ◌==◌, ◌<>◌, Option, none, some, List, [], ◌∷◌, map,
  any, all, find, Result, ok, err, ◌>>=◌, ◌>>◌, require, traverse, nat_eq, if◌then◌else◌,
}
use leitstand.Common.Text.{codes, starts, split, print}
use leitstand.Host.{Host}
use leitstand.Snapshot.{text_or}
use leitstand.EcosystemMap.Links.{Link, LinkStatus, linked, unmapped, Target}
use leitstand.EcosystemMap.Manifest.{is_commit}
use leitstand.EcosystemMap.Mermaid.{
  NodeIdentity, is_letter, is_digit, extract_mermaid_node_identities,
}
use leitstand.EcosystemMap.Nodes.{LifecycleState, state_name}

pub data TargetKind : Type 0 where
  leitstand_page systemkatalog : TargetKind

-- The life cycle is `unknown` where there is none.
pub record NodeNavigation : Type 0 where
  pub mermaid_id : String
  pub node_id : String
  pub label : String
  pub href : String
  pub title : String
  pub target_kind : TargetKind
  pub source_href : String
  pub purpose : String
  pub lifecycle_state : Option LifecycleState
  pub lifecycle_reviewed_at : Option String

pub record NodeSemanticInput : Type 0 where
  pub node_id : String
  pub purpose : String
  pub lifecycle_state : LifecycleState
  pub lifecycle_reviewed_at : String

-- `[A-Za-z0-9_.-]`
abbrev is_name_char : ℕ → Bool
is_name_char c = is_letter c || is_digit c || nat_eq c b'_' || nat_eq c b'.' || nat_eq c b'-'

abbrev is_name : String → Bool
is_name s = not (s == "") && all is_name_char (codes s)

abbrev are_owner_and_name : List String → Bool
are_owner_and_name (owner ∷ name ∷ []) = is_name owner && is_name name
are_owner_and_name _ = false

-- `SOURCE_REPOSITORY`
unfoldable pub is_repository : String → Bool
is_repository s = are_owner_and_name (split b'/' s)

-- `pieces.join('/')`
abbrev join_slashes : List String → String
join_slashes [] = ""
join_slashes (s ∷ []) = s
join_slashes (s ∷ t ∷ rest) = s <> "/" <> join_slashes (t ∷ rest)

-- `new Map(xs.map((x) => [key(x), x])).get(id)`: of two with one key, the last.
unfoldable pub find_last {ℓ} : {A : Type ℓ} → (A → Bool) → List A → Option A
find_last p [] = none
find_last p (x ∷ xs) = elim (find_last p xs) [
  | some y ↦ some y
  | none ↦ if p x then some x else none
]

abbrev first_of : List Target → Option Target
first_of [] = none
first_of (t ∷ ts) = some t

abbrev target_by : LinkStatus → List Target → Option Target
target_by linked ts = first_of ts
target_by unmapped ts = none

-- `mapped?.status === 'linked' ? mapped.links[0] : undefined`
abbrev target_of : Option Link → Option Target
target_of none = none
target_of (some link) = target_by link.status link.links

abbrev kind_of : Option Target → TargetKind
kind_of none = systemkatalog
kind_of (some t) = leitstand_page

module _ (H : Host) where
  -- `encodeRepository` and `encodeArtifactPath`
  abbrev pub encode_path : String → String
  encode_path path = join_slashes (map H.encode_uri_component (split b'/' path))

  unfoldable pub canonical_source_href : String → String → String → ℕ → Result String
  canonical_source_href repository commit artifact_path line = do
    require (is_repository repository && is_commit commit) "invalid Systemkatalog source identity"
    require
        (not (artifact_path == "")
          && not (starts artifact_path "/")
          && not (any (λ piece. piece == "..") (split b'/' artifact_path)))
        "invalid Systemkatalog artifact path"
    ok (
        "https://github.com/"
        <> encode_path repository
        <> "/blob/"
        <> commit
        <> "/"
        <> encode_path artifact_path
        <> "?plain=1#L"
        <> print line)

  abbrev hrefs_of : Option Target → Option String
  hrefs_of none = none
  hrefs_of (some t) = some t.href

  abbrev title_of : Option Target → Option String
  title_of none = none
  title_of (some t) = some t.title

  abbrev purpose_of : Option NodeSemanticInput → String
  purpose_of none = ""
  purpose_of (some n) = n.purpose

  abbrev state_of : Option NodeSemanticInput → Option LifecycleState
  state_of none = none
  state_of (some n) = some n.lifecycle_state

  abbrev reviewed_at_of : Option NodeSemanticInput → Option String
  reviewed_at_of none = none
  reviewed_at_of (some n) =
      if n.lifecycle_reviewed_at == "" then none else some n.lifecycle_reviewed_at

  abbrev navigation_of :
      NodeIdentity → String → Option Target → Option NodeSemanticInput → NodeNavigation
  navigation_of identity source_href target semantics = record {
    mermaid_id = identity.mermaid_id;
    node_id = identity.node_id;
    label = identity.label;
    href = text_or (hrefs_of target) source_href;
    title = text_or (title_of target) (identity.label <> " im kanonischen Systemkatalog öffnen");
    target_kind = kind_of target;
    source_href = source_href;
    purpose = purpose_of semantics;
    lifecycle_state = state_of semantics;
    lifecycle_reviewed_at = reviewed_at_of semantics;
  }

  -- The function that is mapped over the identities.
  unfoldable pub navigate :
      List Link
      → String
      → String
      → String
      → List NodeSemanticInput
      → NodeIdentity
      → Result NodeNavigation
  navigate cross_links repository commit map_path semantics identity = do
    source_href ← canonical_source_href repository commit map_path identity.line
    ok (
        navigation_of identity source_href
          (target_of (find_last (λ (l : Link). l.node_id == identity.node_id) cross_links))
          (find_last (λ (n : NodeSemanticInput). n.node_id == identity.node_id) semantics))

  unfoldable pub build_ecosystem_map_navigation :
      String
      → List Link
      → String
      → String
      → String
      → List NodeSemanticInput
      → Result (List NodeNavigation)
  build_ecosystem_map_navigation content cross_links repository commit map_path semantics =
      traverse (navigate cross_links repository commit map_path semantics)
        (extract_mermaid_node_identities content)
