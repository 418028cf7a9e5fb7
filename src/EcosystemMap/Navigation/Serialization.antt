-- ===== src/EcosystemMap/Navigation/Serialization.antt =====
-- `serializeEcosystemMapNavigation`.
use Prim.Native.Char.{code}
use leitstand.Common.{
  ℕ, String, ◌<>◌, Option, none, some, List, [], ◌∷◌, map, nat_eq, if◌then◌else◌,
}
use leitstand.Host.{Host}
use leitstand.EcosystemMap.Nodes.{LifecycleState, state_name}
use leitstand.EcosystemMap.Navigation.{TargetKind, leitstand_page, systemkatalog, NodeNavigation}

-- `text.replace(/c/g, replacement)`
unfoldable pub replace_all : ℕ → String → String → String
replace_all c replacement String.[] = ""
replace_all c replacement (String.◌∷◌ d s) =
    let rest = replace_all c replacement s in
    if nat_eq (code d) c then replacement <> rest else String.◌∷◌ d rest

-- The escapes of `serializeEcosystemMapNavigation`.
unfoldable pub escape : String → String
escape json = replace_all 0x2029 "\\u2029" (
    replace_all 0x2028 "\\u2028"
      (replace_all b'&' "\\u0026" (replace_all b'>' "\\u003e" (replace_all b'<' "\\u003c" json))))

module _ (H : Host) where
  abbrev text_member : String → String → String
  text_member name value = "\"" <> name <> "\":" <> H.quote value

  abbrev nullable : Option String → String
  nullable none = "null"
  nullable (some s) = H.quote s

  abbrev kind_name : TargetKind → String
  kind_name leitstand_page = "leitstand"
  kind_name systemkatalog = "systemkatalog"

  abbrev lifecycle_name : Option LifecycleState → String
  lifecycle_name none = "unknown"
  lifecycle_name (some s) = state_name s

  -- `JSON.stringify` of one node, with its members in the order in which they were made.
  abbrev stringify_node : NodeNavigation → String
  stringify_node n =
      "{"
      <> text_member "mermaid_id" n.mermaid_id
      <> ","
      <> text_member "node_id" n.node_id
      <> ","
      <> text_member "label" n.label
      <> ","
      <> text_member "href" n.href
      <> ","
      <> text_member "title" n.title
      <> ","
      <> text_member "target_kind" (kind_name n.target_kind)
      <> ","
      <> text_member "source_href" n.source_href
      <> ","
      <> text_member "purpose" n.purpose
      <> ","
      <> text_member "lifecycle_state" (lifecycle_name n.lifecycle_state)
      <> ",\"lifecycle_reviewed_at\":"
      <> nullable n.lifecycle_reviewed_at
      <> "}"

  abbrev join_commas : List String → String
  join_commas [] = ""
  join_commas (s ∷ []) = s
  join_commas (s ∷ t ∷ rest) = s <> "," <> join_commas (t ∷ rest)

  unfoldable pub stringify : List NodeNavigation → String
  stringify navigation = "[" <> join_commas (map stringify_node navigation) <> "]"

  unfoldable pub serialize_ecosystem_map_navigation : List NodeNavigation → String
  serialize_ecosystem_map_navigation navigation = escape (stringify navigation)
