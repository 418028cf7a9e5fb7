-- ===== src/EcosystemMap/Links.antt =====
-- src/controllers/ecosystemMapLinks.ts: the contract of the links from a node of the map to the pages.
pub mod Laws
use leitstand.Common.{
  Bool, true, false, not, ◌&&◌, ◌||◌, String, ◌==◌, ◌<>◌, Option, none, some, List, [], ◌∷◌, find,
  Result, ok, err, ◌>>=◌, ◌>>◌, require, traverse, if◌then◌else◌,
}
use leitstand.Common.Distinct.{has}
use leitstand.Common.Text.{starts}
use leitstand.Json.{
  Json, string, get, is_object, as_string, string_or, as_array, is_text, is_number, string_array,
  list_or_throw, truthy,
}
use leitstand.Host.{text_of, Host, by_message}
use leitstand.Snapshot.{SourceKind, artifact, missing, corrupt, says, text_or}

pub data LinkStatus : Type 0 where
  linked unmapped : LinkStatus

pub record Target : Type 0 where
  pub view : String
  pub href : String
  pub title : String

pub record Link : Type 0 where
  pub node_id : String
  pub label : String
  pub status : LinkStatus
  pub reason : Option String
  pub links : List Target

-- `cross_link_meta`
pub record LinkMeta : Type 0 where
  pub source_kind : SourceKind
  pub source_path : String
  pub missing_reason : String
  pub does_not_establish : List String

pub record LinkData : Type 0 where
  pub links : List Link
  pub link_meta : LinkMeta

pub record Contract : Type 0 where
  pub links : List Link
  pub non_claims : List String

abbrev pub contract_kind : String
contract_kind = "leitstand_ecosystem_map_cross_view_links"

abbrev pub default_non_claims : List String
default_non_claims =
    "relation_truth" ∷ "runtime_dependency" ∷ "change_impact" ∷ "claim_truth" ∷ "dispatch_readiness"
    ∷ []

unfoldable pub classify_error : String → SourceKind × String
classify_error message =
    if says message "enoent" || says message "no such file"
    then (missing, "cross_link_contract_missing")
    else if says message "json" || says message "invalid" || says message "unexpected"
    then (corrupt, "cross_link_contract_corrupt")
    else (corrupt, "cross_link_contract_load_failed")

-- `if (!value) throw …`
abbrev given : Option Json → String → Result Json
given none message = err message
given (some v) message = ok v

-- The call of `startsWith` on a value that is not text.
abbrev href_text : Json → Result String
href_text (string s) = ok s
href_text _ = err "target.href.startsWith is not a function"

abbrev status_of : Option Json → Result LinkStatus
status_of value =
    if is_text value "linked"
    then ok linked
    else if is_text value "unmapped"
    then ok unmapped
    else err "invalid cross-view link: unsupported status"

abbrev check_targets : LinkStatus → List Target → Result (Unit {0})
check_targets linked [] = err "invalid cross-view link: linked nodes need at least one target"
check_targets linked (t ∷ ts) = ok tt
check_targets unmapped [] = ok tt
check_targets unmapped (t ∷ ts) =
    err "invalid cross-view link: unmapped nodes must not have targets"

-- The loop over the links, after those of which the ids were `seen`.
unfoldable pub check_unique : List String → List Link → Result (Unit {0})
check_unique seen [] = ok tt
check_unique seen (link ∷ links) =
    let rest = check_unique (link.node_id ∷ seen) links in
    if has seen link.node_id
    then err ("invalid cross-link contract: duplicate node " <> link.node_id)
    else rest

abbrev non_claims_of : Option (List Json) → Option Json → List String
non_claims_of none value = default_non_claims
non_claims_of (some vs) value = string_array value

module _ (H : Host) where
  unfoldable pub parse_target : Json → Result Target
  parse_target raw = do
    require (is_object raw) "invalid cross-view target: must be object"
    view ← given (truthy (get "view" raw)) "invalid cross-view target: missing fields"
    href ← given (truthy (get "href" raw)) "invalid cross-view target: missing fields"
    title ← given (truthy (get "title" raw)) "invalid cross-view target: missing fields"
    path ← href_text href
    require (starts path "/") "invalid cross-view target: href must be local"
    view_text ← text_of H view
    title_text ← text_of H title
    ok (record { view = view_text; href = path; title = title_text })

  -- `Array.isArray(link.links) ? link.links.map(parseTarget) : []`
  abbrev parse_targets : Option (List Json) → Result (List Target)
  parse_targets none = ok []
  parse_targets (some raws) = traverse parse_target raws

  unfoldable pub parse_link : Json → Result Link
  parse_link raw = do
    require (is_object raw) "invalid cross-view link: must be object"
    let node_id = string_or "" (get "nodeId" raw)
    let label = string_or "" (get "label" raw)
    require (not (node_id == "") && not (label == ""))
        "invalid cross-view link: nodeId and label are required"
    status ← status_of (get "status" raw)
    targets ← parse_targets (as_array (get "links" raw))
    check_targets status targets
    ok (record {
      node_id = node_id;
      label = label;
      status = status;
      reason = as_string (get "reason" raw);
      links = targets;
    })

  unfoldable pub parse_contract : Json → Result Contract
  parse_contract raw = do
    require (is_object raw) "invalid cross-link contract: root must be object"
    require (is_number (get "schemaVersion" raw) 1 && is_text (get "kind" raw) contract_kind)
        "invalid cross-link contract: kind or schemaVersion mismatch"
    mappings ←
        list_or_throw (as_array (get "mappings" raw))
          "invalid cross-link contract: mappings must be a list"
    links ← traverse parse_link mappings
    check_unique [] links
    let value = get "doesNotEstablish" raw
    ok (record { links = links; non_claims = non_claims_of (as_array value) value })

  abbrev pub configured_links_path : String
  configured_links_path =
      text_or (H.env "LEITSTAND_ECOSYSTEM_MAP_LINKS_PATH")
        (H.join (H.cwd ∷ "src" ∷ "fixtures" ∷ "ecosystem-map-links.json" ∷ []))

  abbrev pub empty_link_data : SourceKind → String → String → LinkData
  empty_link_data kind reason source_path = record {
    links = [];
    link_meta = record {
      source_kind = kind;
      source_path = source_path;
      missing_reason = reason;
      does_not_establish = default_non_claims;
    };
  }

  abbrev read_contract : String → Result Contract
  read_contract source_path = do
    text ← by_message (H.read_file source_path)
    raw ← H.parse_json text
    parse_contract raw

  unfoldable pub load_ecosystem_cross_links : LinkData
  load_ecosystem_cross_links =
      let source_path = H.resolve configured_links_path in
      elim (read_contract source_path) [
        | ok parsed ↦ record {
          links = parsed.links;
          link_meta = record {
            source_kind = artifact;
            source_path = source_path;
            missing_reason = "ok";
            does_not_establish = parsed.non_claims;
          };
        }
        | err message ↦
            let (kind, reason) = classify_error message in empty_link_data kind reason source_path
      ]

-- `data.links.find(…) || {…}`
abbrev or_unmapped : Option Link → String → Link
or_unmapped (some link) node_id = link
or_unmapped none node_id = record {
  node_id = node_id;
  label = node_id;
  status = unmapped;
  reason = some "node_id_not_in_cross_view_contract";
  links = [];
}

unfoldable pub resolve_ecosystem_cross_link : LinkData → String → Link
resolve_ecosystem_cross_link link_data node_id =
    or_unmapped (find (λ link. link.node_id == node_id) link_data.links) node_id
