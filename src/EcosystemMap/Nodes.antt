-- ===== src/EcosystemMap/Nodes.antt =====
-- `inspectSemanticNodes`: the nodes of the registry with their reviewed life cycle.
pub mod Laws
use leitstand.Common.{
  ℕ, suc, ◌+◌, Bool, true, false, not, ◌&&◌, ◌||◌, String, ◌==◌, ◌<>◌, Option, none, some, List, [],
  ◌∷◌, map, sort_by, Result, ok, err, ◌>>=◌, ◌>>◌, require, length, if◌then◌else◌,
}
use leitstand.Common.Distinct.{has, all_distinct}
use leitstand.Common.Text.{trim, print}
use leitstand.Json.{
  Json, string, array, get, get_in, is_record, as_string, as_array, is_text, string_or,
}
use leitstand.Host.{Host}
use leitstand.Snapshot.{text_or}
use leitstand.EcosystemMap.Artifacts.{ArtifactView}
use leitstand.EcosystemMap.Calendar.{is_exact_calendar_date}

pub data LifecycleState : Type 0 where
  active transition reference archived retired : LifecycleState

pub data ReviewState : Type 0 where
  declared unavailable : ReviewState

pub record NodeSemantics : Type 0 where
  pub node_id : String
  pub name : String
  pub node_type : String
  pub purpose : String
  pub lifecycle_state : LifecycleState
  pub lifecycle_reviewed_at : String
  pub lifecycle_evidence_refs : List String

-- `Record<EcosystemMapLifecycleState, number>`
pub record LifecycleCounts : Type 0 where
  pub active_count : ℕ
  pub transition_count : ℕ
  pub reference_count : ℕ
  pub archived_count : ℕ
  pub retired_count : ℕ

pub record SemanticInspection : Type 0 where
  pub nodes : List NodeSemantics
  pub declared_node_count : ℕ
  pub review_state : ReviewState
  pub review_reason : String
  pub reviewed_at : Option String
  pub lifecycle_counts : LifecycleCounts

abbrev pub empty_lifecycle_counts : LifecycleCounts
empty_lifecycle_counts = record {
  active_count = 0;
  transition_count = 0;
  reference_count = 0;
  archived_count = 0;
  retired_count = 0;
}

-- `counts[state] += 1`
abbrev pub increment : LifecycleState → LifecycleCounts → LifecycleCounts
increment active c = record c { active_count = c.active_count + 1 }
increment transition c = record c { transition_count = c.transition_count + 1 }
increment reference c = record c { reference_count = c.reference_count + 1 }
increment archived c = record c { archived_count = c.archived_count + 1 }
increment retired c = record c { retired_count = c.retired_count + 1 }

abbrev pub state_name : LifecycleState → String
state_name active = "active"
state_name transition = "transition"
state_name reference = "reference"
state_name archived = "archived"
state_name retired = "retired"

-- `LIFECYCLE_STATES.includes(state)`
abbrev state_of : Option Json → Option LifecycleState
state_of value =
    if is_text value "active"
    then some active
    else if is_text value "transition"
    then some transition
    else if is_text value "reference"
    then some reference
    else if is_text value "archived"
    then some archived
    else if is_text value "retired"
    then some retired
    else none

-- Text that is neither blank nor has white space at its ends.
abbrev pub is_trimmed : String → Bool
is_trimmed s = not (trim s == "") && s == trim s

abbrev is_named : Option Json → Bool
is_named value = not (trim (string_or "" value) == "")

abbrev cons_if_trimmed : String → Option (List String) → Option (List String)
cons_if_trimmed s none = none
cons_if_trimmed s (some ss) = if is_trimmed s then some (s ∷ ss) else none

abbrev texts_of : List Json → Option (List String)
texts_of [] = some []
texts_of (string s ∷ vs) = cons_if_trimmed s (texts_of vs)
texts_of (_ ∷ vs) = none

abbrev when_references : Option (List String) → Option (List String)
when_references none = none
when_references (some []) = none
when_references (some (s ∷ ss)) = if all_distinct (s ∷ ss) then some (s ∷ ss) else none

abbrev evidence_of : Option (List Json) → Option (List String)
evidence_of none = none
evidence_of (some vs) = when_references (texts_of vs)

abbrev is_some_record : Option Json → Bool
is_some_record none = false
is_some_record (some v) = is_record v

abbrev some_or_throw {ℓ} : {A : Type ℓ} → Option A → String → Result A
some_or_throw none message = err message
some_or_throw (some a) message = ok a

abbrev message_at : ℕ → String → String
message_at index what = "registry node " <> print index <> what

-- The node's own fields, after those nodes of which the ids were `seen`.
abbrev is_node : List String → Json → Bool
is_node seen item =
    is_record item
    && is_trimmed (string_or "" (get "id" item))
    && is_named (get "name" item)
    && is_named (get "type" item)
    && is_named (get "purpose" item)
    && is_some_record (get "lifecycle" item)
    && not (has seen (string_or "" (get "id" item)))

unfoldable pub parse_node : List String → ℕ → Json → Result NodeSemantics
parse_node seen index item = do
  require (is_node seen item) (message_at index " fields mismatch")
  let lifecycle = get "lifecycle" item
  state ←
      some_or_throw (state_of (get_in "state" lifecycle)) (message_at index " lifecycle mismatch")
  let reviewed_at = string_or "" (get_in "reviewedAt" lifecycle)
  require (is_exact_calendar_date reviewed_at) (message_at index " lifecycle mismatch")
  evidence_refs ←
      some_or_throw (evidence_of (as_array (get_in "evidenceRefs" lifecycle)))
        (message_at index " lifecycle mismatch")
  ok (record {
    node_id = string_or "" (get "id" item);
    name = string_or "" (get "name" item);
    node_type = string_or "" (get "type" item);
    purpose = string_or "" (get "purpose" item);
    lifecycle_state = state;
    lifecycle_reviewed_at = reviewed_at;
    lifecycle_evidence_refs = evidence_refs;
  })

pub record Walk : Type 0 where
  pub nodes : List NodeSemantics
  pub counts : LifecycleCounts

-- `raw.nodes.map(…)`, which adds to `seenNodeIds` and to `counts` on its way.
unfoldable pub parse_nodes : List String → LifecycleCounts → ℕ → List Json → Result Walk
parse_nodes seen counts index [] = ok (record { nodes = []; counts = counts })
parse_nodes seen counts index (item ∷ rest) = do
  node ← parse_node seen index item
  walk ← parse_nodes (node.node_id ∷ seen) (increment node.lifecycle_state counts) (suc index) rest
  ok (record walk { nodes = node ∷ walk.nodes })

-- `texts.sort(…)[0] || null`
abbrev first_or_null : List String → Option String
first_or_null [] = none
first_or_null (s ∷ ss) = if s == "" then none else some s

abbrev pub without_nodes : ℕ → String → SemanticInspection
without_nodes declared_node_count reason = record {
  nodes = [];
  declared_node_count = declared_node_count;
  review_state = unavailable;
  review_reason = reason;
  reviewed_at = none;
  lifecycle_counts = empty_lifecycle_counts;
}

abbrev non_empty_content : Option ArtifactView → Option String
non_empty_content none = none
non_empty_content (some a) = elim a.content [
  | none ↦ none
  | some content ↦ if content == "" then none else some content
]

abbrev reason_of : Option ArtifactView → Option String
reason_of none = none
reason_of (some a) = a.missing_reason

module _ (H : Host) where
  unfoldable pub earliest_review : List NodeSemantics → Option String
  unfolding sort_by
  earliest_review nodes =
      first_or_null
        (sort_by H.locale_le (map (λ (n : NodeSemantics). n.lifecycle_reviewed_at) nodes))

  abbrev declared_nodes : ℕ → Result Walk → SemanticInspection
  declared_nodes count (err message) = without_nodes count "registry_lifecycle_contract_unavailable"
  declared_nodes count (ok walk) = record {
    nodes = walk.nodes;
    declared_node_count = count;
    review_state = declared;
    review_reason = "registry_lifecycle_contract_verified";
    reviewed_at = earliest_review walk.nodes;
    lifecycle_counts = walk.counts;
  }

  abbrev inspect_list : Option (List Json) → SemanticInspection
  inspect_list none = without_nodes 0 "registry_nodes_contract_mismatch"
  inspect_list (some []) = without_nodes 0 "registry_nodes_contract_mismatch"
  inspect_list (some (v ∷ vs)) =
      declared_nodes (length (v ∷ vs)) (parse_nodes [] empty_lifecycle_counts 0 (v ∷ vs))

  abbrev inspect_content : String → SemanticInspection
  inspect_content content = elim (H.parse_json content) [
    | err message ↦ without_nodes 0 "registry_lifecycle_contract_unavailable"
    | ok raw ↦ inspect_list (as_array (get "nodes" raw))
  ]

  unfoldable pub inspect_semantic_nodes : Option ArtifactView → SemanticInspection
  inspect_semantic_nodes artifact = elim (non_empty_content artifact) [
    | none ↦ without_nodes 0 (text_or (reason_of artifact) "registry_nodes_unavailable")
    | some content ↦ inspect_content content
  ]
