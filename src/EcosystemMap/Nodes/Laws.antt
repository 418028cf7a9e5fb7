-- ===== src/EcosystemMap/Nodes/Laws.antt =====
-- What the nodes of the map keep to, whatever the registry holds.
use leitstand.Common.{
  ℕ, suc, ◌+◌, Bool, true, false, ◌≡◌, refl, sym, ap, ◌∙◌, subst, ◌≢◌, inl, inr, String, Option,
  none, some, List, [], ◌∷◌, map, count, length, if◌then◌else◌, ok, require, All, arith,
  Option-cases, Result-cases, >>=-eq-ok, require-true, ok-injective,
}
use leitstand.Common.Distinct.{has, Distinct, New, New-step, Distinct-step, all_distinct-Distinct}
use leitstand.Json.{Json, get, get_in, as_array, string_or}
use leitstand.Host.{Host}
use leitstand.EcosystemMap.Calendar.{is_exact_calendar_date}
use leitstand.EcosystemMap.Artifacts.{ArtifactView}
use leitstand.EcosystemMap.Nodes.{
  LifecycleState, active, transition, reference, archived, retired, declared, unavailable,
  NodeSemantics, LifecycleCounts, SemanticInspection, empty_lifecycle_counts, increment, is_trimmed,
  is_node, some_or_throw, state_of, evidence_of, texts_of, when_references, parse_node, Walk,
  parse_nodes, without_nodes, inspect_list, inspect_content, inspect_semantic_nodes,
  non_empty_content,
}

abbrev pub is_state : LifecycleState → LifecycleState → Bool
is_state active active = true
is_state transition transition = true
is_state reference reference = true
is_state archived archived = true
is_state retired retired = true
is_state _ _ = false

abbrev pub count_of : LifecycleState → LifecycleCounts → ℕ
count_of active c = c.active_count
count_of transition c = c.transition_count
count_of reference c = c.reference_count
count_of archived c = c.archived_count
count_of retired c = c.retired_count

-- The nodes of a state are those that are counted under it.
abbrev nodes_in : LifecycleState → List NodeSemantics → ℕ
nodes_in s ns = count (λ n. is_state s n.lifecycle_state) ns

pub record IsReviewed (n : NodeSemantics) : Type 0 where
  pub identified : is_trimmed n.node_id ≡ true
  pub dated : is_exact_calendar_date n.lifecycle_reviewed_at ≡ true
  pub evident : n.lifecycle_evidence_refs ≢ []
  pub distinct_evidence : Distinct n.lifecycle_evidence_refs

when_references-Distinct :
    (o : Option (List String)) (refs : List String)
    → when_references o ≡ some refs
    → (refs ≢ []) × Distinct refs
when_references-Distinct none refs h = cc
when_references-Distinct (some []) refs h = cc
when_references-Distinct (some (s ∷ ss)) refs h =
    let same : s ∷ ss ≡ refs = ground arith in
    subst (λ l. (l ≢ []) × Distinct l) same
      ((λ e. cc), all_distinct-Distinct (s ∷ ss) (ground arith))

evidence_of-Distinct :
    (o : Option (List Json)) (refs : List String)
    → evidence_of o ≡ some refs
    → (refs ≢ []) × Distinct refs
evidence_of-Distinct none refs h = cc
evidence_of-Distinct (some vs) refs h = when_references-Distinct (texts_of vs) refs h

given-some {ℓ} :
    {A : Type ℓ} {o : Option A} (message : String) {a : A}
    → some_or_throw o message ≡ ok a
    → o ≡ some a
given-some {o = some b} message h = ground arith
given-some {o = none} message h = cc

parse_node-IsReviewed :
    (seen : List String) (index : ℕ) (item : Json) (n : NodeSemantics)
    → parse_node seen index item ≡ ok n
    → IsReviewed n × (has seen n.node_id ≡ false)
unfolding parse_node
parse_node-IsReviewed seen index item n h =
    let lifecycle = get "lifecycle" item in
    let date = string_or "" (get_in "reviewedAt" lifecycle) in
    let evidence = evidence_of (as_array (get_in "evidenceRefs" lifecycle)) in
    let (_, e1, h1) = >>=-eq-ok (require (is_node seen item) _) _ h in
    let (s, e2, h2) = >>=-eq-ok (some_or_throw (state_of (get_in "state" lifecycle)) _) _ h1 in
    let (_, e3, h3) = >>=-eq-ok (require (is_exact_calendar_date date) _) _ h2 in
    let (refs, e4, h4) = >>=-eq-ok (some_or_throw evidence _) _ h3 in
    let node = require-true (is_node seen item) _ e1 in
    let (some_refs, distinct_refs) =
      evidence_of-Distinct (as_array (get_in "evidenceRefs" lifecycle)) refs (given-some _ e4) in
    subst (λ (m : NodeSemantics). IsReviewed m × (has seen m.node_id ≡ false)) (ok-injective h4)
      (
        record {
          identified = ground arith;
          dated = require-true (is_exact_calendar_date date) _ e3;
          evident = some_refs;
          distinct_evidence = distinct_refs;
        },
        ground arith,
      )

abbrev pub ids : List NodeSemantics → List String
ids ns = map (λ n. n.node_id) ns

-- The nodes that a walk gives, after those that were `seen` and counted.
record IsWalk (seen : List String) (counts : LifecycleCounts) (items : List Json) (w : Walk)
    : Type 0 where
  fresh : New seen (ids w.nodes)
  distinct : Distinct (ids w.nodes)
  reviewed : All IsReviewed w.nodes
  counted : (s : LifecycleState) → count_of s w.counts ≡ count_of s counts + nodes_in s w.nodes
  whole : length w.nodes ≡ length items

count-increment :
    (s t : LifecycleState) (c : LifecycleCounts) (m : ℕ)
    → count_of s (increment t c) + m ≡ count_of s c + (if is_state s t then suc m else m)
count-increment s t c m = grind arith

nodes_in-cons :
    (s : LifecycleState) (n : NodeSemantics) (ns : List NodeSemantics)
    → nodes_in s (n ∷ ns)
      ≡ (if is_state s n.lifecycle_state then suc (nodes_in s ns) else nodes_in s ns)
nodes_in-cons s n ns = ground arith

parse_nodes-IsWalk :
    (seen : List String) (counts : LifecycleCounts) (index : ℕ) (items : List Json) (w : Walk)
    → parse_nodes seen counts index items ≡ ok w
    → IsWalk seen counts items w
unfolding parse_nodes
parse_nodes-IsWalk seen counts index [] w h =
    subst (IsWalk seen counts []) (ok-injective h)
      record { fresh = tt; distinct = tt; reviewed = tt; counted = λ s. omega arith; whole = refl }
parse_nodes-IsWalk seen counts index (item ∷ items) w h =
    let (n, e1, h1) = >>=-eq-ok (parse_node seen index item) _ h in
    let (later, e2, h2) =
      >>=-eq-ok
        (parse_nodes (n.node_id ∷ seen) (increment n.lifecycle_state counts) (suc index) items) _
        h1 in
    let ih =
      parse_nodes-IsWalk (n.node_id ∷ seen) (increment n.lifecycle_state counts) (suc index) items
        later e2 in
    let (reviewed, unseen) = parse_node-IsReviewed seen index item n e1 in
    subst (IsWalk seen counts (item ∷ items)) (ok-injective h2) record {
      fresh = (unseen, New-step seen n.node_id _ ih.fresh);
      distinct = (Distinct-step seen n.node_id _ ih.fresh, ih.distinct);
      reviewed = (reviewed, ih.reviewed);
      counted = λ s.
          ih.counted s
          ∙ count-increment s n.lifecycle_state counts _
          ∙ ap (λ k. count_of s counts + k) (sym (nodes_in-cons s n later.nodes));
      whole = ap suc ih.whole;
    }

-- What the page may rely on.
pub record IsConsistent (s : SemanticInspection) : Type 0 where
  pub distinct : Distinct (ids s.nodes)
  pub reviewed : All IsReviewed s.nodes
  pub counted : (t : LifecycleState) → count_of t s.lifecycle_counts ≡ nodes_in t s.nodes
  pub whole : s.review_state ≡ declared → length s.nodes ≡ s.declared_node_count
  pub withheld : s.review_state ≡ unavailable → s.nodes ≡ []

pub without_nodes-IsConsistent : (n : ℕ) (reason : String) → IsConsistent (without_nodes n reason)
without_nodes-IsConsistent n reason = record {
  distinct = tt;
  reviewed = tt;
  counted = λ t. grind arith;
  whole = λ h. cc;
  withheld = λ h. refl;
}

module _ (H : Host) where
  inspect_list-IsConsistent : (o : Option (List Json)) → IsConsistent (inspect_list H o)
  inspect_list-IsConsistent none = without_nodes-IsConsistent 0 _
  inspect_list-IsConsistent (some []) = without_nodes-IsConsistent 0 _
  inspect_list-IsConsistent (some (v ∷ vs)) =
      elim (Result-cases (parse_nodes [] empty_lifecycle_counts 0 (v ∷ vs))) [
        | inr (m, e) ↦ rw e (without_nodes-IsConsistent (length (v ∷ vs)) _)
        | inl (w, e) ↦
            let walk = parse_nodes-IsWalk [] empty_lifecycle_counts 0 (v ∷ vs) w e in
            rw e record {
              distinct = walk.distinct;
              reviewed = walk.reviewed;
              counted = λ t. walk.counted t ∙ grind arith;
              whole = λ h. walk.whole;
              withheld = λ h. cc;
            }
      ]

  inspect_content-IsConsistent : (content : String) → IsConsistent (inspect_content H content)
  inspect_content-IsConsistent content = elim (Result-cases (H.parse_json content)) [
    | inr (m, e) ↦ rw (e, inspect_content) (without_nodes-IsConsistent 0 _)
    | inl (raw, e) ↦
        rw (e, inspect_content) (inspect_list-IsConsistent (as_array (get "nodes" raw)))
  ]

  -- The nodes have distinct ids and each a reviewed life cycle, dated with a day of the calendar and
  -- with evidence; the counters are the numbers of the nodes in each state. Either all nodes that the
  -- registry declares are shown, or none.
  pub inspect_semantic_nodes-IsConsistent :
      (artifact : Option ArtifactView) → IsConsistent (inspect_semantic_nodes H artifact)
  unfolding inspect_semantic_nodes
  inspect_semantic_nodes-IsConsistent artifact = elim (Option-cases (non_empty_content artifact)) [
    | inl e ↦ rw (e, inspect_semantic_nodes) (without_nodes-IsConsistent 0 _)
    | inr (content, e) ↦ rw (e, inspect_semantic_nodes) (inspect_content-IsConsistent content)
  ]
