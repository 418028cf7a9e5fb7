-- ===== src/EcosystemMap/Mermaid/Laws.antt =====
-- The nodes that are found in the text of the map.
use leitstand.Common.{
  ℕ, suc, ◌+◌, ◌≤◌, ◌<◌, false, ◌||◌, ◌≡◌, refl, ◌≢◌, inl, inr, String, ◌==◌, eq_iff, some, List,
  [], ◌∷◌, map, length, All, All-mono, arith, Option-cases, subst, sym, ◌∙◌, true, false-ne-true,
  Bool-cases,
}
use leitstand.Common.Distinct.{has, Distinct, New, New-step, Distinct-step}
use leitstand.Common.Text.{split, trim, trim_start}
use leitstand.EcosystemMap.Mermaid.{
  NodeIdentity, is_word, span, after, match_label, begins_with_letter, match_definition, admit,
  identity_of, identities_from, extract_mermaid_node_identities,
}

abbrev pub node_ids : List NodeIdentity → List String
node_ids ns = map (λ n. n.node_id) ns

abbrev pub mermaid_ids : List NodeIdentity → List String
mermaid_ids ns = map (λ n. n.mermaid_id) ns

-- A node that is named, on one of the lines from `first` on.
pub record IsNamed (first last : ℕ) (n : NodeIdentity) : Type 0 where
  pub lettered : begins_with_letter n.mermaid_id ≡ true
  pub named : n.mermaid_id ≢ ""
  pub labelled : n.label ≢ ""
  pub identified : n.node_id ≢ ""
  pub after_first : first < n.line
  pub by_last : n.line ≤ last

earlier : (i last : ℕ) (n : NodeIdentity) → IsNamed (suc i) last n → IsNamed i last n
earlier i last n h = record {
  lettered = h.lettered;
  named = h.named;
  labelled = h.labelled;
  identified = h.identified;
  after_first = omega (arith, h.after_first);
  by_last = h.by_last;
}

-- An identity that the line with the index `i` adds.
record IsAdded (ms ns : List String) (i : ℕ) (n : NodeIdentity) : Type 0 where
  new_mermaid_id : has ms n.mermaid_id ≡ false
  new_node_id : has ns n.node_id ≡ false
  lettered : begins_with_letter n.mermaid_id ≡ true
  labelled : n.label ≢ ""
  identified : n.node_id ≢ ""
  placed : n.line ≡ suc i

admit-IsAdded :
    (ms ns : List String) (i : ℕ) (m label id : String) (n : NodeIdentity)
    → begins_with_letter m ≡ true
    → admit ms ns i m label id ≡ some n
    → IsAdded ms ns i n
admit-IsAdded ms ns i m label id n letter h =
    let kept : (label == "" || id == "" || has ms m || has ns id) ≡ false = ground arith in
    let same : record { mermaid_id = m; node_id = id; label = label; line = suc i } ≡ n =
      ground arith in
    subst (IsAdded ms ns i) same record {
      new_mermaid_id = ground arith;
      new_node_id = ground arith;
      lettered = letter;
      labelled = λ e. ground (arith, eq_iff label "");
      identified = λ e. ground (arith, eq_iff id "");
      placed = refl;
    }

letter_is_named : (s : String) → begins_with_letter s ≡ true → s ≢ ""
letter_is_named s h e = false-ne-true (subst (λ t. begins_with_letter t ≡ true) e h)

match_definition-letter :
    (line : String) (groups : String × (String × String))
    → match_definition line ≡ some groups
    → begins_with_letter groups.0 ≡ true
unfolding match_definition
match_definition-letter line groups h =
    let parts = span is_word (trim_start line) in
    elim (Bool-cases (begins_with_letter parts.0)) [
      | inr e ↦ absurd (ground arith)
      | inl e ↦ elim (Option-cases (after "[\"" parts.1)) [
        | inl none_there ↦ absurd (ground arith)
        | inr (text, f) ↦ elim (Option-cases (match_label text)) [
          | inl none_there ↦ absurd (ground arith)
          | inr (found, g) ↦
              let same : (parts.0, found) ≡ groups = ground arith in
              subst (λ (gs : String × (String × String)). begins_with_letter gs.0 ≡ true) same e
        ]
      ]
    ]

identity_of-IsAdded :
    (ms ns : List String) (i : ℕ) (line : String) (n : NodeIdentity)
    → identity_of ms ns i line ≡ some n
    → IsAdded ms ns i n
unfolding identity_of
identity_of-IsAdded ms ns i line n h = elim (Option-cases (match_definition line)) [
  | inl e ↦ absurd (ground arith)
  | inr (groups, e) ↦
      let (mermaid_id, (label, group)) = groups in
      let same : identity_of ms ns i line ≡ admit ms ns i mermaid_id (trim label) (trim group) =
        rw (e, identity_of) refl in
      admit-IsAdded ms ns i mermaid_id (trim label) (trim group) n
        (match_definition-letter line groups e) (sym same ∙ h)
]

record IsExtracted (ms ns : List String) (i last : ℕ) (found : List NodeIdentity) : Type 0 where
  mermaid_new : New ms (mermaid_ids found)
  mermaid_distinct : Distinct (mermaid_ids found)
  node_new : New ns (node_ids found)
  node_distinct : Distinct (node_ids found)
  named : All (IsNamed i last) found

identities_from-IsExtracted :
    (ms ns : List String) (i last : ℕ) (lines : List String)
    → i + length lines ≤ last
    → IsExtracted ms ns i last (identities_from ms ns i lines)
unfolding identities_from
identities_from-IsExtracted ms ns i last [] le = record {
  mermaid_new = tt;
  mermaid_distinct = tt;
  node_new = tt;
  node_distinct = tt;
  named = tt;
}
identities_from-IsExtracted ms ns i last (line ∷ lines) le =
    elim (Option-cases (identity_of ms ns i line)) [
      | inl e ↦
          let later = identities_from-IsExtracted ms ns (suc i) last lines (omega (arith, le)) in
          rw (e, identities_from)
            record {
              mermaid_new = later.mermaid_new;
              mermaid_distinct = later.mermaid_distinct;
              node_new = later.node_new;
              node_distinct = later.node_distinct;
              named = All-mono (λ n h. earlier i last n h) _ later.named;
            }
      | inr (n, e) ↦
          let here = identity_of-IsAdded ms ns i line n e in
          let later =
            identities_from-IsExtracted (n.mermaid_id ∷ ms) (n.node_id ∷ ns) (suc i) last lines
              (omega (arith, le)) in
          rw (e, identities_from)
            record {
              mermaid_new = (here.new_mermaid_id, New-step ms n.mermaid_id _ later.mermaid_new);
              mermaid_distinct =
                  (Distinct-step ms n.mermaid_id _ later.mermaid_new, later.mermaid_distinct);
              node_new = (here.new_node_id, New-step ns n.node_id _ later.node_new);
              node_distinct = (Distinct-step ns n.node_id _ later.node_new, later.node_distinct);
              named = (
                record {
                  lettered = here.lettered;
                  named = letter_is_named n.mermaid_id here.lettered;
                  labelled = here.labelled;
                  identified = here.identified;
                  after_first = omega (arith, here.placed);
                  by_last = omega (arith, here.placed, le);
                },
                All-mono (λ n h. earlier i last n h) _ later.named,
              );
            }
    ]

-- What the text of the map gives.
pub record AreIdentities (content : String) (found : List NodeIdentity) : Type 0 where
  pub mermaid_distinct : Distinct (mermaid_ids found)
  pub node_distinct : Distinct (node_ids found)
  pub named : All (IsNamed 0 (length (split 10 content))) found

-- The nodes that are found have distinct ids of both kinds and a label, none of them empty, the id in
-- the text of the map begins with a letter, and each is placed on a line of the text, counted from 1.
pub extract_mermaid_node_identities-AreIdentities :
    (content : String) → AreIdentities content (extract_mermaid_node_identities content)
unfolding extract_mermaid_node_identities
extract_mermaid_node_identities-AreIdentities content =
    let found =
      identities_from-IsExtracted [] [] 0 (length (split 10 content)) (split 10 content)
        (omega arith) in
    record {
      mermaid_distinct = found.mermaid_distinct;
      node_distinct = found.node_distinct;
      named = found.named;
    }
