-- ===== src/EcosystemMap/Mermaid.antt =====
-- `NODE_DEFINITION` and `extractMermaidNodeIdentities` of src/controllers/ecosystemMapNavigation.ts.
pub mod Laws
use Prim.Native.Char.{Char, code}
use Prim.Native.String
use leitstand.Common.{
  ℕ, suc, Bool, true, false, not, ◌&&◌, ◌||◌, String, ◌==◌, Option, none, some, List, [], ◌∷◌,
  nat_eq, leb, length, if◌then◌else◌,
}
use leitstand.Common.Distinct.{has}
use leitstand.Common.Text.{codes, starts, skip, split, trim, trim_start}

pub record NodeIdentity : Type 0 where
  pub mermaid_id : String
  pub node_id : String
  pub label : String
  pub line : ℕ

abbrev pub is_letter : ℕ → Bool
is_letter c = (leb b'A' c && leb c b'Z') || (leb b'a' c && leb c b'z')

abbrev pub is_digit : ℕ → Bool
is_digit c = leb b'0' c && leb c b'9'

abbrev pub is_word : ℕ → Bool
is_word c = is_letter c || is_digit c || nat_eq c b'_'

-- The longest beginning of the text that has only such characters, and the rest: what `[…]*` takes.
unfoldable pub span : (ℕ → Bool) → String → String × String
span test String.[] = ("", "")
span test (String.◌∷◌ c s) =
    let (taken, rest) = span test s in
    if test (code c) then (String.◌∷◌ c taken, rest) else ("", String.◌∷◌ c s)

-- The text after a beginning that must be there.
unfoldable pub after : String → String → Option String
after prefix s = if starts s prefix then some (skip (length (codes prefix)) s) else none

abbrev drop_slash : String → String
drop_slash s = if starts s "/" then skip 1 s else s

abbrev and_then {ℓ} : {A : Type ℓ} → Option String → (String → Option A) → Option A
and_then none next = none
and_then (some s) next = next s

-- `<br\s*\/?\s*>`
unfoldable pub after_break : String → Option String
after_break s =
    and_then (after "<br" s) λ rest. after ">" (trim_start (drop_slash (trim_start rest)))

abbrev is_id_char : ℕ → Bool
is_id_char c = not (nat_eq c b'<') && not (nat_eq c b'"') && not (nat_eq c 10)

-- `<br\s*\/?\s*>id:\s*([^<"\n]+)<br\s*\/?\s*>`: the text between `id:` and the next `<`, of which the
-- group has what is left without its leading white space, or the last blank if there is nothing else;
-- only the trimmed group is used.
unfoldable pub match_id : String → Option String
match_id s = and_then (after_break s) λ rest. and_then (after "id:" rest) λ text.
    let (group, later) = span is_id_char text in
    if group == "" then none else and_then (after_break later) λ _. some group

-- `([^"\n]*?)` and the match after it: the shortest label with which the rest matches.
unfoldable pub match_label : String → Option (String × String)
match_label String.[] = none
match_label (String.◌∷◌ c s) = elim (match_id (String.◌∷◌ c s)) [
  | some group ↦ some ("", group)
  | none ↦ if nat_eq (code c) b'"' || nat_eq (code c) 10 then none else elim (match_label s) [
    | none ↦ none
    | some (label, group) ↦ some (String.◌∷◌ c label, group)
  ]
]

abbrev pub begins_with_letter : String → Bool
begins_with_letter String.[] = false
begins_with_letter (String.◌∷◌ c s) = is_letter (code c)

-- What the groups of `NODE_DEFINITION` hold.
unfoldable pub match_definition : String → Option (String × (String × String))
match_definition line =
    let (mermaid_id, rest) = span is_word (trim_start line) in
    if begins_with_letter mermaid_id
    then (and_then (after "[\"" rest)
        λ text. elim (match_label text) [ none ↦ none | some groups ↦ some (mermaid_id, groups) ])
    else none

-- An identity that is not named, or of which an id was seen, is passed over.
abbrev admit : List String → List String → ℕ → String → String → String → Option NodeIdentity
admit seen_mermaid_ids seen_node_ids index mermaid_id label node_id =
    if label == "" || node_id == "" || has seen_mermaid_ids mermaid_id || has seen_node_ids node_id
    then none
    else some
        (record { mermaid_id = mermaid_id; node_id = node_id; label = label; line = suc index })

-- One line: the identity that it adds to those that were seen.
unfoldable pub identity_of : List String → List String → ℕ → String → Option NodeIdentity
identity_of seen_mermaid_ids seen_node_ids index line = elim (match_definition line) [
  | none ↦ none
  | some (mermaid_id, (label, group)) ↦
      admit seen_mermaid_ids seen_node_ids index mermaid_id (trim label) (trim group)
]

-- The loop over the lines.
unfoldable pub identities_from : List String → List String → ℕ → List String → List NodeIdentity
identities_from seen_mermaid_ids seen_node_ids index [] = []
identities_from seen_mermaid_ids seen_node_ids index (line ∷ lines) =
    elim (identity_of seen_mermaid_ids seen_node_ids index line) [
      | none ↦ identities_from seen_mermaid_ids seen_node_ids (suc index) lines
      | some found ↦
          found
          ∷ identities_from (found.mermaid_id ∷ seen_mermaid_ids) (found.node_id ∷ seen_node_ids)
              (suc index) lines
    ]

unfoldable pub extract_mermaid_node_identities : String → List NodeIdentity
extract_mermaid_node_identities content = identities_from [] [] 0 (split 10 content)
