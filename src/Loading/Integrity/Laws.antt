-- ===== src/Loading/Integrity/Laws.antt =====
-- What is loaded: one pass over the listed files, every summary under the label of its source.
use leitstand.Common.{
  ◌≡◌, refl, subst, sym, ◌≢◌, ◌↔◌, inl, inr, Bool, true, false, String, eq_iff, Option, none, some,
  Option-cases, List, [], ◌∷◌, ◌++◌, All, filter_map, length, find, arith, if◌then◌else◌,
}
use leitstand.Json.{
  Json, null, boolean, number, string, array, object, Members, end, member, get, get_member,
  is_record,
}
use leitstand.Host.{Host, Attempt-cases, Fault, done, failed}
use leitstand.Loading.Files.{read_json_file, LoadSource, artifact, fixture, missing}
use leitstand.Loading.Fallback.Laws.{ReadOutcome-cases}
use leitstand.Loading.Integrity.{
  IntegrityOptions, IntegrityResult, source_name, set_member, tagged, load_integrity_file,
  json_files, load_directory, add_legacy, load_from, or_missing, result_of,
  load_integrity_summaries, same_value,
}
use leitstand.Loading.Integrity.Batches.{load_batches-filter_map}

-- The batches of a directory give what one pass over its JSON files, in their order, gives.
pub load_directory-filter_map :
    (H : Host) (label : LoadSource) (dir : String) (files : List String)
    → H.read_dir dir ≡ done files
    → load_directory H label dir
      ≡ filter_map
          (λ file. load_integrity_file H label (H.join (dir ∷ file ∷ [])))
          (json_files H files)
unfolding load_directory
load_directory-filter_map H label dir files h =
    let found = json_files H files in
    rw (h, load_directory)
      (load_batches-filter_map (λ file. load_integrity_file H label (H.join (dir ∷ file ∷ [])))
        (length found) 0 found [] (omega arith))

get_member-set_member :
    (key : String) (v : Json) (ms : Members) → get_member key (set_member key v ms) ≡ some v
get_member-set_member key v end = ground (arith, eq_iff key key)
get_member-set_member key v (member k u rest) =
    ground (arith, eq_iff k key, get_member-set_member key v rest)

-- An object carries the label of its source.
abbrev pub IsLabelled : LoadSource → Json → Type 0
IsLabelled label v = is_record v ≡ true → get "_source" v ≡ some (string (source_name label))

tagged-IsLabelled : (label : LoadSource) (u v : Json) → tagged label u ≡ some v → IsLabelled label v
tagged-IsLabelled label (object ms) v h r =
    ground (arith, get_member-set_member "_source" (string (source_name label)) ms)
tagged-IsLabelled label (array vs) v h r = ground arith
tagged-IsLabelled label null v h r = cc
tagged-IsLabelled label (boolean b) v h r = cc
tagged-IsLabelled label (number n) v h r = cc
tagged-IsLabelled label (string s) v h r = cc

load_integrity_file-IsLabelled :
    (H : Host) (label : LoadSource) (path : String) (v : Json)
    → load_integrity_file H label path ≡ some v
    → IsLabelled label v
unfolding load_integrity_file
load_integrity_file-IsLabelled H label path v h = elim (ReadOutcome-cases (read_json_file H path)) [
  | inr (e, unloaded) ↦ absurd (ground arith)
  | inl (u, loads) ↦ tagged-IsLabelled label u v (ground arith)
]

All-append : {A : Type 0} (P : A → Type 0) (xs ys : List A) → All P xs → All P ys → All P (xs ++ ys)
All-append P [] ys h k = k
All-append P (x ∷ xs) ys (p, h) k = (p, All-append P xs ys h k)

All-filter_map :
    {A B : Type 0} (P : B → Type 0) (f : A → Option B)
    → ((a : A) (b : B) → f a ≡ some b → P b)
    → (xs : List A) → All P (filter_map f xs)
All-filter_map P f h [] = tt
All-filter_map P f h (x ∷ xs) = elim (Option-cases (f x)) [
  | inl e ↦ ground (arith, All-filter_map P f h xs)
  | inr (b, e) ↦ ground (arith, h x b e, All-filter_map P f h xs)
]

load_directory-unlisted :
    (H : Host) (label : LoadSource) (dir : String) (fault : Fault)
    → H.read_dir dir ≡ failed fault
    → load_directory H label dir ≡ []
unfolding load_directory
load_directory-unlisted H label dir fault e = ground arith

load_directory-IsLabelled :
    (H : Host) (label : LoadSource) (dir : String)
    → All (IsLabelled label) (load_directory H label dir)
load_directory-IsLabelled H label dir = elim (Attempt-cases (H.read_dir dir)) [
  | inr (fault, e) ↦
      subst (All (IsLabelled label)) (sym (load_directory-unlisted H label dir fault e)) tt
  | inl (files, e) ↦
      subst (All (IsLabelled label)) (sym (load_directory-filter_map H label dir files e)) (
        All-filter_map (IsLabelled label)
          (λ file. load_integrity_file H label (H.join (dir ∷ file ∷ [])))
          (λ file v. load_integrity_file-IsLabelled H label (H.join (dir ∷ file ∷ [])) v)
          (json_files H files))
]

add_legacy-IsLabelled :
    (H : Host) (label : LoadSource) (legacy : Option Json) (vs : List Json)
    → ((v : Json) → legacy ≡ some v → IsLabelled label v)
    → All (IsLabelled label) vs
    → All (IsLabelled label) (add_legacy H legacy vs)
unfolding add_legacy
add_legacy-IsLabelled H label none vs k h = h
add_legacy-IsLabelled H label (some legacy) vs k h =
    elim (Option-cases (find (λ s. same_value (get "repo" s) (get "repo" legacy)) vs)) [
      | inl e ↦
          rw (e, add_legacy) (All-append (IsLabelled label) vs (legacy ∷ []) h (k legacy refl, tt))
      | inr (s, e) ↦ rw (e, add_legacy) h
    ]

load_from-IsLabelled :
    (H : Host) (label : LoadSource) (dir path : String)
    → All (IsLabelled label) (load_from H label dir path)
unfolding load_from
load_from-IsLabelled H label dir path =
    add_legacy-IsLabelled H label (load_integrity_file H label path) (load_directory H label dir)
      (λ v. load_integrity_file-IsLabelled H label path v) (load_directory-IsLabelled H label dir)

pub record IsConsistent (o : IntegrityOptions) (r : IntegrityResult) : Type 0 where
  pub empty : (r.source ≡ missing) ↔ (r.summaries ≡ [])
  pub strictly : o.strict ≡ true → r.source ≢ fixture
  pub labelled : All (IsLabelled r.source) r.summaries

result-IsConsistent :
    (o : IntegrityOptions) (label : LoadSource) (v : Json) (vs : List Json) (reason : String)
    → label ≢ missing
    → (o.strict ≡ true → label ≢ fixture)
    → All (IsLabelled label) (v ∷ vs)
    → (H : Host) → IsConsistent o (result_of H (v ∷ vs) label reason)
result-IsConsistent o label v vs reason present strictly labelled H = record {
  empty = (λ e. absurd (present e), λ e. cc);
  strictly = strictly;
  labelled = labelled;
}

absent-IsConsistent :
    (o : IntegrityOptions) (H : Host) → IsConsistent o (result_of H [] missing "enoent")
absent-IsConsistent o H = record {
  empty = (λ e. refl, λ e. refl);
  strictly = λ s e. cc;
  labelled = tt;
}

or_missing-IsConsistent :
    (o : IntegrityOptions) (H : Host) (vs : List Json) (label : LoadSource) (reason : String)
    (other : IntegrityResult)
    → label ≢ missing
    → (o.strict ≡ true → label ≢ fixture)
    → All (IsLabelled label) vs
    → IsConsistent o other
    → IsConsistent o (or_missing H vs label reason other)
or_missing-IsConsistent o H [] label reason other present strictly labelled k = k
or_missing-IsConsistent o H (v ∷ vs) label reason other present strictly labelled k =
    result-IsConsistent o label v vs reason present strictly labelled H

IsConsistent-if :
    (o : IntegrityOptions) (r s : IntegrityResult) (b : Bool)
    → (b ≡ true → IsConsistent o r)
    → (b ≡ false → IsConsistent o s)
    → IsConsistent o (if b then r else s)
IsConsistent-if o r s true h k = h refl
IsConsistent-if o r s false h k = k refl

-- The result is marked as missing exactly if it holds no summary, it comes from the fixtures in no
-- strict run, and every summary that is an object carries the label of the source of the result.
pub load_integrity_summaries-IsConsistent :
    (H : Host) (o : IntegrityOptions) → IsConsistent o (load_integrity_summaries H o)
unfolding load_integrity_summaries
load_integrity_summaries-IsConsistent H o =
    or_missing-IsConsistent o H (load_from H artifact o.artifact_dir o.legacy_artifact_path)
      artifact "ok" _ (λ e. cc) (λ s e. cc)
      (load_from-IsLabelled H artifact o.artifact_dir o.legacy_artifact_path)
      (IsConsistent-if o _ _ o.strict (λ strict. absent-IsConsistent o H)
        (λ lax.
          or_missing-IsConsistent o H (load_from H fixture o.fixture_dir o.legacy_fixture_path)
            fixture "fallback" _ (λ e. cc) (λ s e. cc)
            (load_from-IsLabelled H fixture o.fixture_dir o.legacy_fixture_path)
            (absent-IsConsistent o H)))
