-- ===== src/Bureau/Parse/Contract.antt =====
-- What the validator accepts, and what becomes of what it refuses.
use leitstand.Common.{
  ◌≡◌, refl, ◌≢◌, ◌↔◌, true, String, eq_iff, Option, none, some, List, [], ◌∷◌, ok, traverse,
  traverse-ok_iff, Throws, returns, throws, throwing, Pointwise, Pointwise-mono, All, arith,
  Option-cases, inl, inr,
}
use leitstand.Json.{
  Json, string, array, Items, items, get, as_array, is_text, is_number, string_or, list_or_throw,
}
use leitstand.Json.Laws.{
  one, is_text_iff, is_number-one_iff, as_array-some_iff, string_or-empty_iff, get-some_object,
}
use leitstand.Snapshot.{corrupt, says}
use leitstand.Bureau.Parse.{
  TaskView, Parsed, contract_kind, task_view, parse_task, parse_snapshot, classify_error,
  parsed_snapshot, normalize_state,
}

-- The entry names its task.
pub record HasId (raw : Json) : Type 0 where
  pub id : String
  pub id_read : get "id" raw ≡ some (string id)
  pub id_named : id ≢ ""

-- The contract of a task snapshot.
pub record IsSnapshot (raw : Json) : Type 0 where
  pub schema_version : get "schemaVersion" raw ≡ some one
  pub kind : get "kind" raw ≡ some (string contract_kind)
  pub entries : Items
  pub entries_read : get "tasks" raw ≡ some (array entries)
  pub named : All HasId (items entries)

pub parse_task_sound :
    (raw : Json) (t : TaskView)
    → parse_task raw ≡ ok t
    → (get "id" raw ≡ some (string t.id))
      × (t.id ≢ "")
      × (t.state ≡ normalize_state (get "state" raw))
unfolding parse_task
parse_task_sound raw t h =
    let id = string_or "" (get "id" raw) in
    let named : id ≢ "" = λ e. ground (arith, eq_iff id "") in
    let same : id ≡ t.id = ground arith in
    (rw (← same) ((string_or-empty_iff _ id named).0 refl), rw (← same) named, ground arith)

parse_task_complete : (raw : Json) → HasId raw → (t : TaskView) × (parse_task raw ≡ ok t)
unfolding parse_task
parse_task_complete raw h =
    let read = (string_or-empty_iff (get "id" raw) h.id h.id_named).1 h.id_read in
    (
      task_view h.id raw,
      ground (arith, read, get-some_object "id" raw (string h.id) h.id_read, eq_iff h.id ""),
    )

parse_tasks_complete :
    (raws : List Json) → All HasId raws → (ts : List TaskView) × (traverse parse_task raws ≡ ok ts)
parse_tasks_complete [] h = ([], refl)
parse_tasks_complete (raw ∷ raws) (p, q) =
    let (t, e) = parse_task_complete raw p in
    let (ts, f) = parse_tasks_complete raws q in (t ∷ ts, rw (e, f))

HasId-of_parsed :
    (raws : List Json) (ts : List TaskView)
    → Pointwise (λ raw t. parse_task raw ≡ ok t) raws ts
    → All HasId raws
HasId-of_parsed [] [] h = tt
HasId-of_parsed [] (_ ∷ _) h = absurd h
HasId-of_parsed (_ ∷ _) [] h = absurd h
HasId-of_parsed (raw ∷ raws) (t ∷ ts) (p, q) =
    let (read, named, _) = parse_task_sound raw t p in
    (record { id = t.id; id_read = read; id_named = named }, HasId-of_parsed raws ts q)

-- The steps of a successful validation.
parse_snapshot_steps :
    (raw : Json) (p : Parsed)
    → parse_snapshot raw ≡ ok p
    → (vs : List Json) × (is_number (get "schemaVersion" raw) 1 ≡ true)
      × (is_text (get "kind" raw) contract_kind ≡ true)
      × (as_array (get "tasks" raw) ≡ some vs)
      × (traverse parse_task vs ≡ ok p.tasks)
unfolding parse_snapshot
parse_snapshot_steps raw p h = elim (Option-cases (as_array (get "tasks" raw))) [
  | inl unread ↦ absurd (ground arith)
  | inr (vs, read) ↦ (vs, ground arith, ground arith, read, ground arith)
]

parse_snapshot_sound : (raw : Json) (p : Parsed) → parse_snapshot raw ≡ ok p → IsSnapshot raw
parse_snapshot_sound raw p h =
    let (vs, version, kind, read, parsed) = parse_snapshot_steps raw p h in
    let (us, there, same) = (as_array-some_iff (get "tasks" raw) vs).0 read in
    record {
      schema_version = (is_number-one_iff _).0 version;
      kind = (is_text_iff _ contract_kind).0 kind;
      entries = us;
      entries_read = there;
      named =
          rw same (HasId-of_parsed vs p.tasks ((traverse-ok_iff parse_task vs p.tasks).0 parsed));
    }

parse_snapshot_complete : (raw : Json) → IsSnapshot raw → (p : Parsed) × (parse_snapshot raw ≡ ok p)
unfolding parse_snapshot
parse_snapshot_complete raw h =
    let (ts, parsed) = parse_tasks_complete (items h.entries) h.named in
    let root = get-some_object "kind" raw _ h.kind in
    let version = (is_number-one_iff (get "schemaVersion" raw)).1 h.schema_version in
    let kind = (is_text_iff (get "kind" raw) contract_kind).1 h.kind in
    let read = (as_array-some_iff (get "tasks" raw) _).1 (h.entries, h.entries_read, refl) in
    (parsed_snapshot ts raw, rw (root, version, kind, read, parsed))

-- The validator accepts exactly the snapshots that keep to the contract: version 1, the right kind,
-- and a list of tasks each of which has an id.
pub parse_snapshot_iff :
    (raw : Json) → ((p : Parsed) × (parse_snapshot raw ≡ ok p)) ↔ IsSnapshot raw
parse_snapshot_iff raw = (λ (p, h). parse_snapshot_sound raw p h, parse_snapshot_complete raw)

abbrev pub IsEntry : Json → TaskView → Type 0
IsEntry raw t = (get "id" raw ≡ some (string t.id)) × (t.state ≡ normalize_state (get "state" raw))

-- No task is dropped, added or moved: the tasks are those of the snapshot, place by place, each with
-- the id and the state of its entry.
pub parse_snapshot-tasks :
    (raw : Json) (p : Parsed)
    → parse_snapshot raw ≡ ok p
    → (us : Items) × (get "tasks" raw ≡ some (array us)) × Pointwise IsEntry (items us) p.tasks
parse_snapshot-tasks raw p h =
    let (vs, version, kind, read, parsed) = parse_snapshot_steps raw p h in
    let (us, there, same) = (as_array-some_iff (get "tasks" raw) vs).0 read in
    let entries = (traverse-ok_iff parse_task vs p.tasks).0 parsed in
    (
      us,
      there,
      rw same (
          Pointwise-mono (λ raw t. parse_task raw ≡ ok t) IsEntry
            (λ raw t e. let (read, named, state) = parse_task_sound raw t e in (read, state)) vs
            p.tasks entries),
    )

abbrev pub IsCorrupt : String → Type 0
IsCorrupt message = classify_error message ≡ (corrupt, "bureau_snapshot_corrupt")

task-Throws : (raw : Json) → Throws IsCorrupt (parse_task raw)
unfolding parse_task classify_error says
task-Throws raw = search throwing

list-Throws :
    (value : Option (List Json))
    → Throws IsCorrupt (list_or_throw value "invalid Bureau snapshot: tasks must be a list")
unfolding classify_error says
list-Throws none = throws refl
list-Throws (some vs) = returns

-- Every error of the validator is classed as a corrupt snapshot.
pub parse_snapshot-IsCorrupt : (raw : Json) → Throws IsCorrupt (parse_snapshot raw)
unfolding parse_snapshot classify_error says
parse_snapshot-IsCorrupt raw = search (throwing, list-Throws, task-Throws) depth 9
