-- ===== src/Checkouts/Parse/Contract.antt =====
-- What the validator accepts, and what becomes of what it refuses.
use leitstand.Common.{
  ◌≡◌, refl, ◌≢◌, ◌↔◌, true, String, eq_iff, Option, none, some, List, [], ◌∷◌, ok, traverse,
  traverse-ok_iff, Throws, returns, throws, throwing, Pointwise, Pointwise-mono, All, arith,
  Option-cases, inl, inr,
}
use leitstand.Json.{
  Json, string, array, Items, items, get, as_array, is_text, is_number, string_or, list_or_throw,
}
use leitstand.Json.Laws.{
  one, is_text_iff, is_number-one_iff, as_array-some_iff, string_or-empty_iff, get-some_object,
}
use leitstand.Snapshot.{corrupt, says}
use leitstand.Checkouts.Parse.{
  CheckoutView, Parsed, contract_kind, checkout_view, parse_checkout, parse_snapshot,
  classify_error, parsed_snapshot, normalize_retention,
}

-- The entry names its checkout.
pub record HasPath (raw : Json) : Type 0 where
  pub path : String
  pub path_read : get "path" raw ≡ some (string path)
  pub path_named : path ≢ ""

-- The contract of an inventory.
pub record IsSnapshot (raw : Json) : Type 0 where
  pub schema_version : get "schemaVersion" raw ≡ some one
  pub kind : get "kind" raw ≡ some (string contract_kind)
  pub entries : Items
  pub entries_read : get "checkouts" raw ≡ some (array entries)
  pub named : All HasPath (items entries)

pub parse_checkout_sound :
    (raw : Json) (t : CheckoutView)
    → parse_checkout raw ≡ ok t
    → (get "path" raw ≡ some (string t.path))
      × (t.path ≢ "")
      × (t.retention ≡ normalize_retention (get "retention" raw))
unfolding parse_checkout
parse_checkout_sound raw t h =
    let path = string_or "" (get "path" raw) in
    let named : path ≢ "" = λ e. ground (arith, eq_iff path "") in
    let same : path ≡ t.path = ground arith in
    (rw (← same) ((string_or-empty_iff _ path named).0 refl), rw (← same) named, ground arith)

parse_checkout_complete :
    (raw : Json) → HasPath raw → (t : CheckoutView) × (parse_checkout raw ≡ ok t)
unfolding parse_checkout
parse_checkout_complete raw h =
    let read = (string_or-empty_iff (get "path" raw) h.path h.path_named).1 h.path_read in
    (
      checkout_view h.path raw,
      ground
          (arith, read, get-some_object "path" raw (string h.path) h.path_read, eq_iff h.path ""),
    )

parse_checkouts_complete :
    (raws : List Json)
    → All HasPath raws
    → (ts : List CheckoutView) × (traverse parse_checkout raws ≡ ok ts)
parse_checkouts_complete [] h = ([], refl)
parse_checkouts_complete (raw ∷ raws) (p, q) =
    let (t, e) = parse_checkout_complete raw p in
    let (ts, f) = parse_checkouts_complete raws q in (t ∷ ts, rw (e, f))

HasPath-of_parsed :
    (raws : List Json) (ts : List CheckoutView)
    → Pointwise (λ raw t. parse_checkout raw ≡ ok t) raws ts
    → All HasPath raws
HasPath-of_parsed [] [] h = tt
HasPath-of_parsed [] (_ ∷ _) h = absurd h
HasPath-of_parsed (_ ∷ _) [] h = absurd h
HasPath-of_parsed (raw ∷ raws) (t ∷ ts) (p, q) =
    let (read, named, _) = parse_checkout_sound raw t p in
    (record { path = t.path; path_read = read; path_named = named }, HasPath-of_parsed raws ts q)

-- The steps of a successful validation.
parse_snapshot_steps :
    (raw : Json) (p : Parsed)
    → parse_snapshot raw ≡ ok p
    → (vs : List Json) × (is_number (get "schemaVersion" raw) 1 ≡ true)
      × (is_text (get "kind" raw) contract_kind ≡ true)
      × (as_array (get "checkouts" raw) ≡ some vs)
      × (traverse parse_checkout vs ≡ ok p.checkouts)
unfolding parse_snapshot
parse_snapshot_steps raw p h = elim (Option-cases (as_array (get "checkouts" raw))) [
  | inl unread ↦ absurd (ground arith)
  | inr (vs, read) ↦ (vs, ground arith, ground arith, read, ground arith)
]

parse_snapshot_sound : (raw : Json) (p : Parsed) → parse_snapshot raw ≡ ok p → IsSnapshot raw
parse_snapshot_sound raw p h =
    let (vs, version, kind, read, parsed) = parse_snapshot_steps raw p h in
    let (us, there, same) = (as_array-some_iff (get "checkouts" raw) vs).0 read in
    record {
      schema_version = (is_number-one_iff _).0 version;
      kind = (is_text_iff _ contract_kind).0 kind;
      entries = us;
      entries_read = there;
      named = rw same (
          HasPath-of_parsed vs p.checkouts
            ((traverse-ok_iff parse_checkout vs p.checkouts).0 parsed));
    }

parse_snapshot_complete : (raw : Json) → IsSnapshot raw → (p : Parsed) × (parse_snapshot raw ≡ ok p)
unfolding parse_snapshot
parse_snapshot_complete raw h =
    let (ts, parsed) = parse_checkouts_complete (items h.entries) h.named in
    let root = get-some_object "kind" raw _ h.kind in
    let version = (is_number-one_iff (get "schemaVersion" raw)).1 h.schema_version in
    let kind = (is_text_iff (get "kind" raw) contract_kind).1 h.kind in
    let read = (as_array-some_iff (get "checkouts" raw) _).1 (h.entries, h.entries_read, refl) in
    (parsed_snapshot ts raw, rw (root, version, kind, read, parsed))

-- The validator accepts exactly the snapshots that keep to the contract: version 1, the right kind,
-- and a list of entries each of which has a path.
pub parse_inventory_iff :
    (raw : Json) → ((p : Parsed) × (parse_snapshot raw ≡ ok p)) ↔ IsSnapshot raw
parse_inventory_iff raw = (λ (p, h). parse_snapshot_sound raw p h, parse_snapshot_complete raw)

abbrev pub IsEntry : Json → CheckoutView → Type 0
IsEntry raw t =
    (get "path" raw ≡ some (string t.path))
    × (t.retention ≡ normalize_retention (get "retention" raw))

-- No checkout is dropped, added or moved: they are those of the snapshot, place by place, each with
-- the path and the retention of its entry.
pub parse_snapshot-checkouts :
    (raw : Json) (p : Parsed)
    → parse_snapshot raw ≡ ok p
    → (us : Items) × (get "checkouts" raw ≡ some (array us))
      × Pointwise IsEntry (items us) p.checkouts
parse_snapshot-checkouts raw p h =
    let (vs, version, kind, read, parsed) = parse_snapshot_steps raw p h in
    let (us, there, same) = (as_array-some_iff (get "checkouts" raw) vs).0 read in
    let entries = (traverse-ok_iff parse_checkout vs p.checkouts).0 parsed in
    (
      us,
      there,
      rw same (
          Pointwise-mono (λ raw t. parse_checkout raw ≡ ok t) IsEntry
            (λ raw t e. let (read, named, state) = parse_checkout_sound raw t e in (read, state)) vs
            p.checkouts entries),
    )

abbrev pub IsCorrupt : String → Type 0
IsCorrupt message = classify_error message ≡ (corrupt, "checkout_inventory_corrupt")

checkout-Throws : (raw : Json) → Throws IsCorrupt (parse_checkout raw)
unfolding parse_checkout classify_error says
checkout-Throws raw = search throwing

list-Throws :
    (value : Option (List Json))
    → Throws IsCorrupt (list_or_throw value "invalid checkout inventory: checkouts must be a list")
unfolding classify_error says
list-Throws none = throws refl
list-Throws (some vs) = returns

-- Every error of the validator is classed as a corrupt snapshot.
pub parse_snapshot-IsCorrupt : (raw : Json) → Throws IsCorrupt (parse_snapshot raw)
unfolding parse_snapshot classify_error says
parse_snapshot-IsCorrupt raw = search (throwing, list-Throws, checkout-Throws) depth 9
