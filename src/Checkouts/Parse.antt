-- ===== src/Checkouts/Parse.antt =====
-- The validator: `normalizeRetention`, `classifyError`, `parseCheckout`, `parseSnapshot`.
pub mod Contract
use leitstand.Common.{
  ℕ, Bool, true, false, not, ◌&&◌, ◌||◌, String, ◌==◌, Option, none, some, List, [], ◌∷◌, Result,
  ok, err, ◌>>=◌, ◌>>◌, require, traverse, if◌then◌else◌,
}
use leitstand.Common.Text.{codes, lower, same}
use leitstand.Json.{
  Json, get, is_object, as_string, string_or, as_array, is_text, is_true, is_number,
  nullable_string, string_array, non_empty_or, list_or_throw,
}
use leitstand.Snapshot.{SourceKind, missing, corrupt, says}

pub data Retention : Type 0 where
  orphan archivable retained unknown : Retention

pub record CheckoutView : Type 0 where
  pub path : String
  pub repo : Option String
  pub branch : Option String
  pub head : Option String
  pub retention : Retention
  pub has_process : Bool
  pub has_resource_lease : Bool
  pub matches_runtime : Bool
  pub note : String

pub record Parsed : Type 0 where
  pub checkouts : List CheckoutView
  pub generated_at : Option String
  pub does_not_establish : List String

abbrev pub contract_kind : String
contract_kind = "leitstand_checkout_inventory"

abbrev pub default_non_claims : List String
default_non_claims =
    "checkout_ownership" ∷ "cleanup_authority" ∷ "branch_deletion" ∷ "retention_decision"
    ∷ "process_control" ∷ []

-- `v === word`, for the `v` in lower case.
is_word : List ℕ → String → Bool
unfolding same
is_word v word = same v (codes word)

unfoldable pub normalize_retention : Option Json → Retention
unfolding is_word lower
normalize_retention value =
    let v = lower (codes (string_or "" value)) in
    if is_word v "retained" || is_word v "kept" || is_word v "owned"
    then retained
    else if is_word v "archivable" || is_word v "archived" || is_word v "stale"
    then archivable
    else if is_word v "orphan" || is_word v "orphaned" || is_word v "untracked"
    then orphan
    else unknown

unfoldable pub classify_error : String → SourceKind × String
classify_error message =
    if says message "enoent" || says message "no such file"
    then (missing, "checkout_inventory_missing")
    else if says message "json" || says message "invalid" || says message "unexpected"
    then (corrupt, "checkout_inventory_corrupt")
    else (corrupt, "checkout_inventory_load_failed")

abbrev checkout_view : String → Json → CheckoutView
checkout_view path entry = record {
  path = path;
  repo = nullable_string (get "repo" entry);
  branch = nullable_string (get "branch" entry);
  head = nullable_string (get "head" entry);
  retention = normalize_retention (get "retention" entry);
  has_process = is_true (get "hasProcess" entry);
  has_resource_lease = is_true (get "hasResourceLease" entry);
  matches_runtime = is_true (get "matchesRuntime" entry);
  note = string_or "" (get "note" entry);
}

unfoldable pub parse_checkout : Json → Result CheckoutView
parse_checkout raw = do
  require (is_object raw) "invalid checkout entry: must be object"
  let path = string_or "" (get "path" raw)
  require (not (path == "")) "invalid checkout entry: missing path"
  ok (checkout_view path raw)

abbrev parsed_snapshot : List CheckoutView → Json → Parsed
parsed_snapshot checkouts snapshot = record {
  checkouts = checkouts;
  generated_at = as_string (get "generatedAt" snapshot);
  does_not_establish =
      non_empty_or (string_array (get "doesNotEstablish" snapshot)) default_non_claims;
}

unfoldable pub parse_snapshot : Json → Result Parsed
unfolding parse_checkout
parse_snapshot raw = do
  require (is_object raw) "invalid checkout inventory: root must be object"
  require (is_number (get "schemaVersion" raw) 1 && is_text (get "kind" raw) contract_kind)
      "invalid checkout inventory: kind or schemaVersion mismatch"
  entries ←
      list_or_throw (as_array (get "checkouts" raw))
        "invalid checkout inventory: checkouts must be a list"
  checkouts ← traverse parse_checkout entries
  ok (parsed_snapshot checkouts raw)
