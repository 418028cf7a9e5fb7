-- ===== src/RepoBrief/Parse/Bundles.antt =====
-- Where the pointers of an accepted bundle lead.
use leitstand.Common.{
  ◌≡◌, subst, ◌≢◌, true, false, ◌&&◌, String, ◌==◌, eq_iff, List, [], ◌∷◌, any, any-nat_eq, All, ok,
  require, require-true, >>=-eq-ok, ok-injective, traverse, traverse-ok_iff, Pointwise-All, arith,
  all,
}
use leitstand.Common.Text.{codes, starts, split}
use leitstand.Json.{Json, get, is_object, string_or, is_number, is_text, as_array, list_or_throw}
use leitstand.RepoBrief.Parse.{
  BundleView, Parsed, contract_kind, is_named, is_safe_browser_pointer, parse_bundle, parse_index,
}

-- A relative path that stays below where it starts.
pub record IsBelow (s : String) : Type 0 where
  pub named : s ≢ ""
  pub relative : starts s "/" ≡ false
  pub unescaped : All (λ c. c ≢ 0x5c) (codes s)
  pub forward : All (λ piece. piece ≢ "..") (split b'/' s)

pub record IsSafe (b : BundleView) : Type 0 where
  pub directory : IsBelow b.bundle_directory
  pub manifest : IsBelow b.bundle_manifest
  pub pack : IsBelow b.agent_reading_pack
  pub dump : IsBelow b.canonical_dump

no_parent :
    (pieces : List String)
    → any (λ piece. piece == "..") pieces ≡ false
    → All (λ piece. piece ≢ "..") pieces
no_parent [] h = tt
no_parent (piece ∷ pieces) h =
    ((λ e. ground (arith, eq_iff piece "..")), no_parent pieces (ground arith))

is_safe_browser_pointer-IsBelow : (s : String) → is_safe_browser_pointer s ≡ true → IsBelow s
unfolding is_safe_browser_pointer
is_safe_browser_pointer-IsBelow s h = record {
  named = λ e. ground (arith, eq_iff s "");
  relative = ground arith;
  unescaped = any-nat_eq 0x5c (codes s) (ground arith);
  forward = no_parent (split b'/' s) (ground arith);
}

parse_bundle-IsSafe : (raw : Json) (b : BundleView) → parse_bundle raw ≡ ok b → IsSafe b
unfolding parse_bundle
parse_bundle-IsSafe raw b h =
    let repo = string_or "" (get "repo" raw) in
    let stem = string_or "" (get "bundleStem" raw) in
    let directory = string_or "" (get "bundleDirectory" raw) in
    let manifest = string_or "" (get "bundleManifest" raw) in
    let pack = string_or "" (get "agentReadingPack" raw) in
    let dump = string_or "" (get "canonicalDump" raw) in
    let (_, _, h1) = >>=-eq-ok (require (is_object raw) _) _ h in
    let (_, _, h2) =
      >>=-eq-ok (require (all is_named (repo ∷ stem ∷ directory ∷ manifest ∷ pack ∷ dump ∷ [])) _) _
        h1 in
    let (_, safe, h3) =
      >>=-eq-ok (require (all is_safe_browser_pointer (directory ∷ manifest ∷ pack ∷ dump ∷ [])) _)
        _ h2 in
    let tested =
      require-true (all is_safe_browser_pointer (directory ∷ manifest ∷ pack ∷ dump ∷ [])) _ safe in
    subst IsSafe (ok-injective h3) (record {
      directory = is_safe_browser_pointer-IsBelow directory (ground arith);
      manifest = is_safe_browser_pointer-IsBelow manifest (ground arith);
      pack = is_safe_browser_pointer-IsBelow pack (ground arith);
      dump = is_safe_browser_pointer-IsBelow dump (ground arith);
    })

pub parse_index-IsSafe : (raw : Json) (p : Parsed) → parse_index raw ≡ ok p → All IsSafe p.bundles
unfolding parse_index
parse_index-IsSafe raw p h =
    let (_, _, h1) = >>=-eq-ok (require (is_object raw) _) _ h in
    let (_, _, h2) =
      >>=-eq-ok
        (require (is_number (get "schemaVersion" raw) 1 && is_text (get "kind" raw) contract_kind)
          _)
        _ h1 in
    let (vs, _, h3) = >>=-eq-ok (list_or_throw (as_array (get "bundles" raw)) _) _ h2 in
    let (bs, parsed, h4) = >>=-eq-ok (traverse parse_bundle vs) _ h3 in
    subst (λ (p : Parsed). All IsSafe p.bundles) (ok-injective h4)
      (Pointwise-All (λ v b. parse_bundle v ≡ ok b) IsSafe parse_bundle-IsSafe vs bs
        ((traverse-ok_iff parse_bundle vs bs).0 parsed))
