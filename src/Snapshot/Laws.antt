-- ===== src/Snapshot/Laws.antt =====
-- Which source a page shows: the artifact, the fixture in its place, or nothing.
use leitstand.Common.{
  ◌≡◌, refl, ◌↔◌, ◌⊎◌, inl, inr, true, false, not, ◌||◌, Bool-cases, String, Option, none, some,
  Result-cases, ok, err, >>=-eq-ok, arith,
}
use leitstand.Json.{Json}
use leitstand.Host.{Host, done, by_message}
use leitstand.Snapshot.{
  Controller, SourceKind, artifact, fixture, missing, corrupt, is_missing, is_set, load_snapshot,
  artifact_path, fixture_path, load_fixture, fixture_fallback_enabled, recover, get_data,
}

-- What a controller has to keep to: `kind_of` reads the source kind off the page.
pub record IsLawful {Parsed View : Type 0} (C : Controller Parsed View)
    (kind_of : View → SourceKind) : Type 0 where
  pub kind-empty_data :
      (k : SourceKind) (reason path root : String) → kind_of (C.empty_data k reason path root) ≡ k
  pub kind-data_from_parsed :
      (p : Parsed) (k : SourceKind) (path reason root : String)
      → kind_of (C.data_from_parsed p k path reason root) ≡ k
  pub classify-cases :
      (m : String) → ((C.classify_error m).0 ≡ missing) ⊎ ((C.classify_error m).0 ≡ corrupt)

module _ (H : Host) {Parsed View : Type 0} (C : Controller Parsed View)
    (option : Option String) where
  abbrev pub page_root : String
  page_root = H.resolve (elim option [ none ↦ H.cwd | some given ↦ given ])

  -- The artifact is missing, the operator chose no path, the fallback is on, and the fixture loads.
  pub record StandsIn : Type 0 where
    pub message : String
    pub unread : load_snapshot H C (H.resolve (artifact_path H C page_root)) ≡ err message
    pub is_missing_kind : (C.classify_error message).0 ≡ missing
    pub no_override : H.env C.path_variable ≡ none
    pub enabled : fixture_fallback_enabled H C.fallback_variable ≡ true
    pub parsed : Parsed
    pub loads : load_snapshot H C (H.resolve (fixture_path H C page_root)) ≡ ok parsed

is_set-none : (o : Option String) → is_set o ≡ false → o ≡ none
is_set-none none h = refl
is_set-none (some s) h = cc

is_missing-missing : (k : SourceKind) → is_missing k ≡ true → k ≡ missing
is_missing-missing missing h = refl
is_missing-missing artifact h = cc
is_missing-missing fixture h = cc
is_missing-missing corrupt h = cc

-- An error path shows no fixture.
kind_of_error : {k : SourceKind} → (k ≡ missing) ⊎ (k ≡ corrupt) → k ≡ fixture → ⊥
kind_of_error (inl m) e = cc
kind_of_error (inr c) e = cc

module _ (H : Host) {Parsed View : Type 0} (C : Controller Parsed View)
    (kind_of : View → SourceKind) (L : IsLawful C kind_of) where
  -- A fixture is shown only where the catch block loads it.
  recover-fixture :
      (root path m : String)
      → kind_of (recover H C root path m) ≡ fixture
      → (is_set (H.env C.path_variable) ≡ false)
        × (is_missing (C.classify_error m).0 ≡ true)
        × (fixture_fallback_enabled H C.fallback_variable ≡ true)
        × (kind_of (load_fixture H C root) ≡ fixture)
  unfolding recover
  recover-fixture root path m h =
      let (kind, reason) = C.classify_error m in
      ground (arith, L.classify-cases m, L.kind-empty_data kind reason path root)

  load_fixture-fixture :
      (root : String)
      → kind_of (load_fixture H C root) ≡ fixture
      → (p : Parsed) × (load_snapshot H C (H.resolve (fixture_path H C root)) ≡ ok p)
  unfolding load_fixture
  load_fixture-fixture root h =
      let path = H.resolve (fixture_path H C root) in
      elim (Result-cases (load_snapshot H C path)) [
        | inl loaded ↦ loaded
        | inr (m, e) ↦
            let (kind, reason) = C.classify_error m in
            absurd (ground (arith, L.classify-cases m, L.kind-empty_data kind reason path root))
      ]

  fixture_sound :
      (option : Option String) → kind_of (get_data H C option) ≡ fixture → StandsIn H C option
  unfolding get_data
  fixture_sound option h =
      let path = H.resolve (artifact_path H C (page_root H C option)) in
      elim (Result-cases (load_snapshot H C path)) [
        | inl (p, e) ↦
            absurd
              (ground (arith, L.kind-data_from_parsed p artifact path "ok" (page_root H C option)))
        | inr (m, e) ↦
            let shown : kind_of (recover H C (page_root H C option) path m) ≡ fixture =
              ground arith in
            let (set, kind, enabled, loads) = recover-fixture (page_root H C option) path m shown in
            let (p, loaded) = load_fixture-fixture (page_root H C option) loads in
            record {
              message = m;
              unread = e;
              is_missing_kind = is_missing-missing _ kind;
              no_override = is_set-none _ set;
              enabled = enabled;
              parsed = p;
              loads = loaded;
            }
      ]

  fixture_complete :
      (option : Option String) → StandsIn H C option → kind_of (get_data H C option) ≡ fixture
  unfolding get_data recover load_fixture
  fixture_complete option s = ground (
    arith,
    L.kind-data_from_parsed s.parsed fixture (H.resolve (fixture_path H C (page_root H C option)))
        C.fixture_reason (page_root H C option),
  )

  pub get_data-fixture_iff :
      (option : Option String) → (kind_of (get_data H C option) ≡ fixture) ↔ StandsIn H C option
  get_data-fixture_iff option = (fixture_sound option, fixture_complete option)

  -- An artifact that can be read but breaks the contract is shown as corrupt, whatever the fixture.
  pub get_data-rejected :
      (option : Option String) (raw : Json) (m text reason : String)
      → H.read_file (H.resolve (artifact_path H C (page_root H C option))) ≡ done text
      → H.parse_json text ≡ ok raw
      → C.parse_snapshot raw ≡ err m
      → C.classify_error m ≡ (corrupt, reason)
      → get_data H C option
        ≡ C.empty_data corrupt reason
            (H.resolve (artifact_path H C (page_root H C option)))
            (page_root H C option)
  unfolding get_data recover load_snapshot
  get_data-rejected option raw m text reason read parsed rejected class = ground arith

-- What is loaded is what the validator makes of some value.
load_snapshot-parsed :
    (H : Host) {Parsed View : Type 0} (C : Controller Parsed View) (path : String) (p : Parsed)
    → load_snapshot H C path ≡ ok p
    → (raw : Json) × (C.parse_snapshot raw ≡ ok p)
unfolding load_snapshot
load_snapshot-parsed H C path p h =
    let (text, read, h') = >>=-eq-ok (by_message (H.read_file path)) _ h in
    let (raw, parsed, h'') = >>=-eq-ok (H.parse_json text) _ h' in (raw, h'')

module _ (H : Host) {Parsed View : Type 0} (C : Controller Parsed View) (P : View → Type 0)
    (full : (raw : Json) (p : Parsed)
      → C.parse_snapshot raw ≡ ok p
      → (k : SourceKind) (path reason root : String) → P (C.data_from_parsed p k path reason root))
    (bare : (k : SourceKind) (reason path root : String)
      → P (C.empty_data k reason path root)) where
  loaded_invariant :
      (from : String) (p : Parsed)
      → load_snapshot H C from ≡ ok p
      → (k : SourceKind) (path reason root : String) → P (C.data_from_parsed p k path reason root)
  loaded_invariant from p e =
      let (raw, parsed) = load_snapshot-parsed H C from p e in full raw p parsed

  load_fixture_invariant : (root : String) → P (load_fixture H C root)
  unfolding load_fixture
  load_fixture_invariant root =
      elim (Result-cases (load_snapshot H C (H.resolve (fixture_path H C root)))) [
        | inl (p, e) ↦ rw (e, load_fixture) (loaded_invariant _ p e fixture _ _ root)
        | inr (m, e) ↦ rw (e, load_fixture) (bare _ _ _ root)
      ]

  recover_invariant : (root path m : String) → P (recover H C root path m)
  unfolding recover
  recover_invariant root path m =
      elim (Bool-cases (
        is_set (H.env C.path_variable)
        || not (is_missing (C.classify_error m).0)
        || not (fixture_fallback_enabled H C.fallback_variable))) [
          | inl e ↦ rw e (bare _ _ path root)
          | inr e ↦ rw e (load_fixture_invariant root)
        ]

  -- What holds of the page for every parsed snapshot and for every error holds of the page.
  pub get_data_invariant : (option : Option String) → P (get_data H C option)
  unfolding get_data
  get_data_invariant option =
      elim (Result-cases
        (load_snapshot H C (H.resolve (artifact_path H C (page_root H C option))))) [
          | inl (p, e) ↦ rw (e, get_data) (loaded_invariant _ p e artifact _ _ _)
          | inr (m, e) ↦ rw (e, get_data) (recover_invariant _ _ m)
        ]
