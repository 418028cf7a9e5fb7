-- ===== src/Events/Laws.antt =====
-- What is loaded lies in the window, newest first.
use mathlib.Core.List.{Perm}
use leitstand.Common.{
  concat, All-append, take, ap, ◌≤◌, All-sort_by, ℕ, zero, suc, ◌+◌, ◌-◌, ◌≡◌, refl, subst, sym,
  ◌∙◌, true, false, String, List, [], ◌∷◌, ◌++◌, All, All-mono, filter, filter-All, filter_map,
  traverse, traverse-ok_iff, Pointwise, Pointwise-All, sort_by, sort_by-IsSortedBy, IsSortedBy,
  IsOrder, sort_by-perm, ltb, length, Result, ok, err, ◌>>=◌, >>=-eq-ok, ok-injective, Bool-cases,
  inl, inr, arith,
}
use leitstand.Common.Text.{ends, text_before}
use leitstand.Host.{Host, done, by_message}
use leitstand.Loading.Integrity.{slice, drop}
use leitstand.Loading.Integrity.Batches.{++-[], ++-assoc, drop-all, drop-drop}
use leitstand.Events.Lines.{EventLine, parse_event_line}
use leitstand.Events.{
  batch_size, in_window, load_batches, load_file, newest_first, failure, load_recent_events,
}

-- Not before the start, and before the end.
pub record IsWithin (since until : String) (e : EventLine) : Type 0 where
  pub not_before : text_before e.timestamp since ≡ false
  pub before_end : text_before e.timestamp until ≡ true

concat-All :
    {A : Type 0} (P : A → Type 0) (xss : List (List A)) → All (All P) xss → All P (concat xss)
concat-All P [] h = tt
concat-All P (xs ∷ xss) (p, h) = All-append P xs (concat xss) p (concat-All P xss h)

load_file-IsWithin :
    (H : Host) (since until path : String) (es : List EventLine)
    → load_file H since until path ≡ ok es
    → All (IsWithin since until) es
unfolding load_file
load_file-IsWithin H since until path es h =
    let (lines, _, e) = >>=-eq-ok (by_message (H.read_lines path)) _ h in
    subst (All (IsWithin since until)) (ok-injective e) (
      All-mono (λ x k. record { not_before = ground arith; before_end = ground arith })
        (filter (in_window since until) (filter_map (parse_event_line H) lines))
        (filter-All (in_window since until) (filter_map (parse_event_line H) lines)))

Pointwise-append :
    {A B : Type 0} (R : A → B → Type 0) (n : ℕ) (xs : List A) (us vs : List B)
    → Pointwise R (take n xs) us
    → Pointwise R (drop n xs) vs
    → Pointwise R xs (us ++ vs)
Pointwise-append R zero xs [] vs h k = k
Pointwise-append R zero xs (u ∷ us) vs h k = absurd h
Pointwise-append R (suc n) [] [] vs h k = k
Pointwise-append R (suc n) [] (u ∷ us) vs h k = absurd h
Pointwise-append R (suc n) (x ∷ xs) [] vs h k = absurd h
Pointwise-append R (suc n) (x ∷ xs) (u ∷ us) vs (p, h) k = (p, Pointwise-append R n xs us vs h k)

concat-append :
    {A : Type 0} (xss yss : List (List A)) → concat (xss ++ yss) ≡ concat xss ++ concat yss
concat-append [] yss = refl
concat-append (xs ∷ xss) yss =
    ap (λ zs. xs ++ zs) (concat-append xss yss) ∙ sym (++-assoc xs (concat xss) (concat yss))

module _ (load : String → Result (List EventLine)) where
  abbrev Loads : List String → List (List EventLine) → Type 0
  Loads = Pointwise (λ file es. load file ≡ ok es)

  -- The loop loads every file from the index on, one after the other.
  load_batches-Loads :
      (fuel i : ℕ) (files : List String) (events es : List EventLine)
      → length files ≤ i + fuel
      → load_batches fuel load files i events ≡ ok es
      → (results : List (List EventLine)) × Loads (drop i files) results
        × (es ≡ events ++ concat results)
  load_batches-Loads zero i files events es h e = (
    [],
    subst (λ fs. Loads fs []) (sym (drop-all i files (omega arith))) tt,
    sym (ok-injective e) ∙ sym (++-[] events),
  )
  load_batches-Loads (suc fuel) i files events es h e = elim (Bool-cases (ltb i (length files))) [
    | inr past ↦
        let same : events ≡ es = ground arith in
        (
          [],
          subst (λ fs. Loads fs []) (sym (drop-all i files (ground arith))) tt,
          sym same ∙ sym (++-[] events),
        )
    | inl more ↦
        let batch = slice i (i + batch_size) files in
        let step : (traverse load batch >>= λ results.
        load_batches fuel load files (i + batch_size) (events ++ concat results))
            ≡ ok es =
          ground arith in
        let (first, loads, rest) = >>=-eq-ok (traverse load batch) _ step in
        let (later, loads', same) =
          load_batches-Loads fuel (i + batch_size) files (events ++ concat first) es (omega arith)
            rest in
        let eight : i + 8 - i ≡ 8 = omega arith in
        (
          first ++ later,
          Pointwise-append (λ file es. load file ≡ ok es) 8 (drop i files) first later
              (subst (λ n. Loads (take n (drop i files)) first) eight
                ((traverse-ok_iff load batch first).0 loads))
              (subst (λ fs. Loads fs later) (sym (drop-drop i 8 files)) loads'),
          same
              ∙ ++-assoc events (concat first) (concat later)
              ∙ ap (λ zs. events ++ zs) (sym (concat-append first later)),
        )
  ]

abbrev pub jsonl_of : List String → List String
jsonl_of files = filter (λ f. ends f ".jsonl") files

-- What is loaded from a directory that lists the files.
pub record IsRecent (H : Host) (dir since until : String) (files : List String)
    (es : List EventLine) : Type 0 where
  pub results : List (List EventLine)
  pub all_loaded :
      Pointwise
        (λ file es. load_file H since until (H.join (dir ∷ file ∷ [])) ≡ ok es)
        (jsonl_of files)
        results
  pub same_events : Perm es (concat results)
  pub within : All (IsWithin since until) es
  pub newest : IsSortedBy (newest_first H) es

failure-ok : {A : Type 0} (r : Result A) (a : A) → failure r ≡ ok a → r ≡ ok a
failure-ok (ok b) a h = h
failure-ok (err m) a h = cc

newest_first-IsOrder : (H : Host) → IsOrder H.locale_le → IsOrder (newest_first H)
newest_first-IsOrder H o = record {
  total = λ a b h. o.total b.timestamp a.timestamp h;
  trans = λ a b c h k. o.trans c.timestamp b.timestamp a.timestamp k h;
}

module _ (H : Host) (dir since until : String) (P : EventLine → Type 0) where
  abbrev EachFile : Type 0
  EachFile = (path : String) (es : List EventLine) → load_file H since until path ≡ ok es → All P es

  results-All :
      EachFile
      → (files : List String) (results : List (List EventLine))
      → Pointwise
          (λ file es. load_file H since until (H.join (dir ∷ file ∷ [])) ≡ ok es)
          files
          results
      → All P (concat results)
  results-All each files results h = concat-All P results (
      Pointwise-All (λ file es. load_file H since until (H.join (dir ∷ file ∷ [])) ≡ ok es) (All P)
        (λ file es. each (H.join (dir ∷ file ∷ [])) es) files results h)

  -- What holds of the events of every file holds of those that are returned.
  pub load_recent_events-All :
      EachFile → (es : List EventLine) → load_recent_events H dir since until ≡ ok es → All P es
  unfolding load_recent_events
  load_recent_events-All each es h =
      let load : String → Result (List EventLine) =
        λ file. load_file H since until (H.join (dir ∷ file ∷ [])) in
      let (found, there, h1) = >>=-eq-ok (by_message (H.read_dir dir)) _ (failure-ok _ es h) in
      let js = jsonl_of found in
      let (events, loaded, h2) = >>=-eq-ok (load_batches (length js) load js 0 []) _ h1 in
      let (results, loads, concatenated) =
        load_batches-Loads load (length js) 0 js [] events (omega arith) loaded in
      subst (All P) (ok-injective h2) (
        All-sort_by (newest_first H) P events
          (subst (All P) (sym concatenated) (results-All each js results loads)))

-- Where `localeCompare` is an order, the events that are returned are those of all event files of the
-- directory, each as often as it stands there, all of them not before the start and before the end of
-- the window, and the newest first.
pub load_recent_events-IsRecent :
    (H : Host) (dir since until : String) (files : List String) (es : List EventLine)
    → IsOrder H.locale_le
    → H.read_dir dir ≡ done files
    → load_recent_events H dir since until ≡ ok es
    → IsRecent H dir since until files es
unfolding load_recent_events
load_recent_events-IsRecent H dir since until files es o listed h =
    let load : String → Result (List EventLine) =
      λ file. load_file H since until (H.join (dir ∷ file ∷ [])) in
    let (found, there, h1) = >>=-eq-ok (by_message (H.read_dir dir)) _ (failure-ok _ es h) in
    let same : found ≡ files = ground arith in
    let js = jsonl_of found in
    let (events, loaded, h2) = >>=-eq-ok (load_batches (length js) load js 0 []) _ h1 in
    let (results, loads, concatenated) =
      load_batches-Loads load (length js) 0 js [] events (omega arith) loaded in
    let sorted : sort_by (newest_first H) events ≡ es = ok-injective h2 in
    subst (λ fs. IsRecent H dir since until fs es) same
      (record {
        results = results;
        all_loaded = loads;
        same_events =
            subst (λ zs. Perm zs (concat results)) sorted
              (subst (λ zs. Perm (sort_by (newest_first H) events) zs) concatenated
                (sort_by-perm (newest_first H) events));
        within =
            load_recent_events-All H dir since until (IsWithin since until)
              (load_file-IsWithin H since until) es h;
        newest =
            subst (IsSortedBy (newest_first H)) sorted
              (sort_by-IsSortedBy (newest_first H) (newest_first-IsOrder H o) events);
      })
