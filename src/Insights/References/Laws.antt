-- ===== src/Insights/References/Laws.antt =====
-- What a reference is good for, and where it leads after the renumbering.
use leitstand.Common.{
  ℕ, ◌≡◌, subst, ◌≢◌, Bool, Bool-cases, true, false, not, ◌&&◌, String, ◌==◌, eq_iff, Option, none,
  some, Option-cases, inl, inr, List, [], ◌∷◌, map, filter, All, All-mono, nat_eq, arith,
  filter-All,
}
use leitstand.Common.Text.{trim, starts, print}
use leitstand.Json.{
  Json, null, boolean, number, string, array, object, Members, end, member, get, string_or,
  string_array,
}
use leitstand.Insights.References.{
  DataRefEntry, Section, is_safe_drilldown_url, is_named, drilldown_of, entry_of,
  sanitize_data_ref_entry, Sources, put, put_entry, key_number, collect, or_none, without_sources,
  sanitize_data_ref_section,
}

-- An entry that is worth showing: it has references, none of them empty, and its link stays on the site.
pub record IsUsable (e : DataRefEntry) : Type 0 where
  pub some_refs : e.refs ≢ []
  pub named : All (λ s. s ≢ "") e.refs
  pub on_site :
      (url : String)
      → e.drilldown_url ≡ some url
      → (starts url "/" ≡ true) × (starts url "//" ≡ false)

drilldown_of-on_site :
    (s url : String)
    → drilldown_of s ≡ some url
    → (starts url "/" ≡ true) × (starts url "//" ≡ false)
unfolding is_safe_drilldown_url
drilldown_of-on_site s url h = elim (Bool-cases (not (s == "") && is_safe_drilldown_url s)) [
  | inr e ↦ absurd (ground arith)
  | inl e ↦
      let same : s ≡ url = ground arith in
      subst (λ t. (starts t "/" ≡ true) × (starts t "//" ≡ false)) same (ground arith, ground arith)
]

entry_of-IsUsable :
    (refs : List String) (drilldown : String) (e : DataRefEntry)
    → All (λ s. is_named s ≡ true) refs
    → entry_of refs drilldown ≡ some e
    → IsUsable e
entry_of-IsUsable [] drilldown e named h = cc
entry_of-IsUsable (r ∷ rs) drilldown e named h =
    let built : record { refs = r ∷ rs; drilldown_url = drilldown_of drilldown } ≡ e =
      ground arith in
    subst IsUsable built (record {
      some_refs = λ e. cc;
      named = All-mono (λ s k z. ground (arith, eq_iff s "")) (r ∷ rs) named;
      on_site = drilldown_of-on_site drilldown;
    })

sanitize_data_ref_entry-IsUsable :
    (v : Json) (e : DataRefEntry) → sanitize_data_ref_entry v ≡ some e → IsUsable e
unfolding sanitize_data_ref_entry
sanitize_data_ref_entry-IsUsable (object ms) e h =
    let texts = map trim (string_array (get "refs" (object ms))) in
    entry_of-IsUsable (filter is_named texts)
      (trim (string_or "" (get "drilldown_url" (object ms)))) e (filter-All is_named texts) h
sanitize_data_ref_entry-IsUsable null e h = cc
sanitize_data_ref_entry-IsUsable (boolean b) e h = cc
sanitize_data_ref_entry-IsUsable (number n) e h = cc
sanitize_data_ref_entry-IsUsable (string s) e h = cc
sanitize_data_ref_entry-IsUsable (array vs) e h = cc

abbrev Usable : Sources → Type 0
Usable = All (λ (p : ℕ × (DataRefEntry × Bool)). IsUsable p.1.0)

put-Usable :
    (n : ℕ) (e : DataRefEntry) (canonical : Bool) (s : Sources)
    → IsUsable e
    → Usable s
    → Usable (put n e canonical s)
put-Usable n e canonical [] u h = (u, tt)
put-Usable n e canonical ((m, (old, was)) ∷ rest) u (p, h) = elim (Bool-cases (nat_eq m n)) [
  | inr other ↦ rw (other, put) (p, put-Usable n e canonical rest u h)
  | inl same ↦ elim (Bool-cases (not was && canonical)) [
    | inl replaced ↦ rw (same, put, replaced) (u, h)
    | inr stays ↦ rw (same, put, stays) (p, h)
  ]
]

put_entry-Usable :
    (n : Option ℕ) (key : String) (v : Json) (s : Sources)
    → Usable s
    → Usable (put_entry n key (sanitize_data_ref_entry v) s)
put_entry-Usable none key v s h = h
put_entry-Usable (some n) key v s h = elim (Option-cases (sanitize_data_ref_entry v)) [
  | inl e ↦ rw (e, put_entry) h
  | inr (entry, e) ↦
      rw (e, put_entry)
        (put-Usable n entry (key == print n) s (sanitize_data_ref_entry-IsUsable v entry e) h)
]

collect-Usable : (ms : Members) (s : Sources) → Usable s → Usable (collect ms s)
unfolding collect
collect-Usable end s h = h
collect-Usable (member key v rest) s h =
    collect-Usable rest _ (put_entry-Usable (key_number key) key v s h)

abbrev pub AllUsable : Section → Type 0
AllUsable = All (λ (p : ℕ × DataRefEntry). IsUsable p.1)

without_sources-AllUsable : (s : Sources) → Usable s → AllUsable (without_sources s)
without_sources-AllUsable [] h = tt
without_sources-AllUsable ((n, (e, c)) ∷ rest) (p, h) = (p, without_sources-AllUsable rest h)

-- A section that is there: it is not empty, and it is good.
abbrev pub WhenSome : (Section → Type 0) → Option Section → Type 0
WhenSome P none = Unit
WhenSome P (some section) = (section ≢ []) × P section

pub or_none-WhenSome : (P : Section → Type 0) (s : Section) → P s → WhenSome P (or_none s)
or_none-WhenSome P [] h = tt
or_none-WhenSome P (x ∷ xs) h = ((λ e. cc), h)

pub sanitize_data_ref_section-AllUsable :
    (v : Option Json) → WhenSome AllUsable (sanitize_data_ref_section v)
unfolding sanitize_data_ref_section
sanitize_data_ref_section-AllUsable (some (object ms)) =
    or_none-WhenSome AllUsable (without_sources (collect ms []))
      (without_sources-AllUsable (collect ms []) (collect-Usable ms [] tt))
sanitize_data_ref_section-AllUsable none = tt
sanitize_data_ref_section-AllUsable (some null) = tt
sanitize_data_ref_section-AllUsable (some (boolean b)) = tt
sanitize_data_ref_section-AllUsable (some (number n)) = tt
sanitize_data_ref_section-AllUsable (some (string s)) = tt
sanitize_data_ref_section-AllUsable (some (array vs)) = tt
