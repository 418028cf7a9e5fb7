-- ===== src/Snapshot/Freshness.antt =====
-- When a snapshot counts as fresh.
use leitstand.Common.{
  ℕ, ◌≡◌, ◌≢◌, ◌↔◌, String, eq_iff, Option, none, some, arith, Option-cases, inl, inr,
}
use leitstand.Common.Int.{ℤ, pos, ◌-ℤ◌, ◌≤ℤ◌, -ℤ_parts}
use leitstand.Host.{Host}
use leitstand.Snapshot.{fresh, freshness_within}

-- The date can be read, and lies at most `limit` milliseconds back.
abbrev pub IsRecent : Host → ℕ → String → Type 0
IsRecent H limit s = (ts : ℤ) × (H.parse_date s ≡ some ts) × (H.now -ℤ ts ≤ℤ pos limit)

module _ (H : Host) (limit : ℕ) where
  fresh_sound : (s : String) → freshness_within H limit (some s) ≡ fresh → IsRecent H limit s
  unfolding freshness_within
  fresh_sound s h = elim (Option-cases (H.parse_date s)) [
    | inl unread ↦ absurd (ground arith)
    | inr (ts, read) ↦ (ts, read, ground arith)
  ]

  fresh_complete :
      (s : String) → s ≢ "" → IsRecent H limit s → freshness_within H limit (some s) ≡ fresh
  unfolding freshness_within
  fresh_complete s named (ts, read, near) = ground (arith, eq_iff s "")

  pub freshness_within-fresh_iff :
      (s : String) → s ≢ "" → (freshness_within H limit (some s) ≡ fresh) ↔ IsRecent H limit s
  freshness_within-fresh_iff s named = (fresh_sound s, fresh_complete s named)

-- A snapshot that is stale stays stale, and one that was not fresh does not become fresh.
pub freshness_within_later :
    (H : Host) (limit : ℕ) (generated_at : Option String) (later : ℤ)
    → H.now ≤ℤ later
    → freshness_within (record H { now = later }) limit generated_at ≡ fresh
    → freshness_within H limit generated_at ≡ fresh
unfolding freshness_within
freshness_within_later H limit none later h e = e
freshness_within_later H limit (some s) later h e = elim (Option-cases (H.parse_date s)) [
  | inl unread ↦ ground arith
  | inr (ts, read) ↦ ground (arith, -ℤ_parts H.now ts, -ℤ_parts later ts)
]
