-- ===== src/Snapshot/Tests.antt =====
-- Freshness at the limit of twenty minutes.
use leitstand.Common.{◌≡◌, refl, some, []}
use leitstand.Common.Int.{pos, ◌-ℤ◌}
use leitstand.Host.Samples.{sample_host}
use leitstand.Snapshot.{
  fresh, stale, freshness_within, operational_snapshot_stale_after_ms as limit,
}

at_the_limit :
    (freshness_within (sample_host [] []) limit (some "20 before") ≡ fresh)
    × (freshness_within (sample_host [] []) limit (some "21 before") ≡ stale)
unfolding freshness_within ◌-ℤ◌
at_the_limit = (refl, refl)

later_still_fresh :
    freshness_within (record (sample_host [] []) { now = pos 50_000_060 }) limit (some "noon")
    ≡ fresh
unfolding freshness_within ◌-ℤ◌
later_still_fresh = refl
