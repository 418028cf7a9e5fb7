-- ===== src/EcosystemMap/Alignment/Head.antt =====
-- The canonical head: `readCanonicalHeadInspection`.
use leitstand.Common.{
  Bool, false, ◌&&◌, String, Option, none, some, [], ◌∷◌, Result, ok, err, ◌>>=◌, if◌then◌else◌,
}
use leitstand.Common.Int.{pos, ◌-ℤ◌, leb_ℤ}
use leitstand.Json.{Json, get, is_record, as_string, is_text, is_number}
use leitstand.Host.{Host, by_message}
use leitstand.Snapshot.{text_or, operational_snapshot_stale_after_ms}
use leitstand.EcosystemMap.Manifest.{is_commit}

pub data HeadStatus : Type 0 where
  available unavailable : HeadStatus

pub record CanonicalHead : Type 0 where
  pub status : HeadStatus
  pub reason : String
  pub head : Option String
  pub generated_at : Option String

abbrev head_unavailable : String → Option String → CanonicalHead
head_unavailable reason generated_at = record {
  status = unavailable;
  reason = reason;
  head = none;
  generated_at = generated_at;
}

module _ (H : Host) where
  abbrev pub configured_current_head_path : String
  configured_current_head_path =
      text_or (H.env "LEITSTAND_ECOSYSTEM_MAP_CURRENT_HEAD_PATH")
        (H.join (H.cwd ∷ "artifacts" ∷ "ecosystem-map-current-head.json" ∷ []))

  abbrev is_head_contract : Json → Bool
  is_head_contract raw =
      is_record raw
      && is_number (get "schemaVersion" raw) 1
      && is_text (get "kind" raw) "leitstand_source_head_snapshot"
      && is_text (get "repository" raw) "heimgewebe/systemkatalog"
      && is_text (get "ref" raw) "refs/heads/main"

  abbrev is_current : String → Bool
  is_current generated_at = elim (H.parse_date generated_at) [
    | none ↦ false
    | some ts ↦ leb_ℤ (H.now -ℤ ts) (pos operational_snapshot_stale_after_ms)
  ]

  abbrev head_of : Json → String → Option String → CanonicalHead
  head_of raw generated_at none = head_unavailable "canonical_head_unavailable" (some generated_at)
  head_of raw generated_at (some head) =
      if is_text (get "status" raw) "available" && is_commit head
      then record {
        status = available;
        reason = "canonical_head_fresh";
        head = some head;
        generated_at = some generated_at;
      }
      else head_unavailable "canonical_head_unavailable" (some generated_at)

  abbrev judge_dated : Json → Option String → CanonicalHead
  judge_dated raw none = head_unavailable "canonical_head_contract_mismatch" none
  judge_dated raw (some generated_at) =
      if is_current generated_at
      then head_of raw generated_at (as_string (get "head" raw))
      else head_unavailable "canonical_head_snapshot_stale" (some generated_at)

  unfoldable pub judge_head : Json → CanonicalHead
  judge_head raw =
      if is_head_contract raw
      then judge_dated raw (as_string (get "generatedAt" raw))
      else head_unavailable "canonical_head_contract_mismatch" none

  abbrev read_head_snapshot : Result Json
  read_head_snapshot = do
    text ← by_message (H.read_file (H.resolve configured_current_head_path))
    H.parse_json text

  unfoldable pub read_canonical_head_inspection : CanonicalHead
  read_canonical_head_inspection = elim read_head_snapshot [
    | err message ↦ head_unavailable "canonical_head_snapshot_unreadable" none
    | ok raw ↦ judge_head raw
  ]
