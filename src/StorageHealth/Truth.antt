-- ===== src/StorageHealth/Truth.antt =====
-- `countTruth`, and the part `current` of the snapshot as the value that it walks through.
pub mod Laws
use leitstand.Common.{
  ℕ, suc, ◌+◌, ◌≡◌, refl, String, ◌==◌, Option, none, some, List, [], ◌∷◌, map, length,
  if◌then◌else◌, arith,
}
use leitstand.Json.{
  Json, JsonNumber, null, number, string, array, object, Items, nil, cons, Members, end, member,
  of_list, get, as_string,
}
use leitstand.StorageHealth.Values.{
  StorageTruth, observed, estimated, unavailable, StorageProducer, StorageViolation, StorageBlocker,
  UnownedArtifact,
}

pub record Filesystem : Type 0 where
  pub path : String
  pub total_bytes : JsonNumber
  pub used_bytes : JsonNumber
  pub available_bytes : JsonNumber
  pub used_percent : JsonNumber
  pub status : String
  pub truth : StorageTruth

pub record Temporary : Type 0 where
  pub used_bytes : JsonNumber
  pub status : String
  pub truth : StorageTruth

pub record Growth : Type 0 where
  pub bytes : Option JsonNumber
  pub percent : Option JsonNumber
  pub baseline_at : Option String
  pub truth : StorageTruth

pub record StorageSummary : Type 0 where
  pub producer_count : JsonNumber
  pub budget_violation_count : JsonNumber
  pub cleanup_blocker_count : JsonNumber
  pub unowned_artifact_count : JsonNumber
  pub notification_count : JsonNumber

pub record Current : Type 0 where
  pub observed_at : String
  pub filesystem : Filesystem
  pub temporary : Temporary
  pub growth_24h : Growth
  pub top_producers : List StorageProducer
  pub budget_violations : List StorageViolation
  pub unowned_artifacts : List UnownedArtifact
  pub cleanup_blockers : List StorageBlocker
  pub summary : StorageSummary

pub record Truths : Type 0 where
  pub observed_count : ℕ
  pub estimated_count : ℕ
  pub unavailable_count : ℕ

abbrev pub no_truths : Truths
no_truths = record { observed_count = 0; estimated_count = 0; unavailable_count = 0 }

-- `counts[truth] += 1` for a member `truth` that is the word of one.
abbrev count_word : Option Json → Truths → Truths
count_word (some (string s)) counts =
    if s == "observed"
    then record counts { observed_count = suc counts.observed_count }
    else if s == "estimated"
    then record counts { estimated_count = suc counts.estimated_count }
    else if s == "unavailable"
    then record counts { unavailable_count = suc counts.unavailable_count }
    else counts
count_word _ counts = counts

unfoldable mutual
  pub count_truth : Json → Truths → Truths
  count_truth (array vs) counts = count_items vs counts
  count_truth (object ms) counts = count_members ms (count_word (get "truth" (object ms)) counts)
  count_truth _ counts = counts

  count_items : Items → Truths → Truths
  count_items nil counts = counts
  count_items (cons v vs) counts = count_items vs (count_truth v counts)

  count_members : Members → Truths → Truths
  count_members end counts = counts
  count_members (member key v rest) counts = count_members rest (count_truth v counts)

abbrev truth_name : StorageTruth → String
truth_name observed = "observed"
truth_name estimated = "estimated"
truth_name unavailable = "unavailable"

abbrev of_number : Option JsonNumber → Json
of_number none = null
of_number (some n) = number n

abbrev of_text : Option String → Json
of_text none = null
of_text (some s) = string s

abbrev truth_member : StorageTruth → Members
truth_member t = member "truth" (string (truth_name t)) end

abbrev producer_value : StorageProducer → Json
producer_value p = object (
    member "id" (string p.id) (
      member "class" (string p.producer_class) (
        member "owner" (string p.owner) (
          member "sizeBytes" (number p.size_bytes) (
            member "warningBytes" (number p.warning_bytes) (
              member "hardBytes" (number p.hard_bytes) (
                member "status" (string p.status)
                  (member "errorCount" (number p.error_count) (truth_member p.truth)))))))))

abbrev violation_value : StorageViolation → Json
violation_value v = object (
    member "signal" (string v.signal) (
      member "status" (string v.status) (member "detail" (string v.detail) (truth_member v.truth))))

abbrev blocker_value : StorageBlocker → Json
blocker_value b = object (
    member "id" (string b.id) (
      member "class" (string b.blocker_class) (
        member "reason" (string b.reason)
          (member "count" (of_number b.count) (truth_member b.truth)))))

abbrev unowned_value : UnownedArtifact → Json
unowned_value a = object (
    member "path" (string a.path) (member "sizeBytes" (number a.size_bytes) (truth_member a.truth)))

abbrev list_value {ℓ} : {A : Type ℓ} → (A → Json) → List A → Json
list_value f xs = array (of_list (map f xs))

abbrev filesystem_value : Filesystem → Json
filesystem_value f = object (
    member "path" (string f.path) (
      member "totalBytes" (number f.total_bytes) (
        member "usedBytes" (number f.used_bytes) (
          member "availableBytes" (number f.available_bytes) (
            member "usedPercent" (number f.used_percent)
              (member "status" (string f.status) (truth_member f.truth)))))))

abbrev temporary_value : Temporary → Json
temporary_value t = object (
    member "usedBytes" (number t.used_bytes)
      (member "status" (string t.status) (truth_member t.truth)))

abbrev growth_value : Growth → Json
growth_value g = object (
    member "bytes" (of_number g.bytes) (
      member "percent" (of_number g.percent)
        (member "baselineAt" (of_text g.baseline_at) (truth_member g.truth))))

abbrev summary_value : StorageSummary → Json
summary_value s = object (
    member "producerCount" (number s.producer_count) (
      member "budgetViolationCount" (number s.budget_violation_count) (
        member "cleanupBlockerCount" (number s.cleanup_blocker_count) (
          member "unownedArtifactCount" (number s.unowned_artifact_count)
            (member "notificationCount" (number s.notification_count) end)))))

-- The object that `parseSnapshot` builds.
abbrev pub current_value : Current → Json
current_value c = object (
    member "observedAt" (string c.observed_at) (
      member "filesystem" (filesystem_value c.filesystem) (
        member "temporary" (temporary_value c.temporary) (
          member "growth24h" (growth_value c.growth_24h) (
            member "topProducers" (list_value producer_value c.top_producers) (
              member "budgetViolations" (list_value violation_value c.budget_violations) (
                member "unownedArtifacts" (list_value unowned_value c.unowned_artifacts) (
                  member "cleanupBlockers" (list_value blocker_value c.cleanup_blockers)
                    (member "summary" (summary_value c.summary) end)))))))))
