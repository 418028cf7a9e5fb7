-- ===== src/StorageHealth/Samples.antt =====
-- A small snapshot of the storage budget.
use leitstand.Common.{false, String, List, [], ◌∷◌}
use leitstand.Json.{
  Json, null, number, finite, string, array, object, nil, cons, Items, end, member, Members,
}
use leitstand.Json.Laws.{one}
use leitstand.StorageHealth.Parse.{contract_kind}

abbrev pub text : String → String → Members → Members
text key s = member key (string s)

abbrev pub three : String → Members → Members
three key = member key (number (finite false 3 0))

abbrev pub bucket : String → String → Json
bucket key s = object (text key s end)

abbrev pub day : String → Json
day s =
    object
      (text "date" s (member "producers" (array nil) (member "unownedArtifacts" (array nil) end)))

abbrev pub note : String → Json
note s = object (
    text "id" "n" (
      text "signal" "disk" (
        text "from" "ok" (
          text "to" "warning"
            (text "observedAt" s (text "kind" "recovery" (text "message" "m" end)))))))

abbrev pub producer : Json
producer = object (
    text "id" "p" (
      text "class" "c" (
        text "owner" "o" (
          three "sizeBytes" (
            three "warningBytes" (
              three "hardBytes"
                (text "status" "ok" (three "errorCount" (text "truth" "estimated" end)))))))))

abbrev pub current : Json
current = object (
    text "observedAt" "19 before" (
      member "filesystem"
        (object (
          text "path" "/" (
            three "totalBytes" (
              three "usedBytes" (
                three "availableBytes"
                  (three "usedPercent" (text "status" "ok" (text "truth" "observed" end))))))))
        (member "temporary"
          (object (three "usedBytes" (text "status" "ok" (text "truth" "observed" end))))
          (member "growth24h"
            (object (
              member "bytes" null (
                member "percent" null (member "baselineAt" null (text "truth" "unavailable" end)))))
            (member "topProducers" (array (cons producer nil)) (
              member "budgetViolations" (array nil) (
                member "cleanupBlockers" (array nil) (
                  member "unownedArtifacts" (array nil) (
                    member "summary"
                      (object (
                        three "producerCount" (
                          three "budgetViolationCount" (
                            three "cleanupBlockerCount"
                              (three "unownedArtifactCount" (three "notificationCount" end))))))
                      end)))))))))

abbrev pub snapshot : Items → Json
snapshot hourly = object (
    member "schemaVersion" one (
      text "kind" contract_kind (
        text "generatedAt" "19 before" (
          member "retention"
            (object (three "hourlyMax" (three "dailyMax" (three "notificationMax" end))))
            (member "hourly" (array hourly) (
              member "daily" (array (cons (day "d1") nil)) (
                member "notifications" (array (cons (note "1") (cons (note "2") nil)))
                  (member "current" current end))))))))

abbrev pub ordered : List Json
ordered = bucket "bucket" "h1" ∷ bucket "bucket" "h2" ∷ []

abbrev pub good : Json
good = snapshot (cons (bucket "bucket" "h1") (cons (bucket "bucket" "h2") nil))

abbrev pub twice : Json
twice = snapshot (cons (bucket "bucket" "h1") (cons (bucket "bucket" "h1") nil))
