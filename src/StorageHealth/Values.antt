-- ===== src/StorageHealth/Values.antt =====
-- The reads that throw: from `objectValue` to `parseNotification`.
use leitstand.Common.{
  ℕ, Bool, true, false, not, ◌&&◌, String, ◌==◌, ◌<>◌, Option, none, some, List, Result, ok, err,
  ◌>>=◌, nat_eq, leb, length, if◌then◌else◌,
}
use leitstand.Common.Text.{print}
use leitstand.Json.{
  Json, JsonNumber, finite, infinite, null, number, string, array, object, items, get,
}

pub data StorageTruth : Type 0 where
  observed estimated unavailable : StorageTruth

pub record StorageProducer : Type 0 where
  pub id : String
  pub producer_class : String
  pub owner : String
  pub size_bytes : JsonNumber
  pub warning_bytes : JsonNumber
  pub hard_bytes : JsonNumber
  pub status : String
  pub error_count : JsonNumber
  pub truth : StorageTruth

pub record StorageViolation : Type 0 where
  pub signal : String
  pub status : String
  pub detail : String
  pub truth : StorageTruth

pub record StorageBlocker : Type 0 where
  pub id : String
  pub blocker_class : String
  pub reason : String
  pub count : Option JsonNumber
  pub truth : StorageTruth

pub record UnownedArtifact : Type 0 where
  pub path : String
  pub size_bytes : JsonNumber
  pub truth : StorageTruth

pub data NotificationKind : Type 0 where
  threshold_crossing recovery : NotificationKind

pub record StorageNotification : Type 0 where
  pub id : String
  pub signal : String
  pub from_state : String
  pub to_state : String
  pub observed_at : String
  pub kind : NotificationKind
  pub message : String

-- A value that is not `undefined` and an object, but no array, is returned as it is.
unfoldable pub object_value : Option Json → String → Result Json
object_value (some (object ms)) label = ok (object ms)
object_value _ label = err ("invalid " <> label <> ": object required")

unfoldable pub string_value : Option Json → String → Result String
string_value (some (string s)) label = if s == "" then err ("invalid " <> label) else ok s
string_value _ label = err ("invalid " <> label)

-- `value < 0`; the zero with a sign is not below 0.
abbrev is_below_zero : Bool → ℕ → ℕ → Bool
is_below_zero negative whole fraction = negative && not (nat_eq whole 0 && nat_eq fraction 0)

unfoldable pub number_value : Option Json → String → Result JsonNumber
number_value (some (number (finite negative whole fraction))) label =
    if is_below_zero negative whole fraction
    then err ("invalid " <> label)
    else ok (finite negative whole fraction)
number_value _ label = err ("invalid " <> label)

-- The tests that `boundedInteger` adds; what passes them is not negative.
abbrev pub integer_within : JsonNumber → String → ℕ → Result ℕ
integer_within (finite false whole fraction) label maximum =
    if nat_eq fraction 0 && leb 1 whole && leb whole maximum
    then ok whole
    else err ("invalid " <> label <> ": expected integer <= " <> print maximum)
integer_within (finite true whole fraction) label maximum =
    err ("invalid " <> label <> ": expected integer <= " <> print maximum)
integer_within (infinite negative) label maximum =
    err ("invalid " <> label <> ": expected integer <= " <> print maximum)

unfoldable pub bounded_integer : Option Json → String → ℕ → Result ℕ
unfolding number_value
bounded_integer value label maximum =
    number_value value label >>= λ n. integer_within n label maximum

unfoldable pub nullable_number : Option Json → String → Result (Option JsonNumber)
nullable_number (some null) label = ok none
nullable_number (some (number (finite negative whole fraction))) label =
    ok (some (finite negative whole fraction))
nullable_number _ label = err ("invalid " <> label)

unfoldable pub truth_value : Option Json → String → Result StorageTruth
truth_value (some (string s)) label =
    if s == "observed"
    then ok observed
    else if s == "estimated"
    then ok estimated
    else if s == "unavailable"
    then ok unavailable
    else err ("invalid " <> label <> " truth")
truth_value _ label = err ("invalid " <> label <> " truth")

unfoldable pub parse_producer : Json → String → Result StorageProducer
unfolding object_value string_value number_value truth_value
parse_producer value label = do
  producer ← object_value (some value) label
  id ← string_value (get "id" producer) (label <> ".id")
  producer_class ← string_value (get "class" producer) (label <> ".class")
  owner ← string_value (get "owner" producer) (label <> ".owner")
  size_bytes ← number_value (get "sizeBytes" producer) (label <> ".sizeBytes")
  warning_bytes ← number_value (get "warningBytes" producer) (label <> ".warningBytes")
  hard_bytes ← number_value (get "hardBytes" producer) (label <> ".hardBytes")
  status ← string_value (get "status" producer) (label <> ".status")
  error_count ← number_value (get "errorCount" producer) (label <> ".errorCount")
  truth ← truth_value (get "truth" producer) label
  ok (record {
    id = id;
    producer_class = producer_class;
    owner = owner;
    size_bytes = size_bytes;
    warning_bytes = warning_bytes;
    hard_bytes = hard_bytes;
    status = status;
    error_count = error_count;
    truth = truth;
  })

unfoldable pub parse_violation : Json → String → Result StorageViolation
unfolding object_value string_value truth_value
parse_violation value label = do
  violation ← object_value (some value) label
  signal ← string_value (get "signal" violation) (label <> ".signal")
  status ← string_value (get "status" violation) (label <> ".status")
  detail ← string_value (get "detail" violation) (label <> ".detail")
  truth ← truth_value (get "truth" violation) label
  ok (record { signal = signal; status = status; detail = detail; truth = truth })

unfoldable pub parse_blocker : Json → String → Result StorageBlocker
unfolding object_value string_value nullable_number truth_value
parse_blocker value label = do
  blocker ← object_value (some value) label
  id ← string_value (get "id" blocker) (label <> ".id")
  blocker_class ← string_value (get "class" blocker) (label <> ".class")
  reason ← string_value (get "reason" blocker) (label <> ".reason")
  count ← nullable_number (get "count" blocker) (label <> ".count")
  truth ← truth_value (get "truth" blocker) label
  ok (record {
    id = id;
    blocker_class = blocker_class;
    reason = reason;
    count = count;
    truth = truth;
  })

unfoldable pub parse_unowned : Json → String → Result UnownedArtifact
unfolding object_value string_value number_value truth_value
parse_unowned value label = do
  artifact ← object_value (some value) label
  path ← string_value (get "path" artifact) (label <> ".path")
  size_bytes ← number_value (get "sizeBytes" artifact) (label <> ".sizeBytes")
  truth ← truth_value (get "truth" artifact) label
  ok (record { path = path; size_bytes = size_bytes; truth = truth })

abbrev kind_value : String → String → Result NotificationKind
kind_value s label =
    if s == "threshold_crossing"
    then ok threshold_crossing
    else if s == "recovery"
    then ok recovery
    else err ("invalid " <> label <> ".kind")

unfoldable pub parse_notification : Json → String → Result StorageNotification
unfolding object_value string_value
parse_notification value label = do
  notification ← object_value (some value) label
  word ← string_value (get "kind" notification) (label <> ".kind")
  kind ← kind_value word label
  id ← string_value (get "id" notification) (label <> ".id")
  signal ← string_value (get "signal" notification) (label <> ".signal")
  from_state ← string_value (get "from" notification) (label <> ".from")
  to_state ← string_value (get "to" notification) (label <> ".to")
  observed_at ← string_value (get "observedAt" notification) (label <> ".observedAt")
  message ← string_value (get "message" notification) (label <> ".message")
  ok (record {
    id = id;
    signal = signal;
    from_state = from_state;
    to_state = to_state;
    observed_at = observed_at;
    kind = kind;
    message = message;
  })

-- `if (!Array.isArray(value) || value.length > maximum) throw new Error(message)`
unfoldable pub bounded_list : Option Json → ℕ → String → Result (List Json)
bounded_list (some (array vs)) maximum message =
    if leb (length (items vs)) maximum then ok (items vs) else err message
bounded_list _ maximum message = err message
