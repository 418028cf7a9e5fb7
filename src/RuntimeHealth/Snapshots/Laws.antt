-- ===== src/RuntimeHealth/Snapshots/Laws.antt =====
-- When a snapshot is judged healthy, and when it counts as missing.
use leitstand.Common.{
  ℕ, ◌*◌, ◌≤◌, ◌≡◌, ◌↔◌, ◌⊎◌, inl, inr, false, String, eq_iff, some, ok, Result-cases, Option-cases,
  arith,
}
use leitstand.Json.{Json}
use leitstand.Host.{Attempt-cases, Host, FileStat, Fault, done, failed}
use leitstand.RuntimeHealth.Snapshots.{
  pass, SnapshotKind, snapshot_kind, snapshot_record_count, snapshot_generated_at, age_ns,
  expected_snapshot_kind, judge, unread, read_snapshot_health,
}

module _ (H : Host) (kind : SnapshotKind) (path cwd : String) (limit : ℕ) where
  -- The file can be read and parsed, it is of the expected kind, its records can be counted, and it
  -- is no older than the limit, in milliseconds.
  pub record IsCurrent : Type 0 where
    pub file_stat : FileStat
    pub text : String
    pub snapshot : Json
    pub records : ℕ
    pub age : ℕ
    pub found : H.stat (H.resolve path) ≡ done file_stat
    pub read : H.read_file (H.resolve path) ≡ done text
    pub parsed : H.parse_json text ≡ ok snapshot
    pub of_kind : snapshot_kind snapshot ≡ some (expected_snapshot_kind kind)
    pub counted : snapshot_record_count kind snapshot ≡ some records
    pub aged : age_ns H (snapshot_generated_at snapshot) file_stat.mtime ≡ some age
    pub recent : age ≤ limit * 1_000_000

  abbrev Judged : FileStat → Json → Type 0
  Judged file_stat snapshot =
      (records age : ℕ) × (snapshot_kind snapshot ≡ some (expected_snapshot_kind kind))
      × (snapshot_record_count kind snapshot ≡ some records)
      × (age_ns H (snapshot_generated_at snapshot) file_stat.mtime ≡ some age)
      × (age ≤ limit * 1_000_000)

  judge_sound :
      (file_stat : FileStat) (snapshot : Json)
      → (judge H kind cwd (H.resolve path) limit file_stat snapshot).status ≡ pass
      → Judged file_stat snapshot
  unfolding judge
  judge_sound file_stat snapshot h = elim (Option-cases (snapshot_record_count kind snapshot)) [
    | inl uncounted ↦ absurd (ground arith)
    | inr (records, counted) ↦
        elim (Option-cases (age_ns H (snapshot_generated_at snapshot) file_stat.mtime)) [
          | inl unaged ↦ absurd (ground arith)
          | inr (age, aged) ↦ elim (Option-cases (snapshot_kind snapshot)) [
            | inl kindless ↦ absurd (ground arith)
            | inr (word, named) ↦ (
              records,
              age,
              ground (arith, eq_iff word (expected_snapshot_kind kind)),
              counted,
              aged,
              ground arith,
            )
          ]
        ]
  ]

  judge_complete :
      (file_stat : FileStat) (snapshot : Json)
      → Judged file_stat snapshot
      → (judge H kind cwd (H.resolve path) limit file_stat snapshot).status ≡ pass
  unfolding judge
  judge_complete file_stat snapshot (records, age, named, counted, aged, recent) =
      ground (arith, eq_iff (expected_snapshot_kind kind) (expected_snapshot_kind kind))

  current_sound : (read_snapshot_health H kind path cwd limit).status ≡ pass → IsCurrent
  unfolding read_snapshot_health unread
  current_sound h = elim (Attempt-cases (H.stat (H.resolve path))) [
    | inr (f, e) ↦ absurd (ground arith)
    | inl (file_stat, found) ↦ elim (Attempt-cases (H.read_file (H.resolve path))) [
      | inr (f, e) ↦ absurd (ground arith)
      | inl (text, read) ↦ elim (Result-cases (H.parse_json text)) [
        | inr (m, e) ↦ absurd (ground arith)
        | inl (snapshot, parsed) ↦
            let (records, age, of_kind, counted, aged, recent) =
              judge_sound file_stat snapshot (ground arith) in
            record {
              file_stat = file_stat;
              text = text;
              snapshot = snapshot;
              records = records;
              age = age;
              found = found;
              read = read;
              parsed = parsed;
              of_kind = of_kind;
              counted = counted;
              aged = aged;
              recent = recent;
            }
      ]
    ]
  ]

  current_complete : IsCurrent → (read_snapshot_health H kind path cwd limit).status ≡ pass
  unfolding read_snapshot_health
  current_complete c =
      rw (c.found, read_snapshot_health, c.read, c.parsed)
        (judge_complete c.file_stat c.snapshot
          (c.records, c.age, c.of_kind, c.counted, c.aged, c.recent))

  -- A snapshot is judged ok exactly if it is current.
  pub read_snapshot_health-pass_iff :
      ((read_snapshot_health H kind path cwd limit).status ≡ pass) ↔ IsCurrent
  read_snapshot_health-pass_iff = (current_sound, current_complete)

  -- The file is not there: the system says so when its status or its text is asked for.
  abbrev pub IsAbsent : Type 0
  IsAbsent =
      (f : Fault) × (f.code ≡ "ENOENT")
      × ((H.stat (H.resolve path) ≡ failed f)
          ⊎ ((s : FileStat) × (H.stat (H.resolve path) ≡ done s)
              × (H.read_file (H.resolve path) ≡ failed f)))

  absent_sound : (read_snapshot_health H kind path cwd limit).exists ≡ false → IsAbsent
  unfolding read_snapshot_health unread judge
  absent_sound h = elim (Attempt-cases (H.stat (H.resolve path))) [
    | inr (f, e) ↦ (f, ground (arith, eq_iff f.code "ENOENT"), inl e)
    | inl (file_stat, found) ↦ elim (Attempt-cases (H.read_file (H.resolve path))) [
      | inr (f, e) ↦ (f, ground (arith, eq_iff f.code "ENOENT"), inr (file_stat, found, e))
      | inl (text, read) ↦ elim (Result-cases (H.parse_json text)) [
        | inr (m, e) ↦ absurd (ground arith)
        | inl (snapshot, parsed) ↦ absurd (ground arith)
      ]
    ]
  ]

  absent_complete : IsAbsent → (read_snapshot_health H kind path cwd limit).exists ≡ false
  unfolding read_snapshot_health unread
  absent_complete (f, code, inl e) = ground (arith, eq_iff f.code "ENOENT")
  absent_complete (f, code, inr (s, found, e)) = ground (arith, eq_iff f.code "ENOENT")

  -- A snapshot is reported as not existing exactly if the system says that its file is not there;
  -- a file that cannot be read for another reason, or that is no JSON, is reported as existing.
  pub read_snapshot_health-exists_iff :
      ((read_snapshot_health H kind path cwd limit).exists ≡ false) ↔ IsAbsent
  read_snapshot_health-exists_iff = (absent_sound, absent_complete)
