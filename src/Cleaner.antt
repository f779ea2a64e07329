-- ===== src/Cleaner.antt =====
-- syncer/cleaner/cleaner.go: which snapshots a run of the cleaner deletes. Times are nanoseconds
-- since the epoch. `now.Sub(t) <= d` is written `now <= t + d`: the
-- difference in Go can be negative, and does not overflow for the times of snapshots.
pub mod Instances
pub mod Runs
pub mod Survivors
mod Tests
use lightningstream.Base.{
  ℕ, ◌+◌, Bool, true, false, Option, none, some, List, [], ◌∷◌, ◌++◌, map, ltb, leb, not,
}
use lightningstream.Base.Bytes.{Bytes, equal_bytes}
use lightningstream.Base.Maps.{find, filter, contains}
use lightningstream.Base.Result.{Result, ok, err, ◌>>=◌}
use lightningstream.Snapshot.Name.{NameInfo, parse_name, kind_snapshot}

-- `config.Cleanup` without the interval between runs, which only `Run` reads.
pub record Cleanup : Type 0 where
  pub enabled : Bool
  pub must_keep_interval : ℕ
  pub remove_old_instances_interval : ℕ

-- `Worker`: the maps `ignoredFilenames`, `snapFirstSeen` and `lastByInstance`.
pub record Worker : Type 0 where
  pub prefix : Bytes
  pub conf : Cleanup
  pub ignored_filenames : List Bytes
  pub snap_first_seen : List (Bytes × ℕ)
  pub last_by_instance : List (Bytes × ℕ)

-- `New`
abbrev pub new_worker : Bytes → Cleanup → Worker
new_worker name conf = record {
  prefix = name ++ (95 ∷ 95 ∷ []);
  conf = conf;
  ignored_filenames = [];
  snap_first_seen = [];
  last_by_instance = [];
}

-- The zero value of `config.Cleanup`.
abbrev pub no_cleanup : Cleanup
no_cleanup = record { enabled = false; must_keep_interval = 0; remove_old_instances_interval = 0 }

-- `SetCommitted` and `GetCommitted`
unfoldable pub set_committed : Worker → List (Bytes × ℕ) → Worker
set_committed w last = record w { last_by_instance = last ++ w.last_by_instance }

-- The lookup of `GetCommitted`, with 0 for a missing instance.
unfoldable pub get_committed : Worker → Bytes → ℕ
unfolding find
get_committed w i = elim (find i w.last_by_instance) [ none ↦ 0 | some t ↦ t ]

-- Whether a snapshot is at most as new as the committed one of its instance. The zero time, which
-- `GetCommitted` returns for an instance that it does not have, is before every snapshot's.
unfoldable pub is_committed : Worker → NameInfo → Bool
unfolding find
is_committed w ni = elim (find ni.instance_id w.last_by_instance) [
  | none ↦ false
  | some t ↦ leb ni.timestamp t
]

module _ (parse : Bytes → Result NameInfo) where
  -- The first loop: the snapshots of a listing, and the file names to ignore from now on.
  unfoldable pub collect : List Bytes → List Bytes → List NameInfo × List Bytes
  unfolding contains
  collect ignored [] = ([], ignored)
  collect ignored (name ∷ names) = elim (contains name ignored) [
    | true ↦ collect ignored names
    | false ↦ elim (parse name) [
      | err e ↦ collect (name ∷ ignored) names
      | ok ni ↦ elim (equal_bytes ni.kind kind_snapshot) [
        | true ↦ (let (found, ignored') = collect ignored names in (ni ∷ found, ignored'))
        | false ↦ collect ignored names
      ]
    ]
  ]

-- What the first filter leaves: `snapFirstSeen`, the instances with a snapshot that appeared
-- within `MustKeepInterval`, and the candidates.
pub record Recent : Type 0 where
  pub first_seen : List (Bytes × ℕ)
  pub seen_instances : List Bytes
  pub candidates : List NameInfo

unfoldable pub split_recent : ℕ → ℕ → List (Bytes × ℕ) → List NameInfo → Recent
unfolding find
split_recent now must_keep first_seen [] = record {
  first_seen = first_seen;
  seen_instances = [];
  candidates = [];
}
split_recent now must_keep first_seen (ni ∷ rest) = elim (find ni.full_name first_seen) [
  | none ↦ split_recent now must_keep ((ni.full_name, now) ∷ first_seen) rest
  | some t ↦ elim (leb now (t + must_keep)) [
    | true ↦
        (let r = split_recent now must_keep first_seen rest in
          record r { seen_instances = ni.instance_id ∷ r.seen_instances })
    | false ↦
        (let r = split_recent now must_keep first_seen rest in
          record r { candidates = ni ∷ r.candidates })
  ]
]

-- The second filter, with the instances seen so far: the candidates that are left, and `tooOld`.
unfoldable pub split_newest : ℕ → ℕ → List Bytes → List NameInfo → List NameInfo × List NameInfo
unfolding contains
split_newest now remove_old seen [] = ([], [])
split_newest now remove_old seen (ni ∷ rest) = elim (contains ni.instance_id seen) [
  | true ↦ (let (left, old) = split_newest now remove_old seen rest in (ni ∷ left, old))
  | false ↦
      (let (left, old) = split_newest now remove_old (ni.instance_id ∷ seen) rest in
        elim (ltb (ni.timestamp + remove_old) now) [
          | true ↦ (left, ni ∷ old)
          | false ↦ (left, old)
        ])
]

module _ (sort : List NameInfo → List NameInfo) (parse : Bytes → Result NameInfo) where
  -- The snapshots of the listing, from newest to oldest. `sort` is `slices.SortFunc`, which does
  -- not fix the order of equal timestamps.
  unfoldable pub listed : Worker → List Bytes → List NameInfo
  unfolding collect
  listed w names = sort (collect parse w.ignored_filenames names).0

  -- The worker after the run, and the snapshots that it asks the storage to delete, in order.
  unfoldable pub run_on : ℕ → Worker → List Bytes → Worker × List NameInfo
  unfolding listed split_recent split_newest filter contains collect is_committed
  run_on now w names =
      let (found, ignored) = collect parse w.ignored_filenames names in
      let seen = map (λ (ni : NameInfo). ni.full_name) found in
      let still = filter (λ e. contains e.0 seen) w.snap_first_seen in
      let recent = split_recent now w.conf.must_keep_interval still (listed w names) in
      let (left, old) =
        split_newest now w.conf.remove_old_instances_interval recent.seen_instances
          recent.candidates in
      (
        record w { ignored_filenames = ignored; snap_first_seen = recent.first_seen },
        left ++ filter (λ ni. is_committed w ni) old,
      )

  -- `Worker.RunOnce`, with what the storage's `List` returns for the prefix. Whether a delete
  -- succeeds only changes a log line.
  unfoldable pub run_once :
      ℕ → Worker → (Bytes → Result (List Bytes)) → Result (Worker × List NameInfo)
  unfolding run_on
  run_once now w list = elim w.conf.enabled [
    | false ↦ ok (w, [])
    | true ↦ do names ← list w.prefix; ok (run_on now w names)
  ]
