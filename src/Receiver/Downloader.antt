-- ===== src/Receiver/Downloader.antt =====
-- syncer/receiver/downloader.go and `Next` of receiver.go: the downloaders, one goroutine for each
-- instance, with the limits on what they keep in memory. A step of a downloader is the code from
-- one blocking call to the next; from the return of `LoadData` on, the calls that it makes, each
-- under a lock of its own, are one step. The hook `OtherUpdateSource` is not modelled.
pub mod Tokens
pub mod Ownership
pub mod Advancing
pub mod Memory
pub mod Progress
mod Tests
use lightningstream.Base.{
  ℕ, ◌≡◌, Bool, true, false, Option, none, some, List, [], ◌∷◌, ◌++◌, length, is_empty,
  if◌then◌else◌,
}
use lightningstream.Base.Bytes.{Bytes, equal_bytes}
use lightningstream.Base.Maps.{find, assign}
use lightningstream.Base.Result.{Result, ok, err, Error}
use lightningstream.Climit.{Limit, new_limit, acquire, release}
use lightningstream.Health.{HealthTracker, new_tracker}
use lightningstream.Snapshot.Name.{NameInfo}
use lightningstream.Receiver.{Receiver, mark_corrupt, notified_name, receive_names}

-- Where `Run` of a downloader stands: at the select, at the beginning of the inner loop, before
-- and in `Load` of the storage, before and in `LoadData`, or in `SleepContext`. A token is its
-- number in the limit.
pub data Phase : Type 0 where
  waiting checking pausing : Phase
  requesting : NameInfo → Phase
  fetching : NameInfo → ℕ → Phase
  fetched : NameInfo → ℕ → Bytes → Phase
  unpacking : NameInfo → ℕ → Bytes → ℕ → Phase

-- `Downloader`: `last`, the signal in `newSnapshotSignal`, and where its goroutine stands.
pub record Downloader : Type 0 where
  pub last : Option NameInfo
  pub signal : Bool
  pub phase : Phase

abbrev pub new_downloader : Downloader
new_downloader = record { last = none; signal = false; phase = waiting }

-- `NotifyNewSnapshot`: the channel has room for one signal.
abbrev pub notify_new_snapshot : Downloader → Downloader
notify_new_snapshot d = record d { signal = true }

-- `snapshot.Update` of a snapshot `S`, with the token that `OnClose` releases.
pub record Update {ℓ} (S : Type ℓ) : Type ℓ where
  pub snapshot : S
  pub name_info : NameInfo
  pub token : ℕ

-- The fields of `Receiver` that the goroutines share, and the updates that the syncer has and has
-- not closed.
pub record Pipeline {ℓ} (S : Type ℓ) : Type ℓ where
  pub receiver : Receiver
  pub snapshots_by_instance : List (Bytes × Update S)
  pub downloaders_by_instance : List (Bytes × Downloader)
  pub decompressed_snapshot_limit : Limit
  pub download_snapshot_limit : Limit
  pub storage_load_health : HealthTracker
  pub taken : List (Update S)

-- What a step is told: whether the context is done, what `Load` returns, and what the load health
-- tracker holds after `AddSuccess` or `AddFailure`. All downloaders share that tracker, and each
-- of those calls is several atomic operations, which interleave: it may hold anything.
pub record Outcome : Type 0 where
  pub canceled : Bool
  pub loaded : Result Bytes
  pub load_health : HealthTracker

-- `delete(m, k)`
unfoldable pub remove {ℓ} : {A : Type ℓ} → Bytes → List (Bytes × A) → List (Bytes × A)
remove k [] = []
remove k ((x, v) ∷ m) = elim (equal_bytes k x) [ true ↦ m | false ↦ (x, v) ∷ remove k m ]

module _ {ℓ} {S : Type ℓ} where
  abbrev pub put : Pipeline S → Bytes → Downloader → Pipeline S
  put p inst d = record p { downloaders_by_instance = assign inst d p.downloaders_by_instance }

  -- The goroutine has returned.
  abbrev pub drop_downloader : Pipeline S → Bytes → Pipeline S
  drop_downloader p inst = record p {
    downloaders_by_instance = remove inst p.downloaders_by_instance;
  }

  -- `getDownloader` and `NotifyNewSnapshot` for one instance.
  unfoldable pub notify_instance : Pipeline S → Bytes → Pipeline S
  notify_instance p inst = elim (find inst p.downloaders_by_instance) [
    | some d ↦ put p inst (notify_new_snapshot d)
    | none ↦ put p inst (notify_new_snapshot new_downloader)
  ]

  unfoldable pub notify_all : Pipeline S → List NameInfo → Pipeline S
  unfolding notify_instance
  notify_all p [] = p
  notify_all p (ni ∷ nis) = notify_all (notify_instance p ni.instance_id) nis

  -- `RunOnce` with what `List` returns.
  unfoldable pub run_once : (Bytes → Result NameInfo) → Pipeline S → Bool → List Bytes → Pipeline S
  unfolding notify_all
  run_once parse p including_own names =
      let (r, nis) = receive_names parse p.receiver including_own names in
      notify_all (record p { receiver = r }) nis

  -- `Next`, with the instance that the range over the map comes to first; the update is the
  -- syncer's now.
  unfoldable pub next : Pipeline S → Bytes → Option (Pipeline S)
  next p inst = if is_empty inst then none else elim (find inst p.snapshots_by_instance) [
    | none ↦ none
    | some u ↦ some (record p {
      snapshots_by_instance = remove inst p.snapshots_by_instance;
      taken = u ∷ p.taken;
    })
  ]

  -- `Close` of the update that the syncer took last.
  unfoldable pub close : Pipeline S → Option (Pipeline S)
  close p = elim p.taken [
    | [] ↦ none
    | u ∷ us ↦ elim (release p.decompressed_snapshot_limit u.token) [
      | none ↦ none
      | some l ↦ some (record p { taken = us; decompressed_snapshot_limit = l })
    ]
  ]

  -- `overwrittenSnap.Close()` after the assignment to the map.
  unfoldable pub close_overwritten : Option (Update S) → Limit → Option Limit
  close_overwritten none l = some l
  close_overwritten (some u) l = release l u.token

  -- `LoadOnce` after an error of `LoadData`: the tokens are released, the download token by the
  -- deferred call.
  unfoldable pub load_failed :
      Pipeline S → Bytes → Downloader → NameInfo → ℕ → ℕ → Option (Pipeline S)
  load_failed p inst d ni download_token token =
      elim (release p.decompressed_snapshot_limit token) [
        | none ↦ none
        | some l ↦ elim (release p.download_snapshot_limit download_token) [
          | none ↦ none
          | some l' ↦ some (
              put
                (record p {
                  receiver = mark_corrupt p.receiver ni.full_name;
                  decompressed_snapshot_limit = l;
                  download_snapshot_limit = l';
                })
                inst (record d { last = some ni; phase = pausing }))
        ]
      ]

  -- `LoadOnce` after `LoadData`, and the end of the round of `Run`: the download token is released,
  -- and a second time by the deferred call.
  unfoldable pub load_done :
      Pipeline S → Bytes → Downloader → NameInfo → ℕ → ℕ → S → Option (Pipeline S)
  unfolding close_overwritten
  load_done p inst d ni download_token token msg =
      elim (release p.download_snapshot_limit download_token) [
        | none ↦ none
        | some l ↦
            elim (close_overwritten (find inst p.snapshots_by_instance)
              p.decompressed_snapshot_limit) [
                | none ↦ none
                | some l' ↦ elim (release l download_token) [
                  | none ↦ none
                  | some l'' ↦ some (
                      put
                        (record p {
                          snapshots_by_instance =
                              assign inst (record { snapshot = msg; name_info = ni; token = token })
                                p.snapshots_by_instance;
                          decompressed_snapshot_limit = l';
                          download_snapshot_limit = l'';
                        })
                        inst (record d { last = some ni; phase = waiting }))
                ]
              ]
      ]

  -- One step of `Run` of the downloader `d` of the instance; `none` while it waits.
  unfoldable pub advance :
      (Bytes → Result S) → Pipeline S → Bytes → Downloader → Phase → Outcome → Option (Pipeline S)
  unfolding load_failed load_done
  advance load_data p inst d waiting o =
      if o.canceled
      then some (drop_downloader p inst)
      else if d.signal
      then some (put p inst (record d { signal = false; phase = checking }))
      else none
  advance load_data p inst d checking o = elim (find inst p.receiver.last_seen_by_instance) [
    | none ↦ some (put p inst (record d { phase = waiting }))
    | some ni ↦ some (
        put p inst (record d {
          phase =
              if equal_bytes ni.full_name (notified_name d.last) then waiting else requesting ni;
        }))
  ]
  advance load_data p inst d (requesting ni) o = elim (acquire p.download_snapshot_limit) [
    | none ↦ none
    | some l ↦ some (
        put (record p { download_snapshot_limit = l }) inst
          (record d { phase = fetching ni (length p.download_snapshot_limit.released) }))
  ]
  advance load_data p inst d (fetching ni download_token) o = elim o.loaded [
    | ok b ↦ some (
        put (record p { storage_load_health = o.load_health }) inst
          (record d { phase = fetched ni download_token b }))
    | err e ↦ elim (release p.download_snapshot_limit download_token) [
      | none ↦ none
      | some l ↦ some (
          put (record p { storage_load_health = o.load_health; download_snapshot_limit = l }) inst
            (record d { phase = pausing }))
    ]
  ]
  advance load_data p inst d (fetched ni download_token b) o =
      elim (acquire p.decompressed_snapshot_limit) [
        | none ↦ none
        | some l ↦ some (
            put (record p { decompressed_snapshot_limit = l }) inst
              (record d {
                phase =
                    unpacking ni download_token b (length p.decompressed_snapshot_limit.released);
              }))
      ]
  advance load_data p inst d (unpacking ni download_token b token) o = elim (load_data b) [
    | err e ↦ load_failed p inst d ni download_token token
    | ok msg ↦ load_done p inst d ni download_token token msg
  ]
  advance load_data p inst d pausing o =
      if o.canceled
      then some (drop_downloader p inst)
      else some (put p inst (record d { phase = checking }))

  -- The steps of the goroutines, in any order.
  pub data Step (parse : Bytes → Result NameInfo) (load_data : Bytes → Result S)
      : Pipeline S → Pipeline S → Type ℓ where
    lists :
        (p : Pipeline S) (including_own : Bool) (names : List Bytes)
        → Step parse load_data p (run_once parse p including_own names)
    advances :
        (p p' : Pipeline S) (inst : Bytes) (d : Downloader) (o : Outcome)
        → find inst p.downloaders_by_instance ≡ some d
        → advance load_data p inst d d.phase o ≡ some p'
        → Step parse load_data p p'
    takes : (p p' : Pipeline S) (inst : Bytes) → next p inst ≡ some p' → Step parse load_data p p'
    closes : (p p' : Pipeline S) → close p ≡ some p' → Step parse load_data p p'

  abbrev pub start : Receiver → ℕ → ℕ → Pipeline S
  start r decompressed downloaded = record {
    receiver = r;
    snapshots_by_instance = [];
    downloaders_by_instance = [];
    decompressed_snapshot_limit = new_limit decompressed;
    download_snapshot_limit = new_limit downloaded;
    storage_load_health = new_tracker;
    taken = [];
  }

  pub data Reachable (parse : Bytes → Result NameInfo) (load_data : Bytes → Result S) (r : Receiver)
      (decompressed downloaded : ℕ) : Pipeline S → Type ℓ where
    begin : Reachable parse load_data r decompressed downloaded (start r decompressed downloaded)
    step :
        (p p' : Pipeline S)
        → Reachable parse load_data r decompressed downloaded p
        → Step parse load_data p p'
        → Reachable parse load_data r decompressed downloaded p'
