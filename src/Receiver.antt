-- ===== src/Receiver.antt =====
-- syncer/receiver/receiver.go: which snapshot of each instance is the one to load. The downloaders
-- are goroutines of their own; here a run returns the snapshots of which it notifies them.
pub mod Latest
pub mod Downloader
mod Tests
use lightningstream.Base.{
  ℕ, Bool, true, false, not, ◌&&◌, ◌||◌, Option, none, some, List, [], ◌∷◌, ◌++◌, if◌then◌else◌,
  is_empty,
}
use lightningstream.Base.Bytes.{Bytes, equal_bytes}
use lightningstream.Base.Maps.{find, assign, contains}
use lightningstream.Base.Result.{Result, ok, err, ◌>>=◌}
use lightningstream.Snapshot.Name.{NameInfo, kind_snapshot}

-- `Receiver`: its maps of names, and the names in `corruptSnapshots`.
pub record Receiver : Type 0 where
  pub prefix : Bytes
  pub own_instance : Bytes
  pub last_notified_by_instance : List (Bytes × NameInfo)
  pub ignored_filenames : List Bytes
  pub last_seen_by_instance : List (Bytes × NameInfo)
  pub has_snapshots : Bool
  pub corrupt_snapshots : List Bytes

-- `MarkCorrupt`
unfoldable pub mark_corrupt : Receiver → Bytes → Receiver
unfolding contains
mark_corrupt r filename =
    if contains filename r.corrupt_snapshots
    then r
    else record r { corrupt_snapshots = filename ∷ r.corrupt_snapshots }

module _ (parse : Bytes → Result NameInfo) where
  -- The loop over the listing: the last snapshot of each instance, and the names to ignore.
  unfoldable pub scan :
      List Bytes → List (Bytes × NameInfo) → List Bytes → List (Bytes × NameInfo) × List Bytes
  unfolding contains assign
  scan ignored last [] = (last, ignored)
  scan ignored last (name ∷ names) = elim (contains name ignored) [
    | true ↦ scan ignored last names
    | false ↦ elim (parse name) [
      | err e ↦ scan (name ∷ ignored) last names
      | ok ni ↦ elim (equal_bytes ni.kind kind_snapshot) [
        | true ↦ scan ignored (assign ni.instance_id ni last) names
        | false ↦ scan ignored last names
      ]
    ]
  ]

-- The full name of an entry that may be missing; a missing one has an empty name.
abbrev pub notified_name : Option NameInfo → Bytes
notified_name none = []
notified_name (some ni) = ni.full_name

-- The loop over the instances: `lastNotifiedByInstance`, and the snapshots to notify of.
unfoldable pub notify :
    Bool
    → Bytes
    → List (Bytes × NameInfo)
    → List (Bytes × NameInfo)
    → List (Bytes × NameInfo) × List NameInfo
unfolding find assign
notify including_own own last [] = (last, [])
notify including_own own last ((inst, ni) ∷ rest) =
    elim (equal_bytes ni.full_name (notified_name (find inst last))
      || (not including_own && equal_bytes inst own)) [
        | true ↦ notify including_own own last rest
        | false ↦
            (let (last', notified) = notify including_own own (assign inst ni last) rest in
              (last', ni ∷ notified))
      ]

-- The part of `RunOnce` that follows the listing.
unfoldable pub receive_names :
    (Bytes → Result NameInfo) → Receiver → Bool → List Bytes → Receiver × List NameInfo
unfolding scan notify
receive_names parse r including_own names =
    let (seen, ignored) = scan parse (r.corrupt_snapshots ++ r.ignored_filenames) [] names in
    let (last, notified) = notify including_own r.own_instance r.last_notified_by_instance seen in
    (
      record r {
        last_notified_by_instance = last;
        ignored_filenames = ignored;
        last_seen_by_instance = seen;
        has_snapshots = not (is_empty seen);
      },
      notified,
    )

-- `Receiver.RunOnce`, with what the storage's `List` returns for the prefix.
unfoldable pub receive_once :
    (Bytes → Result NameInfo)
    → Receiver
    → (Bytes → Result (List Bytes))
    → Bool
    → Result (Receiver × List NameInfo)
unfolding receive_names
receive_once parse r list including_own = do
  names ← list r.prefix
  ok (receive_names parse r including_own names)
