-- ===== src/Receiver/Downloader/Tests.antt =====
-- Runs of the downloaders.
use lightningstream.Base.{
  ◌≡◌, ◌≢◌, ◌↔◌, ◌≤◌, refl, false, Option, none, some, List, [], ◌∷◌, inl, inr, Option-cases, arith,
}
use lightningstream.Base.Bytes.{Bytes, equal_bytes, compare_bytes}
use lightningstream.Base.Maps.{find, any}
use lightningstream.Base.Result.{Result, ok, err, bad_name, bad_format}
use lightningstream.Health.{new_tracker}
use lightningstream.Climit.{acquire, release, new_limit}
use lightningstream.Snapshot.Name.{NameInfo, kind_snapshot}
use lightningstream.Receiver.{Receiver, receive_names}
use lightningstream.Receiver.Downloader.{
  unpacking, new_downloader, Pipeline, Outcome, advance, next, close, remove, run_once, Step, lists,
  advances, takes, closes, start, Reachable, begin, step,
}
use lightningstream.Receiver.Downloader.Memory.{
  in_memory, downloading, at_least_one, in_memory-le-limit,
}
use lightningstream.Receiver.Downloader.Progress.{unpacking_advances}

abbrev info : Bytes → NameInfo
info name = record {
  full_name = name;
  base_name = name;
  extension = [];
  kind = kind_snapshot;
  syncer_name = [];
  instance_id = elim name [ [] ↦ [] | i ∷ rest ↦ i ∷ [] ];
  generation_id = [];
  timestamp_string = [];
  timestamp = 0;
  extra = [];
}

-- A parser for names of two bytes, the instance and the timestamp.
abbrev parse : Bytes → Result NameInfo
parse (i ∷ t ∷ []) = ok (info (i ∷ t ∷ []))
parse name = err bad_name

-- Data of no bytes is no snapshot.
abbrev load_data : Bytes → Result Bytes
load_data [] = err bad_format
load_data b = ok b

abbrev receiver : Receiver
receiver = record {
  prefix = [];
  own_instance = 66 ∷ [];
  last_notified_by_instance = [];
  ignored_filenames = [];
  last_seen_by_instance = [];
  has_snapshots = false;
  corrupt_snapshots = [];
}

abbrev outcome : Bytes → Outcome
outcome b = record { canceled = false; loaded = ok b; load_health = new_tracker }

-- What is done next, where it does not wait.
data Move : Type 0 where
  listing : List Bytes → Move
  go : Bytes → Bytes → Move
  take close_it : Bytes → Move

unless_waiting : Pipeline Bytes → Option (Pipeline Bytes) → Pipeline Bytes
unless_waiting p none = p
unless_waiting p (some p') = p'

proceed : Pipeline Bytes → Bytes → Bytes → Option (Pipeline Bytes)
proceed p inst b = elim (find inst p.downloaders_by_instance) [
  | none ↦ none
  | some d ↦ advance load_data p inst d d.phase (outcome b)
]

move : Pipeline Bytes → Move → Pipeline Bytes
unfolding proceed unless_waiting
move p (listing names) = run_once parse p false names
move p (go inst b) = unless_waiting p (proceed p inst b)
move p (take inst) = unless_waiting p (next p inst)
move p (close_it inst) = unless_waiting p (close p)

run : Pipeline Bytes → List Move → Pipeline Bytes
unfolding move
run p [] = p
run p (m ∷ ms) = run (move p m) ms

abbrev Reached : Pipeline Bytes → Type 0
Reached p = Reachable parse load_data receiver 2 3 p

unless_waiting-Reached :
    (p : Pipeline Bytes) (o : Option (Pipeline Bytes))
    → Reached p
    → ((p' : Pipeline Bytes) → o ≡ some p' → Step parse load_data p p')
    → Reached (unless_waiting p o)
unfolding unless_waiting
unless_waiting-Reached p none r s = r
unless_waiting-Reached p (some p') r s = step p p' r (s p' refl)

proceed-Step :
    (p p' : Pipeline Bytes) (inst b : Bytes)
    → proceed p inst b ≡ some p'
    → Step parse load_data p p'
unfolding proceed
proceed-Step p p' inst b e = elim (Option-cases (find inst p.downloaders_by_instance)) [
  | inl g ↦ absurd (ground (arith, g, e))
  | inr (d, g) ↦ advances p p' inst d (outcome b) g (rw (g, proceed) at e)
]

move-Reached : (p : Pipeline Bytes) (m : Move) → Reached p → Reached (move p m)
unfolding move
move-Reached p (listing names) r = step p _ r (lists p false names)
move-Reached p (go inst b) r =
    unless_waiting-Reached p (proceed p inst b) r (λ p' e. proceed-Step p p' inst b e)
move-Reached p (take inst) r = unless_waiting-Reached p (next p inst) r (λ p' e. takes p p' inst e)
move-Reached p (close_it inst) r = unless_waiting-Reached p (close p) r (λ p' e. closes p p' e)

run-Reached : (p : Pipeline Bytes) (ms : List Move) → Reached p → Reached (run p ms)
unfolding run
run-Reached p [] r = r
run-Reached p (m ∷ ms) r = run-Reached (move p m) ms (move-Reached p m r)

abbrev a : Bytes
a = 65 ∷ []

abbrev downloads : Bytes → List Move
downloads b = go a b ∷ go a b ∷ go a b ∷ go a b ∷ go a b ∷ go a b ∷ []

-- A snapshot of the instance is downloaded and taken, and the next one is ready.
abbrev moves : List Move
moves =
    listing ((65 ∷ 1 ∷ []) ∷ (66 ∷ 1 ∷ []) ∷ [])
    ∷ go a []
    ∷ go a []
    ∷ go a []
    ∷ go a (3 ∷ [])
    ∷ go a []
    ∷ go a []
    ∷ take a
    ∷ listing ((65 ∷ 1 ∷ []) ∷ (65 ∷ 2 ∷ []) ∷ [])
    ∷ go a []
    ∷ go a []
    ∷ go a []
    ∷ go a (4 ∷ [])
    ∷ go a []
    ∷ go a []
    ∷ []

abbrev end : Pipeline Bytes
end = run (start receiver 2 3) moves

in_memory-le-limit_example :
    (in_memory end ≤ at_least_one 2)
    × ((acquire end.decompressed_snapshot_limit ≡ none) ↔ (in_memory end ≡ at_least_one 2))
    × (downloading end ≤ at_least_one 3)
    × ((acquire end.download_snapshot_limit ≡ none) ↔ (downloading end ≡ at_least_one 3))
in_memory-le-limit_example =
    in_memory-le-limit parse load_data receiver 2 3 end
      (run-Reached (start receiver 2 3) moves begin)

unpacking_advances_example :
    (advance load_data end a new_downloader (unpacking (info (65 ∷ 3 ∷ [])) 0 [] 0) (outcome [])
      ≢ none)
    × (close (record end {
      taken = record { snapshot = []; name_info = info (65 ∷ 1 ∷ []); token = 0 } ∷ [];
    })
        ≢ none)
unpacking_advances_example =
    unpacking_advances parse load_data receiver 2 3 end a new_downloader (outcome [])
      (info (65 ∷ 3 ∷ [])) 0 [] 0
      (record { snapshot = []; name_info = info (65 ∷ 1 ∷ []); token = 0 }) []
      (run-Reached (start receiver 2 3) moves begin)

two_in_memory : in_memory end ≡ 2
unfolding run find run_once receive_names any next equal_bytes compare_bytes advance acquire
    new_limit release remove
two_in_memory = refl
