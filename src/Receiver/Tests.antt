-- ===== src/Receiver/Tests.antt =====
-- A listing of two instances, and the theorem at it.
use lightningstream.Base.{◌≡◌, refl, false, not, is_empty, List, [], ◌∷◌}
use lightningstream.Base.Bytes.{Bytes, equal_bytes, compare_bytes}
use lightningstream.Base.Maps.{find, any}
use lightningstream.Base.Result.{Result, ok, err, bad_name}
use lightningstream.Snapshot.Name.{NameInfo, kind_snapshot}
use lightningstream.Receiver.{Receiver, receive_once, scan}
use lightningstream.Receiver.Latest.{last_of, receive_once-last_of}

-- A parser for names of two bytes, the instance and the timestamp.
abbrev info : Bytes → NameInfo
info name = record {
  full_name = name;
  base_name = name;
  extension = [];
  kind = kind_snapshot;
  syncer_name = [];
  instance_id = elim name [ [] ↦ [] | i ∷ rest ↦ i ∷ [] ];
  generation_id = [];
  timestamp_string = [];
  timestamp = 0;
  extra = [];
}

abbrev parse : Bytes → Result NameInfo
parse (i ∷ t ∷ []) = ok (info (i ∷ t ∷ []))
parse name = err bad_name

abbrev listing : List Bytes
listing = (65 ∷ 1 ∷ []) ∷ (65 ∷ 2 ∷ []) ∷ (66 ∷ 1 ∷ []) ∷ (9 ∷ []) ∷ []

abbrev list_all : Bytes → Result (List Bytes)
list_all prefix = ok listing

abbrev receiver : Receiver
receiver = record {
  prefix = [];
  own_instance = 66 ∷ [];
  last_notified_by_instance = [];
  ignored_filenames = [];
  last_seen_by_instance = [];
  has_snapshots = false;
  corrupt_snapshots = (65 ∷ 2 ∷ []) ∷ [];
}

-- The newest snapshot of 65 is corrupt, and 66 is the own instance.
scan-listing : scan parse receiver.corrupt_snapshots [] listing ≡ (
  (65 ∷ [], info (65 ∷ 1 ∷ [])) ∷ (66 ∷ [], info (66 ∷ 1 ∷ [])) ∷ [],
  (9 ∷ []) ∷ (65 ∷ 2 ∷ []) ∷ [],
)
unfolding scan equal_bytes compare_bytes any
scan-listing = refl

receive_once-last_of_example :
    (r' : Receiver) × ((notified : List NameInfo) × ((receive_once parse receiver list_all false
          ≡ ok (r', notified))
        × (((i : Bytes)
              → find i r'.last_seen_by_instance ≡ last_of parse i ((65 ∷ 2 ∷ []) ∷ []) listing)
            × (r'.has_snapshots ≡ not (is_empty r'.last_seen_by_instance)))))
receive_once-last_of_example = receive_once-last_of parse receiver list_all false listing refl
