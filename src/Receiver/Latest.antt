-- ===== src/Receiver/Latest.antt =====
-- The snapshot that a run of the receiver takes as the last one of an instance.
use lightningstream.Base.{
  ◌≡◌, refl, ◌∙◌, ap, inl, inr, arith, Bool, true, false, Option, none, some, List, [], ◌∷◌, ◌++◌,
  Bool-cases, is_empty, not,
}
use lightningstream.Base.Bytes.{Bytes, equal_bytes}
use lightningstream.Base.Maps.{find, assign, contains, any, find-assign, eq_of_equal_bytes}
use lightningstream.Base.Result.{Result, ok, Error, Result-cases, err, ◌>>=◌}
use lightningstream.Snapshot.Name.{NameInfo, kind_snapshot}
use lightningstream.Receiver.{Receiver, scan, receive_names, receive_once}

module _ (parse : Bytes → Result NameInfo) (i : Bytes) where
  -- The snapshot of the instance that a name stands for.
  abbrev pub snapshot_of : List Bytes → Bytes → Option NameInfo
  snapshot_of ignored name = elim (contains name ignored) [
    | true ↦ none
    | false ↦ elim (parse name) [
      | err e ↦ none
      | ok ni ↦ elim (equal_bytes ni.kind kind_snapshot) [
        | true ↦ elim (equal_bytes i ni.instance_id) [ true ↦ some ni | false ↦ none ]
        | false ↦ none
      ]
    ]
  ]

  abbrev pub or_else : Option NameInfo → Option NameInfo → Option NameInfo
  or_else none o = o
  or_else (some x) o = some x

  -- The last snapshot of the instance in the listing.
  abbrev pub last_of : List Bytes → List Bytes → Option NameInfo
  last_of ignored [] = none
  last_of ignored (name ∷ names) = or_else (last_of ignored names) (snapshot_of ignored name)

  snapshot_of-invalid :
      (ignored : List Bytes) (x name : Bytes) (e : Error)
      → parse x ≡ err e
      → snapshot_of (x ∷ ignored) name ≡ snapshot_of ignored name
  unfolding contains any
  snapshot_of-invalid ignored x name e bad = elim (Bool-cases (equal_bytes name x)) [
    | inl same ↦
        (let bad' : parse name ≡ err e = rw (eq_of_equal_bytes name x same) bad in
          ground (arith, bad'))
    | inr other ↦ ground arith
  ]

  last_of-invalid :
      (ignored : List Bytes) (x : Bytes) (e : Error) (names : List Bytes)
      → parse x ≡ err e
      → last_of (x ∷ ignored) names ≡ last_of ignored names
  last_of-invalid ignored x e [] bad = refl
  last_of-invalid ignored x e (name ∷ names) bad =
      rw (last_of-invalid ignored x e names bad, snapshot_of-invalid ignored x name e bad) refl

  scan-last_of :
      (ignored : List Bytes) (last : List (Bytes × NameInfo)) (names : List Bytes)
      → find i (scan parse ignored last names).0 ≡ or_else (last_of ignored names) (find i last)
  unfolding scan
  scan-last_of ignored last [] = refl
  scan-last_of ignored last (name ∷ names) = elim (Result-cases (parse name)) [
    | inr (e, bad) ↦ ground (
      arith,
      bad,
      last_of-invalid ignored name e names bad,
      scan-last_of (name ∷ ignored) last names,
      scan-last_of ignored last names,
    )
    | inl (ni, good) ↦ ground (
      arith,
      good,
      find-assign i ni.instance_id ni last,
      scan-last_of ignored (assign ni.instance_id ni last) names,
      scan-last_of ignored last names,
    )
  ]

or_else-none :
    (parse : Bytes → Result NameInfo) (i : Bytes) (o : Option NameInfo) → or_else parse i o none ≡ o
or_else-none parse i none = refl
or_else-none parse i (some x) = refl

-- Where the storage lists these names, a run succeeds. Afterwards the snapshot that the receiver
-- holds for an instance is the last one in the listing that `ParseName` takes for a snapshot of
-- the instance and that is neither ignored nor marked as corrupt, and the receiver has snapshots
-- exactly if it holds one for some instance.
pub receive_once-last_of :
    (parse : Bytes → Result NameInfo) (r : Receiver) (list : Bytes → Result (List Bytes))
    (including_own : Bool) (names : List Bytes)
    → list r.prefix ≡ ok names
    → (r' : Receiver) × ((notified : List NameInfo) × ((receive_once parse r list including_own
            ≡ ok (r', notified))
          × (((i : Bytes)
                → find i r'.last_seen_by_instance
                  ≡ last_of parse i (r.corrupt_snapshots ++ r.ignored_filenames) names)
              × (r'.has_snapshots ≡ not (is_empty r'.last_seen_by_instance)))))
unfolding receive_once find
receive_once-last_of parse r list including_own names h =
    let ignored = r.corrupt_snapshots ++ r.ignored_filenames in
    let p = receive_names parse r including_own names in
    (
      p.0,
      (
        p.1,
        (
          ap (λ found. found >>= λ names. ok (receive_names parse r including_own names)) h,
          (
            λ i.
                scan-last_of parse i ignored [] names
                ∙ or_else-none parse i (last_of parse i ignored names),
            refl,
          ),
        ),
      ),
    )
