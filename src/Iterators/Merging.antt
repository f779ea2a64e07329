-- ===== src/Iterators/Merging.antt =====
-- `Merge` and `Clean` against the last-writer-wins specification.
use lightningstream.Base.{
  ◌^◌, ◌≤◌, ◌<◌, ◌≡◌, ◌≢◌, ◌⊎◌, ◌∙◌, ap, true, false, none, some, [], if◌then◌else◌, arith,
}
use lightningstream.Base.Bytes.{Bytes, equal_bytes, compare_bytes_refl, eq_of_compare}
use lightningstream.Base.Result.{ok}
use lightningstream.Header.{Header, parse, is_deleted, flag_deleted}
use lightningstream.Header.Skipping.{parse_shape}
use lightningstream.Snapshot.{Kv, masked_flags}
use lightningstream.Iterators.{
  NativeIterator, written_flags, add_header, merge_parsed, merge, clean,
}
use lightningstream.Iterators.Lww.{Version, version_of, version_of-inv, incoming, lww}
use lightningstream.Iterators.Writing.{
  Fits, version_of-add_header, incoming-value, incoming-timestamp, version_of-incoming,
  masked_flags-lt,
}

-- `Merge` stores a value wherever it finds one that `Parse` accepts.
merge-parsed :
    (it : NativeIterator) (entry : Kv) (oldval : Bytes) (h : Header) (app : Bytes)
    → parse oldval ≡ ok (h, app)
    → merge it entry oldval ≡ ok (some (merge_parsed it entry oldval h.timestamp app))
unfolding merge
merge-parsed it entry oldval h app e = ground (arith, parse_shape oldval h app e)

merge_parsed-lww :
    (it : NativeIterator) (entry : Kv) (oldval : Bytes) (old : Version)
    → Fits it entry
    → 0 < entry.timestamp_nano
    → version_of oldval ≡ ok old
    → version_of (merge_parsed it entry oldval old.timestamp old.value)
      ≡ ok (lww old (incoming it entry))
unfolding merge_parsed lww
merge_parsed-lww it entry oldval old fits pos e = ground (
  arith,
  incoming-value it entry fits,
  incoming-timestamp it entry pos,
  version_of-incoming it entry fits,
)

-- For an old value that `Parse` accepts, and an entry with a timestamp whose numbers fit 64 bits
-- and which has no value if it is marked as deleted: `Merge` returns a value, and what it stands
-- for is the last writer among what the old value and the entry stand for.
pub merge-lww :
    (it : NativeIterator) (entry : Kv) (oldval : Bytes) (old : Version)
    → Fits it entry
    → 0 < entry.timestamp_nano
    → version_of oldval ≡ ok old
    → (val : Bytes) × (merge it entry oldval ≡ ok (some val))
      × (version_of val ≡ ok (lww old (incoming it entry)))
merge-lww it entry oldval old fits pos e =
    let ((h, app), parsed, same) = version_of-inv oldval old e in
    (
      merge_parsed it entry oldval old.timestamp old.value,
      rw same (merge-parsed it entry oldval h app parsed),
      merge_parsed-lww it entry oldval old fits pos e,
    )

-- For an entry whose numbers fit 64 bits and no old value: an entry that is marked as deleted and
-- older than the cutoff is not stored, and any other is stored as what it stands for.
pub merge_new :
    (it : NativeIterator) (entry : Kv)
    → Fits it entry
    → (is_deleted (masked_flags entry) ≡ true
        → entry.timestamp_nano < it.deleted_cutoff
        → merge it entry [] ≡ ok none)
      × ((is_deleted (masked_flags entry) ≡ false) ⊎ (it.deleted_cutoff ≤ entry.timestamp_nano)
          → (val : Bytes) × (merge it entry [] ≡ ok (some val))
            × (version_of val ≡ ok (incoming it entry)))
unfolding merge
merge_new it entry fits = (
  λ d c. ground arith,
  λ r. (
    add_header it entry.value entry.timestamp_nano (masked_flags entry),
    ground arith,
    version_of-incoming it entry fits,
  ),
)

-- What `addHeader` makes of a deletion.
version_of-deletion :
    (it : NativeIterator)
    → it.default_timestamp < 2 ^ 64
    → it.txn_id < 2 ^ 64
    → version_of (add_header it [] 0 flag_deleted)
      ≡ ok (record { timestamp = it.default_timestamp; flags = 1; value = [] })
version_of-deletion it h1 h2 =
    version_of-add_header it [] 0 flag_deleted h1 h2 (omega arith) (omega arith)
    ∙ (unfold written_flags is_deleted in ground arith)

-- For numbers that fit 64 bits and an old value that `Parse` accepts: `Clean` keeps the bytes of a
-- value that is marked as deleted, and turns any other into one that is marked as deleted, has no
-- value and carries the iterator's timestamp.
pub clean_lem :
    (it : NativeIterator) (oldval : Bytes) (old : Version)
    → it.default_timestamp < 2 ^ 64
    → it.txn_id < 2 ^ 64
    → version_of oldval ≡ ok old
    → (val : Bytes) × (clean it oldval ≡ ok (some val))
      × ((is_deleted old.flags ≡ true → val ≡ oldval)
          × (is_deleted old.flags ≡ false
              → version_of val
                ≡ ok (record { timestamp = it.default_timestamp; flags = 1; value = [] })))
unfolding clean
clean_lem it oldval old h1 h2 e =
    let ((h, app), parsed, same) = version_of-inv oldval old e in
    (
      if is_deleted old.flags then oldval else add_header it [] 0 flag_deleted,
      rw (same, parsed),
      (λ d. rw d, λ d. rw d (version_of-deletion it h1 h2)),
    )

-- What a merge keeps, another iterator's merge of the same entry keeps.
merge_parsed_again :
    (it : NativeIterator) (entry : Kv) (old inc : Version) (val : Bytes)
    → 0 < entry.timestamp_nano
    → inc.timestamp ≡ entry.timestamp_nano
    → inc.value ≡ entry.value
    → merge_parsed it entry val (lww old inc).timestamp (lww old inc).value ≡ val
unfolding merge_parsed lww
merge_parsed_again it entry old inc val pos e f = ground (arith, compare_bytes_refl entry.value)

-- For an old value that `Parse` accepts and an entry as for `merge-lww`: a second merge of the
-- entry, by an iterator of any other transaction, returns the bytes that the first one returned.
pub merge_twice :
    (it it' : NativeIterator) (entry : Kv) (oldval : Bytes) (old : Version)
    → Fits it entry
    → 0 < entry.timestamp_nano
    → version_of oldval ≡ ok old
    → (val : Bytes) × (merge it entry oldval ≡ ok (some val))
      × (merge it' entry val ≡ ok (some val))
merge_twice it it' entry oldval old fits pos e =
    let (val, merged, stands) = merge-lww it entry oldval old fits pos e in
    let ((h, app), parsed, same) = version_of-inv val (lww old (incoming it entry)) stands in
    (
      val,
      merged,
      merge-parsed it' entry val h app parsed
          ∙ ap (λ b. ok (some b))
              (rw same at (
                merge_parsed_again it' entry old (incoming it entry) val pos
                  (incoming-timestamp it entry pos) (incoming-value it entry fits))),
    )

module _ (it : NativeIterator) (entry : Kv) (oldval : Bytes) (old : Version) where
  unchanged_value :
      entry.timestamp_nano ≡ 0
      → entry.value ≡ old.value
      → merge_parsed it entry oldval old.timestamp old.value ≡ oldval
  unfolding merge_parsed equal_bytes
  unchanged_value z e = ground (arith, compare_bytes_refl entry.value)

  changed_value :
      Fits it entry
      → entry.timestamp_nano ≡ 0
      → old.timestamp < it.default_timestamp
      → entry.value ≢ old.value
      → version_of (merge_parsed it entry oldval old.timestamp old.value) ≡ ok (incoming it entry)
  unfolding merge_parsed equal_bytes incoming
  changed_value fits z later ne = ground (
    arith,
    eq_of_compare old.value entry.value,
    version_of-add_header it entry.value it.default_timestamp (masked_flags entry)
        fits.default_timestamp fits.txn_id fits.default_timestamp (masked_flags-lt entry),
  )

-- For an entry without a timestamp (one that is read from a DBI of the application's) and an old
-- value that `Parse` accepts: `Merge` returns the old bytes if the application's value is the same.
-- Otherwise, at a default timestamp past that of the old value, the result stands for the entry at
-- the default timestamp.
pub merge_no_timestamp :
    (it : NativeIterator) (entry : Kv) (oldval : Bytes) (old : Version)
    → Fits it entry
    → entry.timestamp_nano ≡ 0
    → old.timestamp < it.default_timestamp
    → version_of oldval ≡ ok old
    → (val : Bytes) × (merge it entry oldval ≡ ok (some val))
      × ((entry.value ≡ old.value → val ≡ oldval)
          × (entry.value ≢ old.value → version_of val ≡ ok (incoming it entry)))
merge_no_timestamp it entry oldval old fits z later e =
    let ((h, app), parsed, same) = version_of-inv oldval old e in
    (
      merge_parsed it entry oldval old.timestamp old.value,
      rw same (merge-parsed it entry oldval h app parsed),
      (unchanged_value it entry oldval old z, changed_value it entry oldval old fits z later),
    )
