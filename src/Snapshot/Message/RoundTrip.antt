-- ===== src/Snapshot/Message/RoundTrip.antt =====
-- A DBI of a snapshot is read back from its data.
use mathlib.Core.List.{append-nil}
use lightningstream.Base.{
  suc, ◌+◌, ◌^◌, ◌<◌, ◌≤◌, ◌≡◌, refl, sym, ap, ◌∙◌, arith, true, not, ◌==◌, length, List, [], ◌∷◌,
  ◌++◌, length-append, inl, inr, Bool-cases,
}
use lightningstream.Base.Bytes.{Bytes}
use lightningstream.Base.Result.{Result, ok, ◌>>=◌}
use lightningstream.Snapshot.{Kv}
use lightningstream.Snapshot.Dbi.{Dbi}
use lightningstream.Snapshot.Wire.{Csproto, IsVarint}
use lightningstream.Snapshot.Encoding.{bytes_field, msg_size, kv_bytes}
use lightningstream.Snapshot.Encoding.RoundTrip.{length-kv_bytes, msg_size-lt}
use lightningstream.Snapshot.Chain.{
  concat, concat-append, one_if, Chain, Chain-append, Chain-one_if, length-Chain,
}
use lightningstream.Snapshot.Message.{
  DbiMessage, new_dbi, set_name, set_flags, set_transform, marshal, new_dbi_from_data,
  as_inefficient_kv_list,
}
use lightningstream.Snapshot.Message.Indexing.{
  Indexes, Indexes-entry, top_fields, Chain-top_fields, index_loop_lem,
}
use lightningstream.Snapshot.Message.Flushing.{FieldsFit, flushed, flush_fields_lem, append-flushed}
use lightningstream.Snapshot.Message.Skipping.{Sees-top_fields}
use lightningstream.Snapshot.Message.Listing.{
  AllFit, append_all, written, message, appended, append_all_lem, kv_list_lem, same_message,
}

module _ (p : Csproto) where
  -- A new DBI with its fields, to which the entries are appended, as `readDBI` and `Map` do it.
  unfoldable pub to_message : Dbi → Result DbiMessage
  unfolding set_name set_flags set_transform
  to_message d = do
    d1 ← set_name new_dbi d.name
    d2 ← set_flags d1 d.flags
    d3 ← set_transform d2 d.transform
    append_all p d3 d.entries

  -- The fields and the entries that a client finds in a DBI.
  unfoldable pub of_message : DbiMessage → Result Dbi
  of_message m = do
    kvs ← as_inefficient_kv_list p m
    ok (record { name = m.name; flags = m.flags; transform = m.transform; entries = kvs })

  -- The same from its data.
  unfoldable pub of_data : Bytes → Result Dbi
  unfolding of_message
  of_data b = do m ← new_dbi_from_data p b; of_message m

module _ (p : Csproto) (laws : IsVarint p) where
  abbrev pub with_fields : Dbi → DbiMessage
  with_fields d = record new_dbi { name = d.name; flags = d.flags; transform = d.transform }

  -- The data of a DBI.
  abbrev pub data_of : Dbi → Bytes
  data_of d = concat (top_fields p laws (with_fields d)) ++ message p d.entries

  -- The fields of a DBI fit the buffer of `doFlushFields`, its entries Go's types, and its data the
  -- memory.
  pub record DbiFits (d : Dbi) : Type 0 where
    pub sizes : length d.name + length d.transform ≤ 800
    pub flags : d.flags < 2 ^ 64
    pub entries : AllFit d.entries
    pub data_size : length (data_of d) < 2 ^ 62

  abbrev pub built : Dbi → DbiMessage
  built d = record (with_fields d) {
    buffer = data_of d;
    flushed = true;
    num_written_entries = length d.entries;
  }

  marshal-append_all :
      (o : DbiMessage) (kvs : List Kv)
      → o.dirty ≡ true
      → FieldsFit p laws o
      → AllFit kvs
      → (append_all p o kvs >>= marshal p)
        ≡ (let m = appended p (flushed p laws o) kvs in ok (m, m.buffer))
  unfolding marshal
  marshal-append_all o [] dirty fit fits =
      let m = flushed p laws o in
      ap (λ r. r >>= λ d'. ok (d', d'.buffer)) (flush_fields_lem p laws o dirty fit)
      ∙ ap (λ d'. ok (d', d'.buffer)) (same_message m (sym (append-nil m.buffer)) (omega arith))
  marshal-append_all o (kv ∷ kvs) dirty fit fits =
      let m = flushed p laws o in
      ap (λ r. (r >>= λ d'. append_all p d' kvs) >>= marshal p)
        (append-flushed p laws o kv dirty fit)
      ∙ ap (λ r. r >>= marshal p) (append_all_lem p laws m (kv ∷ kvs) refl fits)

  entry_fields : List Kv → List Bytes
  entry_fields [] = []
  entry_fields (kv ∷ kvs) =
      one_if (not (msg_size p kv == 0)) (bytes_field p 2 (kv_bytes p kv)) ++ entry_fields kvs

  concat-entry_fields : (kvs : List Kv) → concat (entry_fields kvs) ≡ message p kvs
  unfolding entry_fields
  concat-entry_fields [] = refl
  concat-entry_fields (kv ∷ kvs) = elim (Bool-cases (msg_size p kv == 0)) [
    | inl t ↦ rw (t) (concat-entry_fields kvs)
    | inr f ↦ rw (f) (ap (λ b. bytes_field p 2 (kv_bytes p kv) ++ b) (concat-entry_fields kvs))
  ]

  Chain-entry_fields :
      (m : DbiMessage) (kvs : List Kv) → AllFit kvs → Chain (Indexes p laws) (entry_fields kvs) m m
  unfolding entry_fields
  Chain-entry_fields m [] fits = refl
  Chain-entry_fields m (kv ∷ kvs) (fit, fits) =
      let b = kv_bytes p kv in
      let short : length b < 2 ^ 62 =
        omega (arith, length-kv_bytes p laws kv fit, msg_size-lt p laws kv fit) in
      Chain-append (Indexes p laws) _ _ m m m
        (Chain-one_if (Indexes p laws) (not (msg_size p kv == 0)) (bytes_field p 2 b) m m
          (λ t. Indexes-entry p laws m b short) (λ f. refl))
        (Chain-entry_fields m kvs fits)

  pub to_message-marshal :
      (d : Dbi) → DbiFits d → (to_message p d >>= marshal p) ≡ ok (built d, data_of d)
  unfolding to_message
  to_message-marshal d fit =
      marshal-append_all (record (with_fields d) { dirty = true }) d.entries refl
        (record { sizes = fit.sizes; flags = fit.flags }) fit.entries
      ∙ ap (λ n. ok (record (built d) { num_written_entries = n }, data_of d)) (omega arith)

  abbrev pub read_back : Dbi → DbiMessage
  read_back d = record (with_fields d) { buffer = data_of d; flushed = true }

  pub new_dbi_from_data-data_of :
      (d : Dbi) → DbiFits d → new_dbi_from_data p (data_of d) ≡ ok (read_back d)
  unfolding new_dbi_from_data
  new_dbi_from_data-data_of d fit =
      let o = record new_dbi { buffer = data_of d; flushed = true } in
      let m = record (with_fields d) { buffer = data_of d; flushed = true } in
      let top = top_fields p laws (with_fields d) in
      let fs = top ++ entry_fields d.entries in
      let same : concat fs ≡ data_of d =
        concat-append top (entry_fields d.entries)
        ∙ ap (λ b. concat top ++ b) (concat-entry_fields d.entries) in
      let ch : Chain (Indexes p laws) fs o m =
        Chain-append (Indexes p laws) top (entry_fields d.entries) o m m
          (Chain-top_fields p laws (with_fields d) o (omega (arith, fit.sizes)) fit.flags
            (omega (arith, fit.sizes)))
          (Chain-entry_fields m d.entries fit.entries) in
      let short : length fs ≤ length (data_of d) =
        omega (arith, ap length same, length-Chain (Indexes p laws) fs o m (λ f a b r. r.0) ch) in
      index_loop_lem p laws fs (suc (length (data_of d))) [] o m ch (omega (arith, short))
        (sym same) (omega (arith, fit.data_size))

  as_inefficient_kv_list-data_of :
      (d : Dbi) (m : DbiMessage)
      → DbiFits d
      → m.buffer ≡ data_of d
      → as_inefficient_kv_list p m ≡ ok (written p d.entries)
  unfolding as_inefficient_kv_list
  as_inefficient_kv_list-data_of d m fit e =
      let o = with_fields d in
      let start = record m { cur = 0 } in
      let lt : length m.buffer < 2 ^ 62 = omega (arith, fit.data_size, ap length e) in
      kv_list_lem p laws d.entries (suc (length m.buffer)) start (concat (top_fields p laws o))
        fit.entries e
        (Sees-top_fields p laws start o (message p d.entries) (omega (arith, fit.sizes)) fit.flags
          (omega (arith, fit.sizes)) e refl (omega (arith, lt)))
        lt
        (omega
          (arith, ap length e, length-append (concat (top_fields p laws o)) (message p d.entries)))

  pub of_message-read_back :
      (d : Dbi)
      → DbiFits d
      → of_message p (read_back d) ≡ ok (record d { entries = written p d.entries })
  unfolding of_message
  of_message-read_back d fit = rw (as_inefficient_kv_list-data_of d (read_back d) fit refl) refl

  of_data-data_of :
      (d : Dbi)
      → DbiFits d
      → of_data p (data_of d) ≡ ok (record d { entries = written p d.entries })
  unfolding of_data
  of_data-data_of d fit =
      ap (λ r. r >>= of_message p) (new_dbi_from_data-data_of d fit) ∙ of_message-read_back d fit

  -- A DBI that is written as a message (its name, flags and transform set, its entries appended,
  -- the whole marshalled) does not panic, and is read back with the same fields and with the same
  -- entries in the same order, but for entries without fields, which are not written. The fields
  -- fit the buffer for them, the entries Go's types, the data the memory, and the varints of
  -- csproto are decoded as they are encoded.
  pub marshal-of_data :
      (d : Dbi)
      → DbiFits d
      → (to_message p d >>= marshal p >>= λ (m, b). of_data p b)
        ≡ ok (record d { entries = written p d.entries })
  marshal-of_data d fit =
      ap (λ r. r >>= λ (m, b). of_data p b) (to_message-marshal d fit) ∙ of_data-data_of d fit
