-- ===== src/Snapshot/Root/RoundTrip.antt =====
-- A snapshot is loaded from its file as it was dumped.
use lightningstream.Base.{◌≡◌, refl, sym, ap, ◌∙◌, none, List, []}
use lightningstream.Base.Bytes.{Bytes}
use lightningstream.Base.Result.{ok, ◌>>=◌}
use lightningstream.Snapshot.Wire.{Csproto, IsVarint}
use lightningstream.Snapshot.Decoder.{Decoder, IsDecoder}
use lightningstream.Snapshot.Message.{DbiMessage}
use lightningstream.Snapshot.Root.{
  Root, no_snapshot, unmarshal_root, Gzip, size_all, dump_data, load_data, write_to, buffer, Out,
}
use lightningstream.Snapshot.Root.Writing.{after, write_to-buffer}
use lightningstream.Snapshot.Root.Content.{Content, all_written, save, restore}
use lightningstream.Snapshot.Root.Reading.{
  builts, read_backs, triples, to_messages-size_all, triples-Marshalled, before-triples,
  of_messages-read_backs, ContentFits, dumped, unmarshal_root-root_fields,
}

module _ (p : Csproto) (laws : IsVarint p) (c : Decoder) (dec : IsDecoder p c) where
  -- gzip: whatever is compressed is found again.
  abbrev pub IsGzip : Gzip → Type 0
  IsGzip g = (b : Bytes) → (b' : Bytes) × (g.compress b ≡ ok b') × (g.decompress b' ≡ ok b)

  dump_data-compress :
      (g : Gzip) (r : Root) (ds ds' : List DbiMessage) (out : Out buffer) (b : Bytes)
      → size_all p c g r.databases ≡ ok ds
      → write_to buffer p [] (record r { databases = ds }) ≡ ok (out, record r { databases = ds' })
      → out.error ≡ none
      → g.compress out.writer ≡ ok b
      → dump_data p c g r ≡ ok (b, record r { databases = ds' })
  unfolding dump_data
  dump_data-compress g r ds ds' out b e w fine z = rw (e, w) (rw (fine, z) refl)

  -- The file of a snapshot.
  dump_data_lem :
      (g : Gzip) (s : Content) (ms : List DbiMessage)
      → IsGzip g
      → ContentFits p laws c dec s
      → size_all p c g ms ≡ ok (builts p laws c dec s.databases)
      → (b : Bytes) × (r : Root) × (dump_data p c g (dumped p laws c dec s ms) ≡ ok (b, r))
        × (load_data p c g b ≡ ok (dumped p laws c dec s (read_backs p laws c dec s.databases)))
  unfolding load_data
  dump_data_lem g s ms zip fit e =
      let ds = triples p laws c dec s.databases in
      let (out, w, (full, fine)) =
        write_to-buffer p (dumped p laws c dec s (builts p laws c dec s.databases)) ds
          (triples-Marshalled p laws c dec s.databases fit.databases)
          (sym (before-triples p laws c dec s.databases)) in
      let (b, z, z') = zip out.writer in
      (
        b,
        dumped p laws c dec s (after p ds),
        dump_data-compress g (dumped p laws c dec s ms) (builts p laws c dec s.databases)
            (after p ds) out b e w fine z,
        ap (λ r. r >>= unmarshal_root p c no_snapshot) z'
            ∙ ap (λ x. unmarshal_root p c no_snapshot x) full
            ∙ unmarshal_root-root_fields p laws c dec s (builts p laws c dec s.databases) fit,
      )

  -- A snapshot that is written to a file is read back from it: LoadData after DumpData finds the
  -- versions, the metadata, and the DBIs in their order, with their fields and their entries, but
  -- for entries without fields. Every DBI has a name; the fields fit their types, their buffers and
  -- the decoder's limits; csproto decodes what it encodes, and gzip decompresses what it
  -- compresses.
  pub save-restore :
      (g : Gzip) (s : Content)
      → IsGzip g
      → ContentFits p laws c dec s
      → (save p c g s >>= restore p c g) ≡ ok (record s { databases = all_written p s.databases })
  unfolding save restore
  save-restore g s zip fit =
      let (ms, e, e') = to_messages-size_all p laws c dec g s.databases fit.databases in
      let (b, r, d, l) = dump_data_lem g s ms zip fit e' in
      let saved : save p c g s ≡ ok b = rw (e, d) refl in
      let restored : restore p c g b ≡ ok (record s { databases = all_written p s.databases }) =
        rw (l, of_messages-read_backs p laws c dec s.databases fit.databases) refl in
      ap (λ r. r >>= restore p c g) saved ∙ restored
