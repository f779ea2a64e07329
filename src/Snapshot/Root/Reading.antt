-- ===== src/Snapshot/Root/Reading.antt =====
-- What `Snapshot.Unmarshal` reads of the fields that `WriteTo` writes.
use mathlib.Core.List.{append_assoc, append-nil}
use lightningstream.Base.{
  suc, ◌^◌, ◌<◌, ◌≤◌, ◌≡◌, refl, sym, ap, subst, arith, true, false, ltb, length, List, [], ◌∷◌,
  ◌++◌, length-append,
}
use lightningstream.Base.Bytes.{Bytes}
use lightningstream.Base.Result.{ok, >>=-eq-ok, ok_inj}
use lightningstream.Snapshot.Wire.{Csproto, IsVarint, encode_tag, expect_wt}
use lightningstream.Snapshot.Encoding.{bytes_field, varint_field}
use lightningstream.Snapshot.Chain.{
  concat, one_if, not_some, zero_of, Chain, Chain-append, Chain-one_if, length-Chain,
}
use lightningstream.Snapshot.Decoder.{
  Decoder, IsDecoder, get_uint32, get_bytes, Decodes, each_field_lem,
}
use lightningstream.Snapshot.Dbi.{Dbi}
use lightningstream.Snapshot.Message.{DbiMessage, marshal, new_dbi_from_data}
use lightningstream.Snapshot.Message.Listing.{message}
use lightningstream.Snapshot.Message.RoundTrip.{
  to_message, DbiFits, data_of, built, to_message-marshal, read_back, new_dbi_from_data-data_of,
  of_message-read_back,
}
use lightningstream.Snapshot.Meta.{Meta, no_meta, marshal_meta, unmarshal_meta}
use lightningstream.Snapshot.Meta.RoundTrip.{MetaFits, Decodes-tagged, unmarshal_meta-marshal_meta}
use lightningstream.Snapshot.Root.{
  Root, no_snapshot, max_field_length, root_field, unmarshal_root, Gzip, size_all,
}
use lightningstream.Snapshot.Root.Writing.{Marshalled, before, dbi_fields, root_fields}
use lightningstream.Snapshot.Root.Content.{Content, to_messages, of_messages, all_written}

module _ (p : Csproto) (laws : IsVarint p) (c : Decoder) (dec : IsDecoder p c) where
  abbrev DecodesRoot : Bytes → Root → Root → Type 0
  DecodesRoot = Decodes c (root_field p c)

  read_message :
      (b rest : Bytes)
      → length b ≤ max_field_length
      → c.decode_bytes max_field_length ((p.encode_varint (length b) ++ b) ++ rest) ≡ ok (b, rest)
  read_message b rest h =
      rw (append_assoc (p.encode_varint (length b)) b rest)
        (dec.bytes_lem max_field_length b rest (omega arith) h)

  DecodesRoot-meta :
      (m : Meta) (r : Root)
      → MetaFits p laws c dec m
      → length (marshal_meta p m) ≤ max_field_length
      → r.meta ≡ no_meta
      → DecodesRoot (bytes_field p 2 (marshal_meta p m)) r (record r { meta = m })
  unfolding root_field get_bytes expect_wt
  DecodesRoot-meta m r fit h none_yet =
      let b = marshal_meta p m in
      Decodes-tagged p laws c dec (root_field p c) 2 2 (p.encode_varint (length b) ++ b) r
        (record r { meta = m }) (omega arith) (omega arith) (omega arith)
        (λ rest.
          rw (read_message b rest h, none_yet, unmarshal_meta-marshal_meta p laws c dec m fit) refl)

  DecodesRoot-dbi :
      (b : Bytes) (m : DbiMessage) (r : Root)
      → new_dbi_from_data p b ≡ ok m
      → length b ≤ max_field_length
      → DecodesRoot (bytes_field p 3 b) r (record r { databases = r.databases ++ (m ∷ []) })
  unfolding root_field get_bytes expect_wt
  DecodesRoot-dbi b m r e h =
      Decodes-tagged p laws c dec (root_field p c) 3 2 (p.encode_varint (length b) ++ b) r
        (record r { databases = r.databases ++ (m ∷ []) }) (omega arith) (omega arith) (omega arith)
        (λ rest. rw (read_message b rest h, e) refl)

  -- DBIs that have a name, and whose data the decoder accepts.
  abbrev pub AllDbisFit : List Dbi → Type 0
  AllDbisFit [] = Unit {0}
  AllDbisFit (d ∷ ds) =
      DbiFits p laws d
      × (0 < length d.name)
      × (length (data_of p laws d) ≤ max_field_length)
      × AllDbisFit ds

  abbrev pub builts : List Dbi → List DbiMessage
  builts [] = []
  builts (d ∷ ds) = built p laws d ∷ builts ds

  abbrev pub read_backs : List Dbi → List DbiMessage
  read_backs [] = []
  read_backs (d ∷ ds) = read_back p laws d ∷ read_backs ds

  abbrev pub triples : List Dbi → List (DbiMessage × DbiMessage × Bytes)
  triples [] = []
  triples (d ∷ ds) = (built p laws d, built p laws d, data_of p laws d) ∷ triples ds

  pub to_messages-size_all :
      (g : Gzip) (ds : List Dbi)
      → AllDbisFit ds
      → (ms : List DbiMessage) × (to_messages p ds ≡ ok ms) × (size_all p c g ms ≡ ok (builts ds))
  unfolding size_all
  to_messages-size_all g [] fits = ([], refl, refl)
  to_messages-size_all g (d ∷ ds) (fit, name, limit, fits) =
      let (ms, e, e') = to_messages-size_all g ds fits in
      let (m, f, f') = >>=-eq-ok (to_message p d) (marshal p) (to_message-marshal p laws d fit) in
      (m ∷ ms, rw (f, e) refl, rw (f', e') refl)

  some_data : (d : Dbi) → 0 < length d.name → 0 < length (data_of p laws d)
  some_data d h =
      let named : ltb 0 (length d.name) ≡ true = ground arith in
      let others = concat (
        one_if (ltb 0 d.flags) (varint_field p 3 d.flags)
        ++ one_if (ltb 0 (length d.transform)) (bytes_field p 4 d.transform)) in
      let name = bytes_field p 1 d.name in
      rw (named) (
        omega (
          arith,
          length-append (name ++ others) (message p d.entries),
          length-append name others,
          laws.some_bytes 10,
          length-append (encode_tag p 1 2) (p.encode_varint (length d.name) ++ d.name),
        ))

  pub triples-Marshalled : (ds : List Dbi) → AllDbisFit ds → Marshalled p (triples ds)
  unfolding marshal
  triples-Marshalled [] fits = tt
  triples-Marshalled (d ∷ ds) (fit, name, limit, fits) =
      (refl, some_data d name, triples-Marshalled ds fits)

  pub before-triples : (ds : List Dbi) → before p (triples ds) ≡ builts ds
  before-triples [] = refl
  before-triples (d ∷ ds) = ap (λ ms. built p laws d ∷ ms) (before-triples ds)

  Chain-dbi_fields :
      (ds : List Dbi) (r : Root)
      → AllDbisFit ds
      → Chain DecodesRoot
          (dbi_fields p (triples ds))
          r
          (record r { databases = r.databases ++ read_backs ds })
  Chain-dbi_fields [] r fits = ap (λ ds. record r { databases = ds }) (sym (append-nil r.databases))
  Chain-dbi_fields (d ∷ ds) r (fit, name, limit, fits) =
      let m = read_back p laws d in
      let mid = record r { databases = r.databases ++ (m ∷ []) } in
      (
        mid,
        DecodesRoot-dbi (data_of p laws d) m r (new_dbi_from_data-data_of p laws d fit) limit,
        subst
            (λ all.
              Chain DecodesRoot (dbi_fields p (triples ds)) mid (record r { databases = all }))
            (append_assoc r.databases (m ∷ []) (read_backs ds)) (Chain-dbi_fields ds mid fits),
      )

  pub of_messages-read_backs :
      (ds : List Dbi) → AllDbisFit ds → of_messages p (read_backs ds) ≡ ok (all_written p ds)
  of_messages-read_backs [] fits = refl
  of_messages-read_backs (d ∷ ds) (fit, name, limit, fits) =
      rw (of_message-read_back p laws d fit, of_messages-read_backs ds fits) refl

  -- Metadata without any field is not written.
  no_meta_bytes :
      (m : Meta) → MetaFits p laws c dec m → ltb 0 (length (marshal_meta p m)) ≡ false → no_meta ≡ m
  unfolding unmarshal_meta
  no_meta_bytes m fit h =
      let none_written : [] ≡ marshal_meta p m = not_some (marshal_meta p m) h in
      ok_inj (
        subst (λ b. unmarshal_meta c no_meta b ≡ ok m) (sym none_written)
          (unmarshal_meta-marshal_meta p laws c dec m fit))

  -- The versions fit their type, the metadata the decoder, and the DBIs too.
  pub record ContentFits (s : Content) : Type 0 where
    pub format_version : s.format_version < 2 ^ 32
    pub compat_version : s.compat_version < 2 ^ 32
    pub meta : MetaFits p laws c dec s.meta
    pub meta_size : length (marshal_meta p s.meta) ≤ max_field_length
    pub databases : AllDbisFit s.databases

  abbrev pub dumped : Content → List DbiMessage → Root
  dumped s ms = record {
    format_version = s.format_version;
    compat_version = s.compat_version;
    meta = s.meta;
    databases = ms;
  }

  Chain-root_fields :
      (s : Content) (ms : List DbiMessage)
      → ContentFits s
      → Chain DecodesRoot
          (root_fields p (dumped s ms) (triples s.databases))
          no_snapshot
          (dumped s (read_backs s.databases))
  unfolding root_field get_uint32 expect_wt
  Chain-root_fields s ms fit =
      let r1 = record no_snapshot { format_version = s.format_version } in
      let r2 = record r1 { compat_version = s.compat_version } in
      let r3 = record r2 { meta = s.meta } in
      let c1 =
        Chain-one_if DecodesRoot (ltb 0 s.format_version) (varint_field p 1 s.format_version)
          no_snapshot r1
          (λ t.
            Decodes-tagged p laws c dec (root_field p c) 1 0 (p.encode_varint s.format_version)
              no_snapshot r1 (omega arith) (omega arith) (omega arith)
              (λ rest. rw (dec.uint32_lem s.format_version rest fit.format_version) refl))
          (λ f. ap (λ n. record no_snapshot { format_version = n }) (zero_of s.format_version f)) in
      let c2 =
        Chain-one_if DecodesRoot (ltb 0 s.compat_version) (varint_field p 4 s.compat_version) r1 r2
          (λ t.
            Decodes-tagged p laws c dec (root_field p c) 4 0 (p.encode_varint s.compat_version) r1
              r2 (omega arith) (omega arith) (omega arith)
              (λ rest. rw (dec.uint32_lem s.compat_version rest fit.compat_version) refl))
          (λ f. ap (λ n. record r1 { compat_version = n }) (zero_of s.compat_version f)) in
      let c3 =
        Chain-one_if DecodesRoot (ltb 0 (length (marshal_meta p s.meta)))
          (bytes_field p 2 (marshal_meta p s.meta)) r2 r3
          (λ t. DecodesRoot-meta s.meta r2 fit.meta fit.meta_size refl)
          (λ f. ap (λ m. record r2 { meta = m }) (no_meta_bytes s.meta fit.meta f)) in
      let c4 = Chain-dbi_fields s.databases r3 fit.databases in
      let end = dumped s (read_backs s.databases) in
      Chain-append DecodesRoot _ _ no_snapshot r1 end c1
        (Chain-append DecodesRoot _ _ r1 r2 end c2 (Chain-append DecodesRoot _ _ r2 r3 end c3 c4))

  pub unmarshal_root-root_fields :
      (s : Content) (ms : List DbiMessage)
      → ContentFits s
      → unmarshal_root p c no_snapshot (concat (root_fields p (dumped s ms) (triples s.databases)))
        ≡ ok (dumped s (read_backs s.databases))
  unfolding unmarshal_root
  unmarshal_root-root_fields s ms fit =
      let fs = root_fields p (dumped s ms) (triples s.databases) in
      let end = dumped s (read_backs s.databases) in
      let ch = Chain-root_fields s ms fit in
      each_field_lem c (root_field p c) fs (suc (length (concat fs))) no_snapshot end ch
        (omega (arith, length-Chain DecodesRoot fs no_snapshot end (λ f a b r. r.0) ch))
