-- ===== src/Snapshot/Root/Writing.antt =====
-- What `WriteTo` writes to a buffer.
use mathlib.Core.List.{append-nil, append_assoc}
use lightningstream.Base.{
  ℕ, ◌<◌, ◌≡◌, refl, sym, ap, ◌∙◌, arith, Bool, true, false, ltb, ◌==◌, if◌then◌else◌, none, length,
  List, [], ◌∷◌, ◌++◌,
}
use lightningstream.Base.Bytes.{Bytes}
use lightningstream.Base.Result.{ok}
use lightningstream.Snapshot.Wire.{Csproto, encode_tag}
use lightningstream.Snapshot.Encoding.{bytes_field, varint_field}
use lightningstream.Snapshot.Chain.{concat, one_if, concat_more}
use lightningstream.Snapshot.Message.{DbiMessage, marshal}
use lightningstream.Snapshot.Meta.{marshal_meta}
use lightningstream.Snapshot.Root.{
  Root, Out, buffer, write_bytes, write_message, write_dbis, write_to,
}

-- The buffer `out` with `b` behind it.
abbrev Holds : Out buffer → Bytes → Type 0
Holds out b = (out.writer ≡ b) × (out.error ≡ none)

write_bytes-Holds :
    (out : Out buffer) (a b : Bytes) → Holds out a → Holds (write_bytes buffer out b) (a ++ b)
unfolding write_bytes
write_bytes-Holds out a b (e, none_yet) = rw (none_yet) (ap (λ x. x ++ b) e, refl)

module _ (p : Csproto) where
  write_message-Holds :
      (out : Out buffer) (a : Bytes) (tag : ℕ) (b : Bytes)
      → Holds out a
      → Holds (write_message buffer p out tag b) (a ++ bytes_field p tag b)
  unfolding write_message
  write_message-Holds out a tag b h =
      let t = encode_tag p tag 2 in
      let size = p.encode_varint (length b) in
      let (e, none_yet) =
        write_bytes-Holds (write_bytes buffer out (t ++ size)) (a ++ (t ++ size)) b
          (write_bytes-Holds out a (t ++ size) h) in
      (e ∙ append_assoc a (t ++ size) b ∙ ap (λ x. a ++ x) (append_assoc t size b), none_yet)

  -- DBIs whose data is known, and is not empty.
  abbrev pub Marshalled : List (DbiMessage × DbiMessage × Bytes) → Type 0
  Marshalled [] = Unit {0}
  Marshalled ((d, d', b) ∷ ds) = (marshal p d ≡ ok (d', b)) × (0 < length b) × Marshalled ds

  abbrev pub before : List (DbiMessage × DbiMessage × Bytes) → List DbiMessage
  before [] = []
  before ((d, d', b) ∷ ds) = d ∷ before ds

  abbrev pub after : List (DbiMessage × DbiMessage × Bytes) → List DbiMessage
  after [] = []
  after ((d, d', b) ∷ ds) = d' ∷ after ds

  abbrev pub dbi_fields : List (DbiMessage × DbiMessage × Bytes) → List Bytes
  dbi_fields [] = []
  dbi_fields ((d, d', b) ∷ ds) = bytes_field p 3 b ∷ dbi_fields ds

  write_dbis-Holds :
      (ds : List (DbiMessage × DbiMessage × Bytes)) (out : Out buffer) (a : Bytes)
      → Marshalled ds
      → Holds out a
      → (out' : Out buffer) × (write_dbis buffer p out (before ds) ≡ ok (out', after ds))
        × Holds out' (a ++ concat (dbi_fields ds))
  unfolding write_dbis
  write_dbis-Holds [] out a ms (e, none_yet) = (out, refl, (e ∙ sym (append-nil a), none_yet))
  write_dbis-Holds ((d, d', b) ∷ ds) out a (m, full, ms) (e, none_yet) =
      let filled : (length b == 0) ≡ false = ground (arith, full) in
      let field = bytes_field p 3 b in
      let (out', w, (e', ok_yet)) =
        write_dbis-Holds ds (write_message buffer p out 3 b) (a ++ field) ms
          (write_message-Holds out a 3 b (e, none_yet)) in
      (
        out',
        rw (none_yet, m, filled, w) refl,
        (e' ∙ append_assoc a field (concat (dbi_fields ds)), ok_yet),
      )

  -- The fields of a snapshot, with the data of its DBIs.
  abbrev pub root_fields : Root → List (DbiMessage × DbiMessage × Bytes) → List Bytes
  root_fields r ds =
      one_if (ltb 0 r.format_version) (varint_field p 1 r.format_version)
      ++ (one_if (ltb 0 r.compat_version) (varint_field p 4 r.compat_version)
          ++ (one_if (ltb 0 (length (marshal_meta p r.meta)))
                (bytes_field p 2 (marshal_meta p r.meta))
              ++ dbi_fields ds))

  meta_if :
      (c : Bool) (out : Out buffer) (a b : Bytes)
      → Holds out a
      → Holds
          (if c then write_message buffer p out 2 b else out)
          (a ++ (if c then bytes_field p 2 b else []))
  meta_if true out a b h = write_message-Holds out a 2 b h
  meta_if false out a b (e, none_yet) = (e ∙ sym (append-nil a), none_yet)

  -- WriteTo writes the fields of the snapshot one after the other.
  pub write_to-buffer :
      (r : Root) (ds : List (DbiMessage × DbiMessage × Bytes))
      → Marshalled ds
      → r.databases ≡ before ds
      → (out : Out buffer) × (write_to buffer p [] r ≡ ok (out, record r { databases = after ds }))
        × Holds out (concat (root_fields r ds))
  unfolding write_to
  write_to-buffer r ds ms same =
      let start : Out buffer = record { writer = []; n_written = 0; error = none } in
      let v1 = if ltb 0 r.format_version then varint_field p 1 r.format_version else [] in
      let v2 = if ltb 0 r.compat_version then varint_field p 4 r.compat_version else [] in
      let meta = marshal_meta p r.meta in
      let v3 = if ltb 0 (length meta) then bytes_field p 2 meta else [] in
      let top = write_bytes-Holds start [] (v1 ++ v2) (refl, refl) in
      let second =
        meta_if (ltb 0 (length meta)) (write_bytes buffer start (v1 ++ v2)) (v1 ++ v2) meta top in
      let (out, w, (e, ok_yet)) =
        write_dbis-Holds ds
          (if ltb 0 (length meta)
            then write_message buffer p (write_bytes buffer start (v1 ++ v2)) 2 meta
            else write_bytes buffer start (v1 ++ v2))
          ((v1 ++ v2) ++ v3) ms second in
      (
        out,
        rw (same, w) refl,
        (
          e
              ∙ append_assoc (v1 ++ v2) v3 (concat (dbi_fields ds))
              ∙ append_assoc v1 v2 (v3 ++ concat (dbi_fields ds))
              ∙ sym (
                  concat_more (ltb 0 r.format_version) _ _ _ (
                    concat_more (ltb 0 r.compat_version) _ _ _
                      (concat_more (ltb 0 (length meta)) _ _ _ refl))),
          ok_yet,
        ),
      )
