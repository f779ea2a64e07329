-- ===== src/Snapshot/Message/Indexing.antt =====
-- What `indexData` finds in the data of a DBI, whichever order its fields and entries have.
use mathlib.Core.List.{append-nil, append_assoc}
use lightningstream.Base.{
  ℕ, zero, suc, ◌+◌, ◌*◌, ◌/◌, ◌%◌, ◌^◌, ◌<◌, ◌≡◌, refl, sym, ap, ◌∙◌, subst, arith, true, false,
  ltb, length, List, [], ◌∷◌, ◌++◌, length-append, drop-append-length,
}
use lightningstream.Base.Bytes.{Bytes}
use lightningstream.Base.Result.{ok}
use lightningstream.Snapshot.Wire.{Csproto, IsVarint, encode_tag, expect_wt, slice_from}
use lightningstream.Snapshot.Encoding.{bytes_field, varint_field}
use lightningstream.Snapshot.Encoding.Fields.{read_field, length-bytes}
use lightningstream.Snapshot.Encoding.Messages.{slice_front}
use lightningstream.Snapshot.Chain.{
  concat, one_if, Chain, Chain-append, Chain-one_if, not_some, zero_of,
}
use lightningstream.Snapshot.Message.{DbiMessage, at_end, index_field, index_front, index_loop}
use lightningstream.Snapshot.Message.Reading.{not_at_end, is_at_end}

module _ (p : Csproto) (laws : IsVarint p) where
  -- `field` is read at the front of any bytes, and takes `d` to `d'`, with the same data.
  abbrev pub Indexes : Bytes → DbiMessage → DbiMessage → Type 0
  Indexes field d d' =
      (0 < length field)
      × (d'.buffer ≡ d.buffer)
      × ((rest : Bytes) → index_front p (field ++ rest) d ≡ ok (length field, d'))

  Indexes-tagged :
      (tag wire_type : ℕ) (value : Bytes) (d d' : DbiMessage)
      → tag < 16
      → wire_type < 8
      → length value < 2 ^ 63
      → d'.buffer ≡ d.buffer
      → ((rest : Bytes) → index_field p tag wire_type (value ++ rest) d ≡ ok (length value, d'))
      → Indexes (encode_tag p tag wire_type ++ value) d d'
  unfolding index_front
  Indexes-tagged tag wire_type value d d' h1 h2 h3 same f =
      let v = tag * 8 + wire_type in
      let t = encode_tag p tag wire_type in
      let one = laws.one_byte v (omega arith) in
      let quotient : v / 8 ≡ tag = omega arith in
      let remainder : v % 8 ≡ wire_type = omega arith in
      (
        omega (arith, laws.some_bytes v, length-append t value),
        same,
        λ rest.
            rw
              (
                append_assoc t value rest,
                laws.decode_lem v (value ++ rest) (omega arith),
                drop-append-length t (value ++ rest),
                quotient,
                remainder,
                f rest,
              )
              (ap (λ m. ok (m, d')) (omega (arith, one, length-append t value))),
      )

  pub Indexes-entry :
      (d : DbiMessage) (b : Bytes) → length b < 2 ^ 62 → Indexes (bytes_field p 2 b) d d
  unfolding index_field expect_wt
  Indexes-entry d b h =
      Indexes-tagged 2 2 (p.encode_varint (length b) ++ b) d d (omega arith) (omega arith)
        (length-bytes p laws b h) refl (λ rest. rw (read_field p laws b rest h) refl)

  Indexes-name :
      (d : DbiMessage) (b : Bytes)
      → length b < 2 ^ 62
      → Indexes (bytes_field p 1 b) d (record d { name = b })
  unfolding index_field expect_wt
  Indexes-name d b h =
      Indexes-tagged 1 2 (p.encode_varint (length b) ++ b) d (record d { name = b }) (omega arith)
        (omega arith) (length-bytes p laws b h) refl (λ rest. rw (read_field p laws b rest h) refl)

  Indexes-transform :
      (d : DbiMessage) (b : Bytes)
      → length b < 2 ^ 62
      → Indexes (bytes_field p 4 b) d (record d { transform = b })
  unfolding index_field expect_wt
  Indexes-transform d b h =
      Indexes-tagged 4 2 (p.encode_varint (length b) ++ b) d (record d { transform = b })
        (omega arith) (omega arith) (length-bytes p laws b h) refl
        (λ rest. rw (read_field p laws b rest h) refl)

  Indexes-flags :
      (d : DbiMessage) (v : ℕ)
      → v < 2 ^ 64
      → Indexes (varint_field p 3 v) d (record d { flags = v })
  unfolding index_field expect_wt
  Indexes-flags d v h =
      Indexes-tagged 3 0 (p.encode_varint v) d (record d { flags = v }) (omega arith) (omega arith)
        (omega (arith, laws.ten_bytes v h)) refl (λ rest. rw (laws.decode_lem v rest h) refl)

  pub next_place :
      (a f rest : Bytes)
      → length (a ++ (f ++ rest)) < 2 ^ 63
      → (length a + length f) % 2 ^ 64 ≡ length (a ++ f)
  next_place a f rest h =
      omega (arith, h, length-append a (f ++ rest), length-append f rest, length-append a f)

  pub index_loop_lem :
      (fs : List Bytes) (fuel : ℕ) (a : Bytes) (d d' : DbiMessage)
      → Chain Indexes fs d d'
      → length fs < fuel
      → d.buffer ≡ a ++ concat fs
      → length d.buffer < 2 ^ 63
      → index_loop p fuel (length a) d ≡ ok d'
  unfolding index_loop
  index_loop_lem fs zero a d d' ch h e lt = absurd (omega arith)
  index_loop_lem [] (suc fuel) a d d' ch h e lt =
      let all : d.buffer ≡ a = e ∙ append-nil a in
      let end : at_end d.buffer (length a) ≡ true =
        subst (λ b. at_end b (length a) ≡ true) (sym all)
          (is_at_end a (omega (arith, lt, ap length all))) in
      rw (end) (ap ok ch)
  index_loop_lem (f ∷ fs) (suc fuel) a d d' (mid, (some, same, r), ch) h e lt =
      let more = concat fs in
      let left : at_end d.buffer (length a) ≡ false =
        rw (e) (not_at_end a (f ++ more) (omega (arith, some, length-append f more))) in
      let sliced : slice_from d.buffer (length a) ≡ ok (f ++ more) =
        rw (e) (slice_front a (f ++ more)) in
      let place = next_place a f more (omega (arith, lt, ap length e)) in
      rw (left, sliced, r more, place)
        (index_loop_lem fs fuel (a ++ f) mid d' ch (omega (arith, h))
          (same ∙ e ∙ sym (append_assoc a f more)) (omega (arith, lt, ap length same)))

  -- The fields of a DBI that are set.
  abbrev pub top_fields : DbiMessage → List Bytes
  top_fields d =
      one_if (ltb 0 (length d.name)) (bytes_field p 1 d.name)
      ++ (one_if (ltb 0 d.flags) (varint_field p 3 d.flags)
          ++ one_if (ltb 0 (length d.transform)) (bytes_field p 4 d.transform))

  pub Chain-top_fields :
      (d o : DbiMessage)
      → length d.name < 2 ^ 62
      → d.flags < 2 ^ 64
      → length d.transform < 2 ^ 62
      → Chain Indexes
          (top_fields d)
          (record o { name = []; flags = 0; transform = [] })
          (record o { name = d.name; flags = d.flags; transform = d.transform })
  Chain-top_fields d o h1 h2 h3 =
      let d0 = record o { name = []; flags = 0; transform = [] } in
      let d1 = record d0 { name = d.name } in
      let d2 = record d1 { flags = d.flags } in
      let d3 = record d2 { transform = d.transform } in
      let c1 =
        Chain-one_if Indexes (ltb 0 (length d.name)) (bytes_field p 1 d.name) d0 d1
          (λ t. Indexes-name d0 d.name h1)
          (λ f. ap (λ b. record d0 { name = b }) (not_some d.name f)) in
      let c2 =
        Chain-one_if Indexes (ltb 0 d.flags) (varint_field p 3 d.flags) d1 d2
          (λ t. Indexes-flags d1 d.flags h2)
          (λ f. ap (λ n. record d1 { flags = n }) (zero_of d.flags f)) in
      let c3 =
        Chain-one_if Indexes (ltb 0 (length d.transform)) (bytes_field p 4 d.transform) d2 d3
          (λ t. Indexes-transform d2 d.transform h3)
          (λ f. ap (λ b. record d2 { transform = b }) (not_some d.transform f)) in
      Chain-append Indexes _ _ d0 d1 d3 c1 (Chain-append Indexes _ _ d1 d2 d3 c2 c3)
