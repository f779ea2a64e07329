-- ===== src/Snapshot/Encoding/Messages.antt =====
-- What `Append` writes of an entry, `Unmarshal` reads back.
use mathlib.Core.List.{append_assoc}
use lightningstream.Base.{
  ℕ, zero, suc, ◌+◌, ◌%◌, ◌^◌, ◌<◌, ◌≡◌, sym, ap, ◌∙◌, subst, arith, true, false, ltb, ◌==◌, length,
  List, [], ◌∷◌, ◌++◌, length-append, drop-append-length,
}
use lightningstream.Base.Bytes.{Bytes, put_le}
use lightningstream.Base.Result.{ok}
use lightningstream.Snapshot.{Kv}
use lightningstream.Snapshot.Wire.{Csproto, IsVarint, encode_tag, slice_from}
use lightningstream.Snapshot.Encoding.{bytes_field, varint_field, kv_bytes, unmarshal_loop, no_kv}
use lightningstream.Snapshot.Chain.{
  concat, one_if, concat-one_if, concat_more, not_some, zero_of, Chain, Chain-append, Chain-one_if,
}
use lightningstream.Snapshot.Encoding.Fields.{
  Reads, Reads-key, Reads-value, Reads-flags, Reads-timestamp,
}

-- An entry whose fields fit Go's types, and whose bytes fit the memory.
pub record Fits (kv : Kv) : Type 0 where
  pub key : length kv.key < 2 ^ 60
  pub value : length kv.value < 2 ^ 60
  pub timestamp_nano : kv.timestamp_nano < 2 ^ 64
  pub flags : kv.flags < 2 ^ 32

pub slice_front : (a b : Bytes) → slice_from (a ++ b) (length a) ≡ ok b
unfolding slice_from
slice_front a b = ground (arith, length-append a b, drop-append-length a b)

module _ (p : Csproto) (laws : IsVarint p) where
  next_offset :
      (a f : Bytes) → length (a ++ f) < 2 ^ 63 → (length a + length f) % 2 ^ 64 ≡ length (a ++ f)
  next_offset a f h = omega (arith, h, length-append a f)

  pub unmarshal_fields :
      (f : Bytes) (fs : List Bytes) (fuel : ℕ) (a : Bytes) (kv kv' : Kv)
      → Chain (Reads p laws) (f ∷ fs) kv kv'
      → length fs < fuel
      → length (a ++ concat (f ∷ fs)) < 2 ^ 63
      → unmarshal_loop p fuel (a ++ concat (f ∷ fs)) (length a) kv ≡ ok kv'
  unfolding unmarshal_loop
  unmarshal_fields f fs zero a kv kv' ch h lt = absurd (omega arith)
  unmarshal_fields f [] (suc fuel) a kv kv' (mid, (pos, r), e) h lt =
      let buf = a ++ (f ++ []) in
      let last : ((length a + length f) % 2 ^ 64 == length buf) ≡ true =
        ground (arith, lt, length-append a (f ++ []), length-append f []) in
      rw (slice_front a (f ++ []), r [], last) (ap ok e)
  unmarshal_fields f (g ∷ gs) (suc fuel) a kv kv' (mid, (pos, r), (mid', (pos', r'), ch)) h lt =
      let more = g ++ concat gs in
      let buf = a ++ (f ++ more) in
      let sizes : length buf ≡ length a + (length f + length more) =
        length-append a (f ++ more) ∙ ap (λ n. length a + n) (length-append f more) in
      let some_more : 0 < length more = omega (arith, pos', length-append g (concat gs)) in
      let not_last : ((length a + length f) % 2 ^ 64 == length buf) ≡ false =
        ground (arith, lt, sizes, some_more) in
      rw (slice_front a (f ++ more), r more, not_last)
        (subst (λ n. unmarshal_loop p fuel buf n mid ≡ ok kv')
          (sym (next_offset a f (omega (arith, lt, sizes, length-append a f))))
          (subst (λ b. unmarshal_loop p fuel b (length (a ++ f)) mid ≡ ok kv')
            (append_assoc a f more)
            (unmarshal_fields g gs fuel (a ++ f) mid kv' (mid', (pos', r'), ch) (omega (arith, h))
              (omega (arith, lt, sizes, length-append (a ++ f) more, length-append a f)))))

  -- The fields that `Append` writes.
  abbrev pub fields : Kv → List Bytes
  fields kv =
      one_if (ltb 0 (length kv.key)) (bytes_field p 1 kv.key)
      ++ (one_if (ltb 0 (length kv.value)) (bytes_field p 2 kv.value)
          ++ (one_if (ltb 0 kv.flags) (varint_field p 4 kv.flags)
              ++ one_if (ltb 0 kv.timestamp_nano) (encode_tag p 3 1 ++ put_le 8 kv.timestamp_nano)))

  pub concat-fields : (kv : Kv) → concat (fields kv) ≡ kv_bytes p kv
  unfolding kv_bytes
  concat-fields kv = concat_more (ltb 0 (length kv.key)) _ _ _ (
      concat_more (ltb 0 (length kv.value)) _ _ _ (
        concat_more (ltb 0 kv.flags) _ _ _ (
          concat-one_if (ltb 0 kv.timestamp_nano)
            (encode_tag p 3 1 ++ put_le 8 kv.timestamp_nano))))

  pub Chain-fields : (kv : Kv) → Fits kv → Chain (Reads p laws) (fields kv) (no_kv p) kv
  Chain-fields kv fits =
      let k1 = record (no_kv p) { key = kv.key } in
      let k2 = record k1 { value = kv.value } in
      let k3 = record k2 { flags = kv.flags } in
      let c1 =
        Chain-one_if (Reads p laws) (ltb 0 (length kv.key)) (bytes_field p 1 kv.key) (no_kv p) k1
          (λ t. Reads-key p laws (no_kv p) kv.key (omega (arith, fits.key)))
          (λ f. ap (λ b. record (no_kv p) { key = b }) (not_some kv.key f)) in
      let c2 =
        Chain-one_if (Reads p laws) (ltb 0 (length kv.value)) (bytes_field p 2 kv.value) k1 k2
          (λ t. Reads-value p laws k1 kv.value (omega (arith, fits.value)))
          (λ f. ap (λ b. record k1 { value = b }) (not_some kv.value f)) in
      let c3 =
        Chain-one_if (Reads p laws) (ltb 0 kv.flags) (varint_field p 4 kv.flags) k2 k3
          (λ t. Reads-flags p laws k2 kv.flags fits.flags)
          (λ f. ap (λ n. record k2 { flags = n }) (zero_of kv.flags f)) in
      let c4 =
        Chain-one_if (Reads p laws) (ltb 0 kv.timestamp_nano)
          (encode_tag p 3 1 ++ put_le 8 kv.timestamp_nano) k3 kv
          (λ t. Reads-timestamp p laws k3 kv.timestamp_nano fits.timestamp_nano)
          (λ f. ap (λ n. record k3 { timestamp_nano = n }) (zero_of kv.timestamp_nano f)) in
      Chain-append (Reads p laws) _ _ (no_kv p) k1 kv c1 (
        Chain-append (Reads p laws) _ _ k1 k2 kv c2
          (Chain-append (Reads p laws) _ _ k2 k3 kv c3 c4))
