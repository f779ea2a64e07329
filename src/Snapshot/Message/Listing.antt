-- ===== src/Snapshot/Message/Listing.antt =====
-- The entries that `Append` has written to a message are those that `Next` yields, in their order.
use mathlib.Core.List.{append-nil, append_assoc}
use lightningstream.Base.{
  ℕ, zero, suc, ◌+◌, ◌^◌, ◌<◌, ◌≡◌, refl, sym, ap, ◌∙◌, subst, inl, inr, arith, Bool, true, false,
  ◌==◌, if◌then◌else◌, length, List, [], ◌∷◌, ◌++◌, length-append, Bool-cases,
}
use lightningstream.Base.Bytes.{Bytes}
use lightningstream.Base.Result.{Result, ok, ◌>>=◌}
use lightningstream.Snapshot.{Kv}
use lightningstream.Snapshot.Wire.{Csproto, IsVarint, encode_tag}
use lightningstream.Snapshot.Encoding.{bytes_field, msg_size, kv_bytes}
use lightningstream.Snapshot.Encoding.Messages.{Fits}
use lightningstream.Snapshot.Encoding.RoundTrip.{
  unmarshal-kv_bytes, append_bytes-exact, length-kv_bytes, msg_size-lt,
}
use lightningstream.Snapshot.Message.{
  DbiMessage, append, next, kv_list, as_inefficient_kv_list, is_end_of_data,
}
use lightningstream.Snapshot.Message.Reading.{next_here, next_end, Sees, Sees-cursor}

abbrev pub AllFit : List Kv → Type 0
AllFit [] = Unit {0}
AllFit (kv ∷ kvs) = Fits kv × AllFit kvs

module _ (p : Csproto) where
  -- Every entry of a list is appended.
  abbrev pub append_all : DbiMessage → List Kv → Result DbiMessage
  append_all d [] = ok d
  append_all d (kv ∷ kvs) = append p d kv >>= λ d'. append_all d' kvs

  -- The entries that are written: those with a field.
  abbrev pub written : List Kv → List Kv
  written [] = []
  written (kv ∷ kvs) = let rest = written kvs in if msg_size p kv == 0 then rest else kv ∷ rest

  -- The bytes of the entries.
  abbrev pub message : List Kv → Bytes
  message [] = []
  message (kv ∷ kvs) =
      (if msg_size p kv == 0 then [] else bytes_field p 2 (kv_bytes p kv)) ++ message kvs

  abbrev pub appended : DbiMessage → List Kv → DbiMessage
  appended d kvs = record d {
    buffer = d.buffer ++ message kvs;
    num_written_entries = d.num_written_entries + length kvs;
  }

write_if :
    (c : Bool) (b : Bytes) (k : Bytes → DbiMessage)
    → ((if c then ok [] else ok b) >>= λ w. ok (k w)) ≡ ok (k (if c then [] else b))
write_if true b k = refl
write_if false b k = refl

pub same_message :
    (d : DbiMessage) {b b' : Bytes} {n n' : ℕ}
    → b ≡ b'
    → n ≡ n'
    → record d { buffer = b; num_written_entries = n }
      ≡ record d { buffer = b'; num_written_entries = n' }
same_message d {b} {b'} {n} {n'} e e' =
    ap (λ x. record d { buffer = x; num_written_entries = n }) e
    ∙ ap (λ x. record d { buffer = b'; num_written_entries = x }) e'

kv_list_step :
    (p : Csproto) (fuel : ℕ) (d d' : DbiMessage) (kv : Kv) (kvs : List Kv)
    → next p d ≡ (d', ok kv)
    → kv_list p fuel d' ≡ ok kvs
    → kv_list p (suc fuel) d ≡ ok (kv ∷ kvs)
unfolding kv_list
kv_list_step p fuel d d' kv kvs e rest =
    let rest' : kv_list p fuel (next p d).0 ≡ ok kvs =
      subst (λ m. kv_list p fuel m ≡ ok kvs) (sym (ap (λ x. x.0) e)) rest in
    rw (e, rest', kv_list) refl

module _ (p : Csproto) (laws : IsVarint p) where
  append_one :
      (d : DbiMessage) (kv : Kv)
      → d.dirty ≡ false
      → Fits kv
      → append p d kv
        ≡ ok (record d {
          buffer = d.buffer ++ (if msg_size p kv == 0 then [] else bytes_field p 2 (kv_bytes p kv));
          num_written_entries = d.num_written_entries + 1;
        })
  unfolding append
  append_one d kv clean fits =
      rw (clean, append_bytes-exact p laws kv fits)
        (write_if (msg_size p kv == 0) (bytes_field p 2 (kv_bytes p kv)) (λ w. record d {
          buffer = d.buffer ++ w;
          dirty = false;
          num_written_entries = d.num_written_entries + 1;
        }))

  pub append_all_lem :
      (d : DbiMessage) (kvs : List Kv)
      → d.dirty ≡ false
      → AllFit kvs
      → append_all p d kvs ≡ ok (appended p d kvs)
  append_all_lem d [] clean fits = ap ok (same_message d (sym (append-nil d.buffer)) (omega arith))
  append_all_lem d (kv ∷ kvs) clean (fit, fits) =
      let m = if msg_size p kv == 0 then [] else bytes_field p 2 (kv_bytes p kv) in
      let d' = record d {
        buffer = d.buffer ++ m;
        num_written_entries = d.num_written_entries + 1;
      } in
      rw (append_one d kv clean fit) (
        append_all_lem d' kvs clean fits
        ∙ ap ok (same_message d (append_assoc d.buffer m (message p kvs)) (omega arith)))

  pub kv_list_lem :
      (kvs : List Kv) (fuel : ℕ) (d : DbiMessage) (a : Bytes)
      → AllFit kvs
      → d.buffer ≡ a ++ message p kvs
      → Sees p d a
      → length d.buffer < 2 ^ 62
      → length (message p kvs) < fuel
      → kv_list p fuel d ≡ ok (written p kvs)
  unfolding kv_list is_end_of_data
  kv_list_lem kvs zero d a fits e c lt h = absurd (omega arith)
  kv_list_lem [] (suc fuel) d a fits e c lt h =
      let all : d.buffer ≡ a = e ∙ append-nil a in
      rw (next_end p d (subst (λ x. Sees p d x) (sym all) c) (omega arith), kv_list) refl
  kv_list_lem (kv ∷ kvs) (suc fuel) d a (fit, fits) e c lt h =
      elim (Bool-cases (msg_size p kv == 0)) [
        | inl t ↦
            let none : message p (kv ∷ kvs) ≡ message p kvs = rw (t) refl in
            rw (t) (
              kv_list_lem kvs (suc fuel) d a fits (e ∙ ap (λ b. a ++ b) none) c lt
                (omega (arith, h, ap length none)))
        | inr f ↦
            let b = kv_bytes p kv in
            let field = bytes_field p 2 b in
            let d' = record d { cur = length (a ++ field) } in
            let one : message p (kv ∷ kvs) ≡ field ++ message p kvs = rw (f) refl in
            let there : d.buffer ≡ a ++ (field ++ message p kvs) = e ∙ ap (λ x. a ++ x) one in
            let short : length b < 2 ^ 63 =
              omega (arith, length-kv_bytes p laws kv fit, msg_size-lt p laws kv fit) in
            let read : next p d ≡ (d', ok kv) =
              next_here p laws d a b (message p kvs) there c short
              ∙ ap (λ r. (d', r)) (unmarshal-kv_bytes p laws kv fit f) in
            rw (f) (
              kv_list_step p fuel d d' kv (written p kvs) read (
                kv_list_lem kvs fuel d' (a ++ field) fits
                  (there ∙ sym (append_assoc a field (message p kvs)))
                  (Sees-cursor p d' (a ++ field) refl) lt
                  (omega (
                    arith,
                    h,
                    ap length one,
                    length-append field (message p kvs),
                    laws.some_bytes 18,
                    length-append (encode_tag p 2 2) (p.encode_varint (length b) ++ b),
                  ))))
      ]

  -- The entries appended to an empty message, one after the other, are those that
  -- AsInefficientKVList finds, but for entries without fields, which Append does not write. No
  -- field of the message has been set, the entries fit Go's types and the memory, and the varints
  -- of csproto are decoded as they are encoded.
  pub as_inefficient_kv_list-append_all :
      (d : DbiMessage) (kvs : List Kv)
      → d.dirty ≡ false
      → d.buffer ≡ []
      → AllFit kvs
      → length (message p kvs) < 2 ^ 62
      → (append_all p d kvs >>= as_inefficient_kv_list p) ≡ ok (written p kvs)
  unfolding as_inefficient_kv_list
  as_inefficient_kv_list-append_all d kvs clean empty fits lt =
      let all : d.buffer ++ message p kvs ≡ message p kvs = ap (λ b. b ++ message p kvs) empty in
      let d' = record (appended p d kvs) { cur = 0 } in
      rw (append_all_lem d kvs clean fits) (
        kv_list_lem kvs (suc (length (d.buffer ++ message p kvs))) d' [] fits all
          (Sees-cursor p d' [] refl) (omega (arith, lt, ap length all))
          (omega (arith, ap length all)))
