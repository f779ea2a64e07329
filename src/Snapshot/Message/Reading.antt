-- ===== src/Snapshot/Message/Reading.antt =====
-- What `Next` reads where an entry stands, and at the end of the data.
use mathlib.Core.List.{append_assoc}
use lightningstream.Base.{
  ℕ, suc, ◌^◌, ◌<◌, ◌≡◌, refl, sym, ap, ◌∙◌, arith, true, false, length, ◌++◌, length-append,
}
use lightningstream.Base.Bytes.{Bytes}
use lightningstream.Base.Result.{ok, err, end_of_data}
use lightningstream.Snapshot.Wire.{Csproto, IsVarint, encode_tag, expect_wt, slice_from}
use lightningstream.Snapshot.Encoding.{bytes_field, unmarshal}
use lightningstream.Snapshot.Encoding.Fields.{read_bytes_lem}
use lightningstream.Snapshot.Encoding.Messages.{slice_front}
use lightningstream.Snapshot.Message.{DbiMessage, at_end, find_entry, next_bytes, next}

pub not_at_end : (a b : Bytes) → 0 < length b → at_end (a ++ b) (length a) ≡ false
not_at_end a b h = ground (arith, length-append a b)

pub is_at_end : (a : Bytes) → length a < 2 ^ 63 → at_end a (length a) ≡ true
is_at_end a h = ground arith

-- The search for the next entry comes to the end of `a`.
abbrev pub Sees : Csproto → DbiMessage → Bytes → Type 0
Sees p d a =
    (fuel : ℕ) × (find_entry p (suc (length d.buffer)) d.buffer d.cur
      ≡ find_entry p (suc fuel) d.buffer (length a))

pub Sees-cursor : (p : Csproto) (d : DbiMessage) (a : Bytes) → d.cur ≡ length a → Sees p d a
Sees-cursor p d a e = (length d.buffer, ap (λ n. find_entry p (suc (length d.buffer)) d.buffer n) e)

module _ (p : Csproto) (laws : IsVarint p) where
  some_field : (b rest : Bytes) → 0 < length (bytes_field p 2 b ++ rest)
  some_field b rest =
      let body = p.encode_varint (length b) ++ b in
      omega (
        arith,
        laws.some_bytes 18,
        length-append (encode_tag p 2 2) body,
        length-append (bytes_field p 2 b) rest,
      )

  reassociate :
      (a b rest : Bytes)
      → a ++ (bytes_field p 2 b ++ rest)
        ≡ (a ++ encode_tag p 2 2) ++ (p.encode_varint (length b) ++ (b ++ rest))
  reassociate a b rest =
      let tag = encode_tag p 2 2 in
      let size = p.encode_varint (length b) in
      ap (λ x. a ++ x) (append_assoc tag (size ++ b) rest)
      ∙ ap (λ x. a ++ (tag ++ x)) (append_assoc size b rest)
      ∙ sym (append_assoc a tag (size ++ (b ++ rest)))

  find_here :
      (fuel : ℕ) (a b rest : Bytes)
      → find_entry p (suc fuel) (a ++ (bytes_field p 2 b ++ rest)) (length a)
        ≡ ok (2, length (a ++ encode_tag p 2 2))
  unfolding find_entry
  find_here fuel a b rest =
      let body = p.encode_varint (length b) ++ b in
      let front : bytes_field p 2 b ++ rest ≡ encode_tag p 2 2 ++ (body ++ rest) =
        append_assoc (encode_tag p 2 2) body rest in
      rw
        (
          not_at_end a (bytes_field p 2 b ++ rest) (some_field b rest),
          slice_front a (bytes_field p 2 b ++ rest),
          front,
          laws.decode_lem 18 (body ++ rest) (omega arith),
        )
        (ap (λ n. ok (2, n)) (sym (length-append a (encode_tag p 2 2))))

  next_bytes_here :
      (d : DbiMessage) (a b rest : Bytes)
      → d.buffer ≡ a ++ (bytes_field p 2 b ++ rest)
      → Sees p d a
      → length b < 2 ^ 63
      → next_bytes p d ≡ ok (b, length (a ++ bytes_field p 2 b))
  unfolding next_bytes expect_wt
  next_bytes_here d a b rest e (fuel, c) h =
      let tag = encode_tag p 2 2 in
      let size = p.encode_varint (length b) in
      let found : find_entry p (suc (length d.buffer)) d.buffer d.cur ≡ ok (2, length (a ++ tag)) =
        c ∙ rw (e) (find_here fuel a b rest) in
      let sliced : slice_from d.buffer (length (a ++ tag)) ≡ ok (size ++ (b ++ rest)) =
        rw (e, reassociate a b rest) (slice_front (a ++ tag) (size ++ (b ++ rest))) in
      rw (found, sliced, read_bytes_lem p laws b rest h)
        (ap (λ n. ok (b, n))
          (omega (
            arith,
            length-append a tag,
            length-append size b,
            length-append tag (size ++ b),
            length-append a (bytes_field p 2 b),
          )))

  -- The entry at the cursor.
  pub next_here :
      (d : DbiMessage) (a b rest : Bytes)
      → d.buffer ≡ a ++ (bytes_field p 2 b ++ rest)
      → Sees p d a
      → length b < 2 ^ 63
      → next p d ≡ (record d { cur = length (a ++ bytes_field p 2 b) }, unmarshal p b)
  unfolding next
  next_here d a b rest e c h = rw (next_bytes_here d a b rest e c h, next) refl

find_end :
    (p : Csproto) (fuel : ℕ) (a : Bytes)
    → length a < 2 ^ 63
    → find_entry p (suc fuel) a (length a) ≡ err end_of_data
unfolding find_entry
find_end p fuel a h = rw (is_at_end a h) refl

-- Behind the last entry.
pub next_end :
    (p : Csproto) (d : DbiMessage)
    → Sees p d d.buffer
    → length d.buffer < 2 ^ 63
    → next p d ≡ (d, err end_of_data)
unfolding next next_bytes
next_end p d (fuel, c) h =
    let none : find_entry p (suc (length d.buffer)) d.buffer d.cur ≡ err end_of_data =
      c ∙ find_end p fuel d.buffer h in
    let end : next_bytes p d ≡ err end_of_data = rw (none) refl in rw (end, next) refl
