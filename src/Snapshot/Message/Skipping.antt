-- ===== src/Snapshot/Message/Skipping.antt =====
-- `Next` passes over the fields of a DBI to its entries.
use mathlib.Core.List.{append-nil, append_assoc}
use lightningstream.Base.{
  ℕ, suc, ◌+◌, ◌-◌, ◌*◌, ◌/◌, ◌%◌, ◌^◌, ◌<◌, ◌≤◌, ◌≡◌, refl, sym, ap, ◌∙◌, subst, arith, Bool, true,
  false, ltb, ◌==◌, length, drop, List, [], ◌∷◌, ◌++◌, length-append, drop-append-length,
}
use lightningstream.Base.Bytes.{Bytes}
use lightningstream.Base.Result.{ok}
use lightningstream.Snapshot.Wire.{Csproto, IsVarint, encode_tag, skip_tag, skip_checked}
use lightningstream.Snapshot.Encoding.Messages.{slice_front}
use lightningstream.Snapshot.Chain.{concat, one_if}
use lightningstream.Snapshot.Message.{DbiMessage, at_end, find_entry}
use lightningstream.Snapshot.Message.Reading.{not_at_end, Sees}
use lightningstream.Snapshot.Message.Indexing.{top_fields}

module _ (p : Csproto) (laws : IsVarint p) where
  -- A field that `Next` skips wherever it stands.
  abbrev pub Skips : Bytes → Type 0
  Skips f =
      (0 < length f)
      × ((fuel : ℕ) (a rest : Bytes)
          → length (a ++ (f ++ rest)) < 2 ^ 63
          → find_entry p (suc fuel) (a ++ (f ++ rest)) (length a)
            ≡ find_entry p fuel (a ++ (f ++ rest)) (length (a ++ f)))

  Skips-tagged :
      (tag wire_type : ℕ) (value : Bytes)
      → tag < 16
      → wire_type < 8
      → (tag == 2) ≡ false
      → ((rest : Bytes)
          → length (value ++ rest) < 2 ^ 63
          → skip_tag p (value ++ rest) wire_type ≡ ok (length value))
      → Skips (encode_tag p tag wire_type ++ value)
  unfolding find_entry
  Skips-tagged tag wire_type value h1 h2 other skip =
      let v = tag * 8 + wire_type in
      let t = encode_tag p tag wire_type in
      let one = laws.one_byte v (omega arith) in
      let quotient : v / 8 ≡ tag = omega arith in
      let remainder : v % 8 ≡ wire_type = omega arith in
      let some : 0 < length (t ++ value) = omega (arith, one, length-append t value) in
      (
        some,
        λ fuel a rest lt.
            let f = t ++ value in
            let left : at_end (a ++ (f ++ rest)) (length a) ≡ false =
              not_at_end a (f ++ rest) (omega (arith, some, length-append f rest)) in
            let short : length (value ++ rest) < 2 ^ 63 = omega (
              arith,
              lt,
              length-append a (f ++ rest),
              length-append f rest,
              length-append t value,
              length-append value rest,
            ) in
            let place : (length a + length t + length value) % 2 ^ 64 ≡ length (a ++ f) = omega (
              arith,
              lt,
              length-append a (f ++ rest),
              length-append f rest,
              length-append t value,
              length-append a f,
            ) in
            let decoded : p.decode_varint (f ++ rest) ≡ ok (v, length t) =
              rw (append_assoc t value rest) (laws.decode_lem v (value ++ rest) (omega arith)) in
            let behind : drop (length t) (f ++ rest) ≡ value ++ rest =
              rw (append_assoc t value rest) (drop-append-length t (value ++ rest)) in
            rw
              (
                left,
                slice_front a (f ++ rest),
                decoded,
                quotient,
                remainder,
                other,
                behind,
                skip rest short,
                place,
              )
              refl,
      )

  skip_bytes :
      (b rest : Bytes)
      → length ((p.encode_varint (length b) ++ b) ++ rest) < 2 ^ 63
      → skip_tag p ((p.encode_varint (length b) ++ b) ++ rest) 2
        ≡ ok (length (p.encode_varint (length b) ++ b))
  unfolding skip_tag skip_checked
  skip_bytes b rest lt =
      let size = p.encode_varint (length b) in
      let decoded : p.decode_varint ((size ++ b) ++ rest) ≡ ok (length b, length size) =
        rw (append_assoc size b rest) (
          laws.decode_lem (length b) (b ++ rest)
            (omega (arith, lt, length-append (size ++ b) rest, length-append size b))) in
      rw (decoded) (ground (arith, lt, length-append (size ++ b) rest, length-append size b))

  skip_varint :
      (v : ℕ) (rest : Bytes)
      → v < 2 ^ 64
      → length (p.encode_varint v ++ rest) < 2 ^ 63
      → skip_tag p (p.encode_varint v ++ rest) 0 ≡ ok (length (p.encode_varint v))
  unfolding skip_tag skip_checked
  skip_varint v rest h lt =
      rw (laws.decode_lem v rest h) (ground (arith, lt, length-append (p.encode_varint v) rest))

  abbrev AllSkip : List Bytes → Type 0
  AllSkip [] = Unit {0}
  AllSkip (f ∷ fs) = Skips f × AllSkip fs

  AllSkip-append : (fs gs : List Bytes) → AllSkip fs → AllSkip gs → AllSkip (fs ++ gs)
  AllSkip-append [] gs s t = t
  AllSkip-append (f ∷ fs) gs (s, ss) t = (s, AllSkip-append fs gs ss t)

  AllSkip-one_if : (c : Bool) (f : Bytes) → Skips f → AllSkip (one_if c f)
  AllSkip-one_if true f s = (s, tt)
  AllSkip-one_if false f s = tt

  AllSkip-top_fields :
      (d : DbiMessage)
      → length d.name < 2 ^ 62
      → d.flags < 2 ^ 64
      → length d.transform < 2 ^ 62
      → AllSkip (top_fields p laws d)
  AllSkip-top_fields d h1 h2 h3 =
      AllSkip-append _ _
        (AllSkip-one_if (ltb 0 (length d.name)) _
          (Skips-tagged 1 2 _ (omega arith) (omega arith) refl (λ rest. skip_bytes d.name rest)))
        (AllSkip-append _ _
          (AllSkip-one_if (ltb 0 d.flags) _ (
            Skips-tagged 3 0 _ (omega arith) (omega arith) refl
              (λ rest. skip_varint d.flags rest h2)))
          (AllSkip-one_if (ltb 0 (length d.transform)) _ (
            Skips-tagged 4 2 _ (omega arith) (omega arith) refl
              (λ rest. skip_bytes d.transform rest))))

  abbrev more : List Bytes → ℕ → ℕ
  more [] fuel = fuel
  more (f ∷ fs) fuel = suc (more fs fuel)

  more_lem : (fs : List Bytes) (fuel : ℕ) → more fs fuel ≡ length fs + fuel
  more_lem [] fuel = omega arith
  more_lem (f ∷ fs) fuel = omega (arith, more_lem fs fuel)

  find_skips :
      (fs : List Bytes) (fuel : ℕ) (a rest buf : Bytes)
      → AllSkip fs
      → buf ≡ a ++ (concat fs ++ rest)
      → length buf < 2 ^ 63
      → find_entry p (more fs fuel) buf (length a) ≡ find_entry p fuel buf (length (a ++ concat fs))
  find_skips [] fuel a rest buf ss e lt =
      ap (λ b. find_entry p fuel buf (length b)) (sym (append-nil a))
  find_skips (f ∷ fs) fuel a rest buf ((some, skip), ss) e lt =
      let e1 : buf ≡ a ++ (f ++ (concat fs ++ rest)) =
        e ∙ ap (λ b. a ++ b) (append_assoc f (concat fs) rest) in
      let first = skip (more fs fuel) a (concat fs ++ rest) (omega (arith, lt, ap length e1)) in
      subst
        (λ b.
          find_entry p (suc (more fs fuel)) b (length a)
          ≡ find_entry p (more fs fuel) b (length (a ++ f)))
        (sym e1) first
      ∙ find_skips fs fuel (a ++ f) rest buf ss (e1 ∙ sym (append_assoc a f (concat fs ++ rest))) lt
      ∙ ap (λ b. find_entry p fuel buf (length b)) (append_assoc a f (concat fs))

  length-AllSkip : (fs : List Bytes) → AllSkip fs → length fs ≤ length (concat fs)
  length-AllSkip [] ss = omega arith
  length-AllSkip (f ∷ fs) ((some, skip), ss) =
      omega (arith, some, length-AllSkip fs ss, length-append f (concat fs))

  -- From the beginning of the data, the search comes to the end of the fields.
  pub Sees-top_fields :
      (d o : DbiMessage) (rest : Bytes)
      → length o.name < 2 ^ 62
      → o.flags < 2 ^ 64
      → length o.transform < 2 ^ 62
      → d.buffer ≡ concat (top_fields p laws o) ++ rest
      → d.cur ≡ 0
      → length d.buffer < 2 ^ 63
      → Sees p d (concat (top_fields p laws o))
  Sees-top_fields d o rest h1 h2 h3 e c lt =
      let fs = top_fields p laws o in
      let ss = AllSkip-top_fields o h1 h2 h3 in
      let left = length d.buffer - length fs in
      let enough : suc (length d.buffer) ≡ more fs (suc left) = omega (
        arith,
        more_lem fs (suc left),
        length-AllSkip fs ss,
        ap length e,
        length-append (concat fs) rest,
      ) in
      (
        left,
        ap (λ n. find_entry p (suc (length d.buffer)) d.buffer n) c
            ∙ ap (λ n. find_entry p n d.buffer 0) enough
            ∙ find_skips fs (suc left) [] rest d.buffer ss e lt,
      )
