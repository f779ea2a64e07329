-- ===== src/Snapshot/Groups.antt =====
-- An instance of the varints of csproto.
use lightningstream.Base.{
  ℕ, zero, suc, ◌+◌, ◌-◌, ◌*◌, ◌/◌, ◌%◌, ◌≤◌, ◌<◌, ◌≡◌, refl, ap, arith, true, false, ltb,
  if◌then◌else◌, length, [], ◌∷◌, ◌++◌, Bool-cases, inl, inr,
}
use lightningstream.Base.Bytes.{Bytes}
use lightningstream.Base.Result.{Result, ok, err, too_short, ◌>>=◌}
use lightningstream.Snapshot.Wire.{Csproto, IsVarint}

-- Seven bits in every byte, the lowest first; a byte from 128 on has a next one.
unfoldable pub encode_groups : ℕ → ℕ → Bytes
encode_groups zero v = v ∷ []
encode_groups (suc more) v =
    if ltb v 128 then v ∷ [] else (128 + v % 128) ∷ encode_groups more (v / 128)

unfoldable pub decode_groups : Bytes → Result (ℕ × ℕ)
decode_groups [] = err too_short
decode_groups (b ∷ bs) =
    if ltb b 128 then ok (b, 1) else (do (v, n) ← decode_groups bs; ok ((b - 128) + 128 * v, suc n))

abbrev below : ℕ → ℕ
below zero = 128
below (suc more) = 128 * below more

groups_lem :
    (more v : ℕ) (rest : Bytes)
    → v < below more
    → decode_groups (encode_groups more v ++ rest) ≡ ok (v, length (encode_groups more v))
unfolding encode_groups decode_groups
groups_lem zero v rest h = ground arith
groups_lem (suc more) v rest h = elim (Bool-cases (ltb v 128)) [
  | inl t ↦ rw (t, t) refl
  | inr f ↦
      let high : ltb (128 + v % 128) 128 ≡ false = ground arith in
      rw (f, high, groups_lem more (v / 128) rest (omega arith))
        (ap (λ n. ok (n, suc (length (encode_groups more (v / 128))))) (omega arith))
]

length-groups : (more v : ℕ) → length (encode_groups more v) ≤ suc more
unfolding encode_groups
length-groups zero v = omega arith
length-groups (suc more) v = elim (Bool-cases (ltb v 128)) [
  | inl t ↦ rw (t) (omega arith)
  | inr f ↦ rw (f) (omega (arith, length-groups more (v / 128)))
]

some_groups : (more v : ℕ) → 0 < length (encode_groups more v)
unfolding encode_groups
some_groups zero v = omega arith
some_groups (suc more) v = elim (Bool-cases (ltb v 128)) [
  | inl t ↦ rw (t) (omega arith)
  | inr f ↦ rw (f) (omega arith)
]

one_group : (v : ℕ) → v < 128 → length (encode_groups 9 v) ≡ 1
unfolding encode_groups
one_group v h = let small : ltb v 128 ≡ true = ground arith in rw (small) refl

abbrev pub groups : Csproto
groups = record {
  encode_varint = encode_groups 9;
  decode_varint = decode_groups;
  size_of_varint = λ v. length (encode_groups 9 v);
}

pub groups-IsVarint : IsVarint groups
groups-IsVarint = record {
  decode_lem = λ v rest h. groups_lem 9 v rest (omega arith);
  size_lem = λ v h. refl;
  one_byte = one_group;
  some_bytes = some_groups 9;
  ten_bytes = λ v h. length-groups 9 v;
}
