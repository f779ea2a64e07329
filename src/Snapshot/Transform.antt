-- ===== src/Snapshot/Transform.antt =====
-- snapshot/transforms.go: which transforms of a DBI are accepted.
mod Tests
use Prim.Native.Nat.{bit_and}
use lightningstream.Base.{
  ℕ, Bool, true, false, not, ◌&&◌, ◌||◌, [], ◌∷◌, List, ltb, leb, if◌then◌else◌, ◌≡◌, refl, ◌↔◌,
  ◌⊎◌, ◌≤◌, arith, inl, inr, Bool-cases, leb→le,
}
use lightningstream.Base.Bytes.{Bytes, equal_bytes, compare_bytes}
use lightningstream.Base.Maps.{eq_of_equal_bytes}
use lightningstream.Base.Result.{Result, ok, err, bad_transform}
use lightningstream.Snapshot.Dbi.{Dbi}

-- `TransformNone`
abbrev pub transform_none : Bytes
transform_none = []

-- `TransformDupSortHackV1`: "dupsort_hack_v1"
abbrev pub transform_dupsort_hack_v1 : Bytes
transform_dupsort_hack_v1 =
    100 ∷ 117 ∷ 112 ∷ 115 ∷ 111 ∷ 114 ∷ 116 ∷ 95 ∷ 104 ∷ 97 ∷ 99 ∷ 107 ∷ 95 ∷ 118 ∷ 49 ∷ []

-- `lmdb.DupSort`
abbrev pub dup_sort : ℕ
dup_sort = 4

-- `TransformSupported`
unfoldable pub transform_supported : Bytes → Bool
unfolding equal_bytes
transform_supported t = equal_bytes t transform_none || equal_bytes t transform_dupsort_hack_v1

-- `ValidateTransform`
unfoldable pub validate_transform : Dbi → ℕ → Bool → Result (Unit {0})
unfolding transform_supported equal_bytes
validate_transform d format_version native_schema =
    let flags_dup_sort = ltb 0 (bit_and d.flags dup_sort) in
    let transform_dup_sort = equal_bytes d.transform transform_dupsort_hack_v1 in
    if not (transform_supported d.transform)
    then err bad_transform
    else if native_schema && not (equal_bytes d.transform transform_none)
    then err bad_transform
    else if leb 3 format_version
    then (if flags_dup_sort && not transform_dup_sort
        then err bad_transform
        else if not flags_dup_sort && transform_dup_sort
        then err bad_transform
        else ok tt)
    else ok tt

known :
    (t : Bytes)
    → (equal_bytes t transform_none ≡ true → t ≡ transform_none)
      × (equal_bytes t transform_dupsort_hack_v1 ≡ true → t ≡ transform_dupsort_hack_v1)
known t = (eq_of_equal_bytes t transform_none, eq_of_equal_bytes t transform_dupsort_hack_v1)

is_none :
    (t : Bytes)
    → t ≡ transform_none
    → (equal_bytes t transform_none ≡ true) × (equal_bytes t transform_dupsort_hack_v1 ≡ false)
unfolding equal_bytes compare_bytes
is_none t e = rw e (refl, refl)

is_v1 :
    (t : Bytes)
    → t ≡ transform_dupsort_hack_v1
    → (equal_bytes t transform_none ≡ false) × (equal_bytes t transform_dupsort_hack_v1 ≡ true)
unfolding equal_bytes compare_bytes
is_v1 t e = rw e (refl, refl)

-- Which DBIs of a snapshot are accepted: with a native schema the ones without a transform;
-- otherwise also the ones with that of the dupsort hack. From format version 3 on a DBI has this
-- transform exactly if it has the flag for duplicate keys.
abbrev pub IsAccepted : Dbi → ℕ → Bool → Type 0
IsAccepted d format_version native_schema =
    ((d.transform ≡ transform_none)
      ⊎ ((d.transform ≡ transform_dupsort_hack_v1) × (native_schema ≡ false)))
    × (3 ≤ format_version
        → ((ltb 0 (bit_and d.flags dup_sort) ≡ true) ↔ (d.transform ≡ transform_dupsort_hack_v1)))

-- `ValidateTransform` returns no error exactly for the DBIs that are accepted.
pub validate_transform_iff :
    (d : Dbi) (format_version : ℕ) (native_schema : Bool)
    → (validate_transform d format_version native_schema ≡ ok tt)
      ↔ IsAccepted d format_version native_schema
unfolding validate_transform
validate_transform_iff d v n = (
  λ h. (
    ground (arith, known d.transform),
    λ le. (λ f. ground (arith, known d.transform), λ e. ground (arith, is_v1 d.transform e)),
  ),
  λ (a, i). elim (Bool-cases (leb 3 v)) [
    | inl le ↦
        (let (f, g) = i (leb→le 3 v le) in
          elim a [
            | inl e ↦ ground (arith, f, is_none d.transform e, known d.transform)
            | inr (e, s) ↦ ground (arith, g e, is_v1 d.transform e)
          ])
    | inr gt ↦ elim a [
      | inl e ↦ ground (arith, is_none d.transform e)
      | inr (e, s) ↦ ground (arith, is_v1 d.transform e)
    ]
  ],
)
