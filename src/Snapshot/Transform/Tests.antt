-- ===== src/Snapshot/Transform/Tests.antt =====
-- The check of a transform at a concrete DBI.
use lightningstream.Base.{◌≡◌, refl, true, false, []}
use lightningstream.Base.Bytes.{compare_bytes, equal_bytes}
use lightningstream.Base.Result.{ok, err, bad_transform}
use lightningstream.Snapshot.Dbi.{Dbi}
use lightningstream.Snapshot.Transform.{
  transform_dupsort_hack_v1, transform_supported, validate_transform,
}

-- A DBI with duplicate keys, which the dupsort hack has transformed.
abbrev duplicates : Dbi
duplicates = record { name = []; flags = 4; transform = transform_dupsort_hack_v1; entries = [] }

accepted_with_shadows : validate_transform duplicates 3 false ≡ ok tt
unfolding validate_transform transform_supported equal_bytes compare_bytes
accepted_with_shadows = refl

refused_natively : validate_transform duplicates 3 true ≡ err bad_transform
unfolding validate_transform transform_supported equal_bytes compare_bytes
refused_natively = refl
