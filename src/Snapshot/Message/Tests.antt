-- ===== src/Snapshot/Message/Tests.antt =====
-- Runs of the messages of snapshot/dbi.go.
use lightningstream.Base.{ℕ, ◌≡◌, refl, List, [], ◌∷◌}
use lightningstream.Base.Bytes.{Bytes}
use lightningstream.Base.Result.{Result, ok, err, ◌>>=◌, too_short}
use lightningstream.Snapshot.{Kv}
use lightningstream.Snapshot.Groups.{groups, encode_groups, decode_groups}
use lightningstream.Snapshot.Wire.{expect_wt, slice_from, skip_tag, read_bytes, skip_checked}
use lightningstream.Snapshot.Encoding.{msg_size, append_bytes}
use lightningstream.Snapshot.Message.{
  DbiMessage, new_dbi, set_name, set_flags, append, marshal, new_dbi_from_data, index_field,
  flush_fields, do_flush_fields, put_bytes, put_varint,
}
use lightningstream.Snapshot.Message.Listing.{written}

abbrev first : Kv
first = record { key = 7 ∷ 8 ∷ []; value = 9 ∷ []; timestamp_nano = 300; flags = 200 }

abbrev no_field : Kv
no_field = record { key = []; value = []; timestamp_nano = 0; flags = 0 }

abbrev last : Kv
last = record { key = 8 ∷ []; value = []; timestamp_nano = 400; flags = 1 }

abbrev three : List Kv
three = first ∷ no_field ∷ last ∷ []

written_list : written groups three ≡ first ∷ last ∷ []
unfolding msg_size encode_groups
written_list = refl

-- The fields that have been set are written once, before the first entry.
abbrev named : Result Bytes
named = do
  d ← set_name new_dbi (65 ∷ 66 ∷ [])
  d' ← set_flags d 3
  d'' ← append groups d' last
  (d''', b) ← marshal groups d''
  ok b

abbrev named_bytes : Bytes
named_bytes =
    10 ∷ 2 ∷ 65 ∷ 66 ∷ 24 ∷ 3 ∷ 18 ∷ 14 ∷ 10 ∷ 1 ∷ 8 ∷ 32 ∷ 1 ∷ 25 ∷ 144 ∷ 1 ∷ 0 ∷ 0 ∷ 0 ∷ 0 ∷ 0 ∷ 0
    ∷ []

marshal_named : named ≡ ok named_bytes
unfolding set_name set_flags append marshal encode_groups append_bytes flush_fields do_flush_fields
    put_bytes put_varint
marshal_named = refl

abbrev fields_of : Result DbiMessage → Result (Bytes × ℕ)
fields_of r = r >>= λ d. ok (d.name, d.flags)

index_named : fields_of (new_dbi_from_data groups named_bytes) ≡ ok (65 ∷ 66 ∷ [], 3)
unfolding new_dbi_from_data index_field decode_groups slice_from expect_wt read_bytes
index_named = refl

-- A message with an unknown field 5 of 2 bytes is refused: the length by which it is skipped is
-- read at the beginning of the data, where the tag is.
abbrev unknown_field : Bytes
unknown_field = 42 ∷ 2 ∷ 24 ∷ 3 ∷ 24 ∷ 9 ∷ []

index_unknown : fields_of (new_dbi_from_data groups unknown_field) ≡ err too_short
unfolding new_dbi_from_data index_field decode_groups slice_from expect_wt read_bytes skip_tag
    skip_checked
index_unknown = refl
