-- ===== src/Snapshot/Dbi.antt =====
-- snapshot/dbi.go: a DBI of a snapshot, as the entries that `Next` yields. The protobuf encoding
-- of the entries is not modelled here.
use lightningstream.Base.{ℕ, List, [], ◌∷◌, ◌&&◌, ◌==◌, length, if◌then◌else◌}
use lightningstream.Base.Bytes.{Bytes}
use lightningstream.Base.Result.{Result, ok, ◌>>=◌}
use lightningstream.Snapshot.{Kv}

pub record Dbi : Type 0 where
  pub name : Bytes
  pub flags : ℕ
  pub transform : Bytes
  pub entries : List Kv

-- `Append`, as far as the entries are concerned: an entry without any field set is not written.
unfoldable pub append_kv : Kv → List Kv → List Kv
append_kv kv rest =
    if (length kv.key == 0) && (length kv.value == 0) && (kv.flags == 0) && (kv.timestamp_nano == 0)
    then rest
    else kv ∷ rest

-- The loop of `DBI.Map`. The callback may have variables of its own, `S`.
unfoldable pub map_entries {ℓ} :
    {S : Type ℓ} → (S → Kv → Result (S × Kv)) → S → List Kv → Result (List Kv)
unfolding append_kv
map_entries f s [] = ok []
map_entries f s (kv ∷ rest) = do
  (s', new) ← f s kv
  mapped ← map_entries f s' rest
  ok (append_kv new mapped)

-- `DBI.Map`
unfoldable pub map_dbi {ℓ} :
    {S : Type ℓ} → Dbi → Bytes → (S → Kv → Result (S × Kv)) → S → Result Dbi
unfolding map_entries
map_dbi d transform f s = do
  mapped ← map_entries f s d.entries
  ok (record d { transform = transform; entries = mapped })
