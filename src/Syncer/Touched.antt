-- ===== src/Syncer/Touched.antt =====
-- Which DBIs the transactions of the syncer write to.
use lightningstream.Base.{
  ℕ, ◌≡◌, refl, subst, ◌⊎◌, inl, inr, Bool, true, false, not, ◌&&◌, Option, List, [], ◌∷◌, ◌++◌,
  if◌then◌else◌,
}
use lightningstream.Base.Bytes.{Bytes}
use lightningstream.Base.Result.{Result, ok, >>=-eq-ok, branch, ok_inj}
use Prim.Native.Nat.{bit_and}
use lightningstream.Snapshot.{current_format_version, compat_format_version}
use lightningstream.Dupsort.{encode, decode}
use lightningstream.Iterators.{new_native_iterator}
use lightningstream.Strategy.Strategies.{iter_update, empty_put}
use lightningstream.Strategy.Source.{native_source, plain_source}
use lightningstream.Lmdb.{Lmdb}
use lightningstream.Syncer.Env.{
  Env, SyncConfig, has_prefix, sync_dbi_prefix, sync_dbi_shadow_prefix, open_dbi, deleted_cutoff,
  allowed_shadow_dbi_flags_mask,
}
use lightningstream.Syncer.Read.{FilterParams, is_dup_sort, read_dbi}
use lightningstream.Syncer.Shadow.{unless_canceled, each_dbi, shadow_of_main, main_of_shadow}

-- The main DBIs, and their shadows where the schema is not native.
abbrev pub IsMain : Bytes → Type 0
IsMain name = has_prefix name sync_dbi_prefix ≡ false

abbrev pub IsWritten : SyncConfig → Bytes → Type 0
IsWritten conf name =
    IsMain name
    ⊎ ((conf.schema_tracks_changes ≡ false)
        × ((main : Bytes) × (IsMain main × (name ≡ sync_dbi_shadow_prefix ++ main))))

-- `P` survives what is written to these DBIs.
pub record Survives (l : Lmdb) (env : Env l) (conf : SyncConfig) (P : env.Txn → Type 0)
    : Type 0 where
  pub create_lem :
      (t t' : env.Txn) (name : Bytes) (flags : ℕ)
      → IsWritten conf name
      → env.create t name flags ≡ ok t'
      → P t
      → P t'
  pub save_lem :
      (t : env.Txn) (name : Bytes) (d : l.Dbi) → IsWritten conf name → P t → P (env.save t name d)

module _ (l : Lmdb) (env : Env l) (conf : SyncConfig) (filter : Option (FilterParams → Bool))
    (P : env.Txn → Type 0) (survives : Survives l env conf P) where
  pub unless_canceled-P : (t t' : env.Txn) → P t → unless_canceled l env t ≡ ok t' → P t'
  unless_canceled-P t t' p h = elim (branch (env.is_canceled t) _ (ok t) h) [
    | inl (c, e) ↦ cc
    | inr (c, e) ↦ subst P (ok_inj e) p
  ]

  pub each_dbi-P :
      (f : env.Txn → Bytes → Result env.Txn)
      → ((t t' : env.Txn) (name : Bytes) → IsMain name → P t → f t name ≡ ok t' → P t')
      → (names : List Bytes) (t t' : env.Txn) → P t
      → each_dbi l env f names t ≡ ok t'
      → P t'
  unfolding each_dbi
  each_dbi-P f one [] t t' p h = subst P (ok_inj h) p
  each_dbi-P f one (name ∷ names) t t' p h =
      let (mid, e, h') =
        >>=-eq-ok (if has_prefix name sync_dbi_prefix then ok t else f t name) _ h in
      each_dbi-P f one names mid t'
        (elim (branch (has_prefix name sync_dbi_prefix) (ok t) (f t name) e) [
          | inl (b, e') ↦ subst P (ok_inj e') p
          | inr (b, e') ↦ one t mid name b p e'
        ])
        h'

  pub main_of_shadow-P :
      (t t' : env.Txn) (name : Bytes)
      → IsMain name
      → P t
      → main_of_shadow l env conf filter t name ≡ ok t'
      → P t'
  unfolding main_of_shadow
  main_of_shadow-P t t' name m p h =
      let ((flags, target), e1, h1) = >>=-eq-ok (open_dbi l env t name) _ h in
      elim (branch (is_dup_sort flags && not conf.dup_sort_hack) _ _ h1) [
        | inl (b, x) ↦ cc
        | inr (b, h2) ↦
            (let shadow = sync_dbi_shadow_prefix ++ name in
              let (msg, e3, h3) = >>=-eq-ok (read_dbi l env conf filter t shadow name false) _ h2 in
              let (msg', e4, h4) =
                >>=-eq-ok (if is_dup_sort flags then decode msg else ok msg) _ h3 in
              let (t1, e5, h5) = >>=-eq-ok (unless_canceled l env t) _ h4 in
              let it = plain_source msg'.entries in
              let (target', e6, h6) =
                >>=-eq-ok
                  (if is_dup_sort flags
                    then empty_put l it target
                    else iter_update (record l { flags = flags }) conf.little_endian it target)
                  _ h5 in
              unless_canceled-P (env.save t1 name target') t'
                (survives.save_lem t1 name target' (inl m) (unless_canceled-P t t1 p e5)) h6)
      ]

  pub shadow_of_main-P :
      (ts now : ℕ) (t t' : env.Txn) (name : Bytes)
      → IsMain name
      → conf.schema_tracks_changes ≡ false
      → P t
      → shadow_of_main l env conf filter ts now t name ≡ ok t'
      → P t'
  unfolding shadow_of_main
  shadow_of_main-P ts now t t' name m shadow p h =
      let shadow_name = sync_dbi_shadow_prefix ++ name in
      let is_ok : IsWritten conf shadow_name = inr (shadow, (name, (m, refl))) in
      let (msg, e0, h0) = >>=-eq-ok (read_dbi l env conf filter t name name true) _ h in
      let ((flags, d), e1, h1) = >>=-eq-ok (open_dbi l env t name) _ h0 in
      elim (branch (is_dup_sort flags && not conf.dup_sort_hack) _ _ h1) [
        | inl (b, x) ↦ cc
        | inr (b, h2) ↦
            (let (msg', e3, h3) =
                >>=-eq-ok (if conf.dup_sort_hack && is_dup_sort flags then encode msg else ok msg) _
                  h2 in
              let (t1, e4, h4) = >>=-eq-ok (unless_canceled l env t) _ h3 in
              let shadow_flags = bit_and flags allowed_shadow_dbi_flags_mask in
              let (t2, e5, h5) = >>=-eq-ok (env.create t1 shadow_name shadow_flags) _ h4 in
              let ((flags', target), e6, h6) = >>=-eq-ok (open_dbi l env t2 shadow_name) _ h5 in
              let (it, e7, h7) =
                >>=-eq-ok
                  (new_native_iterator current_format_version compat_format_version ts
                    (env.txn_id t2) (deleted_cutoff conf now))
                  _ h6 in
              let (target', e8, h8) =
                >>=-eq-ok
                  (iter_update (record l { flags = flags' }) conf.little_endian
                    (native_source it msg'.entries) target)
                  _ h7 in
              unless_canceled-P (env.save t2 shadow_name target') t'
                (survives.save_lem t2 shadow_name target' is_ok (
                  survives.create_lem t1 t2 shadow_name shadow_flags is_ok e5
                    (unless_canceled-P t t1 p e4)))
                h8)
      ]
