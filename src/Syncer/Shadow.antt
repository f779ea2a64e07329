-- ===== src/Syncer/Shadow.antt =====
-- syncer/shadow.go: the main DBIs and the shadow DBIs, which have the entries with headers.
use Prim.Native.Nat.{bit_and}
use lightningstream.Base.{
  ℕ, Bool, true, false, not, ◌&&◌, Option, List, [], ◌∷◌, ◌++◌, if◌then◌else◌,
}
use lightningstream.Base.Bytes.{Bytes}
use lightningstream.Base.Result.{Result, ok, err, dupsort_disabled, canceled, ◌>>=◌}
use lightningstream.Lmdb.{Lmdb}
use lightningstream.Snapshot.{current_format_version, compat_format_version}
use lightningstream.Dupsort.{encode, decode}
use lightningstream.Iterators.{new_native_iterator}
use lightningstream.Strategy.Strategies.{iter_update, empty_put}
use lightningstream.Strategy.Source.{native_source, plain_source}
use lightningstream.Syncer.Env.{
  Env, SyncConfig, open_dbi, read_dbi_names, has_prefix, sync_dbi_prefix, sync_dbi_shadow_prefix,
  allowed_shadow_dbi_flags_mask, deleted_cutoff,
}
use lightningstream.Syncer.Read.{FilterParams, is_dup_sort, read_dbi}

-- Where LMDB is told that the context has been cancelled.
module _ (l : Lmdb) (env : Env l) where
  abbrev pub unless_canceled : env.Txn → Result env.Txn
  unless_canceled t = if env.is_canceled t then err canceled else ok t

  -- The loop over the names of the DBIs, without the special ones.
  unfoldable pub each_dbi :
      (env.Txn → Bytes → Result env.Txn) → List Bytes → env.Txn → Result env.Txn
  unfolding has_prefix
  each_dbi f [] t = ok t
  each_dbi f (name ∷ names) t = do
    t' ← if has_prefix name sync_dbi_prefix then ok t else f t name
    each_dbi f names t'

module _ (l : Lmdb) (env : Env l) (conf : SyncConfig) (filter : Option (FilterParams → Bool)) where
  -- The body of the loop of `mainToShadow`; `now` is the time at its start.
  unfoldable pub shadow_of_main : ℕ → ℕ → env.Txn → Bytes → Result env.Txn
  unfolding read_dbi open_dbi encode iter_update deleted_cutoff new_native_iterator
  shadow_of_main ts_nano now t dbi_name = do
    dbi_msg ← read_dbi l env conf filter t dbi_name dbi_name true
    (flags, d) ← open_dbi l env t dbi_name
    if is_dup_sort flags && not conf.dup_sort_hack then err dupsort_disabled else do
      dbi_msg' ← if conf.dup_sort_hack && is_dup_sort flags then encode dbi_msg else ok dbi_msg
      t' ← unless_canceled l env t
      let target_name = sync_dbi_shadow_prefix ++ dbi_name
      t1 ← env.create t' target_name (bit_and flags allowed_shadow_dbi_flags_mask)
      (target_flags, target) ← open_dbi l env t1 target_name
      it ←
          new_native_iterator current_format_version compat_format_version ts_nano (env.txn_id t1)
            (deleted_cutoff conf now)
      target' ←
          iter_update (record l { flags = target_flags }) conf.little_endian
            (native_source it dbi_msg'.entries) target
      unless_canceled l env (env.save t1 target_name target')

  -- `mainToShadow`
  unfoldable pub main_to_shadow : ℕ → ℕ → env.Txn → Result env.Txn
  unfolding read_dbi_names each_dbi shadow_of_main
  main_to_shadow ts_nano now t = do
    names ← read_dbi_names l env t
    each_dbi l env (shadow_of_main ts_nano now) names t

  -- The body of the loop of `shadowToMain`.
  unfoldable pub main_of_shadow : env.Txn → Bytes → Result env.Txn
  unfolding read_dbi open_dbi decode iter_update empty_put
  main_of_shadow t dbi_name = do
    (flags, target) ← open_dbi l env t dbi_name
    if is_dup_sort flags && not conf.dup_sort_hack then err dupsort_disabled else do
      dbi_msg ← read_dbi l env conf filter t (sync_dbi_shadow_prefix ++ dbi_name) dbi_name false
      dbi_msg' ← if is_dup_sort flags then decode dbi_msg else ok dbi_msg
      t' ← unless_canceled l env t
      target' ←
          if is_dup_sort flags
          then empty_put l (plain_source dbi_msg'.entries) target
          else iter_update (record l { flags = flags }) conf.little_endian
              (plain_source dbi_msg'.entries) target
      unless_canceled l env (env.save t' dbi_name target')

  -- `shadowToMain`
  unfoldable pub shadow_to_main : env.Txn → Result env.Txn
  unfolding read_dbi_names each_dbi main_of_shadow
  shadow_to_main t = do names ← read_dbi_names l env t; each_dbi l env main_of_shadow names t
