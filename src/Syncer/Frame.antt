-- ===== src/Syncer/Frame.antt =====
-- What a load leaves as it was.
use Prim.Native.Nat.{bit_and}
use lightningstream.Base.{
  ℕ, ◌≡◌, refl, sym, subst, inl, inr, Bool, true, false, not, ◌&&◌, Option, List, [], ◌∷◌,
  if◌then◌else◌, Bool-cases, ltb, arith,
}
use lightningstream.Base.Bytes.{Bytes}
use lightningstream.Base.Result.{ok, >>=-eq-ok, branch, ok_inj}
use lightningstream.Lmdb.{Lmdb}
use lightningstream.Snapshot.Dbi.{Dbi}
use lightningstream.Snapshot.Transform.{validate_transform}
use lightningstream.Iterators.{new_native_iterator}
use lightningstream.Strategy.Strategies.{update}
use lightningstream.Strategy.Source.{native_source}
use lightningstream.Syncer.Env.{
  Env, SyncConfig, open_dbi, dbi_exists, read_dbi_names, has_prefix, sync_dbi_prefix,
  allowed_shadow_dbi_flags_mask, deleted_cutoff,
}
use lightningstream.Syncer.Read.{FilterParams}
use lightningstream.Syncer.Shadow.{shadow_of_main, main_to_shadow, main_of_shadow, shadow_to_main}
use lightningstream.Syncer.Load.{
  Snap, create_main, create_target, load_dbi, load_dbis, load_txn, target_of, create_flags,
  has_override, has_local_changes,
}
use lightningstream.Syncer.Touched.{
  IsMain, IsWritten, Survives, unless_canceled-P, each_dbi-P, main_of_shadow-P, shadow_of_main-P,
}

module _ (l : Lmdb) (env : Env l) (conf : SyncConfig) (filter : Option (FilterParams → Bool))
    (P : env.Txn → Type 0) (survives : Survives l env conf P) where
  shadow_to_main-P : (t t' : env.Txn) → P t → shadow_to_main l env conf filter t ≡ ok t' → P t'
  unfolding shadow_to_main
  shadow_to_main-P t t' p h =
      let (names, e, h') = >>=-eq-ok (read_dbi_names l env t) _ h in
      each_dbi-P l env conf filter P survives (main_of_shadow l env conf filter)
        (λ a b name m q k. main_of_shadow-P l env conf filter P survives a b name m q k) names t t'
        p h'

  pub main_to_shadow-P :
      (ts now : ℕ) (t t' : env.Txn)
      → conf.schema_tracks_changes ≡ false
      → P t
      → main_to_shadow l env conf filter ts now t ≡ ok t'
      → P t'
  unfolding main_to_shadow
  main_to_shadow-P ts now t t' shadow p h =
      let (names, e, h') = >>=-eq-ok (read_dbi_names l env t) _ h in
      each_dbi-P l env conf filter P survives (shadow_of_main l env conf filter ts now)
        (λ a b name m q k.
          shadow_of_main-P l env conf filter P survives ts now a b name m shadow q k)
        names t t' p h'

  create_main-P :
      (snap : Snap) (d : Dbi) (t t' : env.Txn)
      → IsMain d.name
      → P t
      → create_main l env conf filter snap d t ≡ ok t'
      → P t'
  unfolding create_main
  create_main-P snap d t t' m p h =
      let (exists, e, h1) = >>=-eq-ok (dbi_exists l env t d.name) _ h in
      elim (branch exists (ok t) _ h1) [
        | inl (b, e1) ↦ subst P (ok_inj e1) p
        | inr (b, h2) ↦
            elim (branch (ltb snap.format_version 3 && not (has_override l env conf filter d)) _ _
              h2) [
                | inl (c, x) ↦ cc
                | inr (c, e2) ↦
                    survives.create_lem t t' d.name (create_flags l env conf filter d) (inl m) e2 p
              ]
      ]

  create_target-P :
      (d : Dbi) (name : Bytes) (t t' : env.Txn)
      → IsWritten conf name
      → P t
      → create_target l env conf filter d name t ≡ ok t'
      → P t'
  unfolding create_target
  create_target-P d name t t' o p h =
      let (exists, e, h1) = >>=-eq-ok (dbi_exists l env t name) _ h in
      let flags =
        if conf.schema_tracks_changes
        then create_flags l env conf filter d
        else bit_and (create_flags l env conf filter d) allowed_shadow_dbi_flags_mask in
      elim (branch exists (ok t) (env.create t name flags) h1) [
        | inl (b, e1) ↦ subst P (ok_inj e1) p
        | inr (b, e2) ↦ survives.create_lem t t' name flags o e2 p
      ]

  target_native :
      (name : Bytes) → conf.schema_tracks_changes ≡ true → target_of l env conf filter name ≡ name
  target_native name e = rw e refl

  IsWritten-target_of :
      (name : Bytes) → IsMain name → IsWritten conf (target_of l env conf filter name)
  IsWritten-target_of name m = elim (Bool-cases conf.schema_tracks_changes) [
    | inl e ↦ subst (IsWritten conf) (sym (target_native name e)) (inl m)
    | inr e ↦ inr (e, (name, (m, rw e refl)))
  ]

  load_dbi-P :
      (now : ℕ) (snap : Snap) (t t' : env.Txn) (d : Dbi)
      → P t
      → load_dbi l env conf filter now snap t d ≡ ok t'
      → P t'
  unfolding load_dbi
  load_dbi-P now snap t t' d p h =
      let name = target_of l env conf filter d.name in
      elim (branch (has_prefix d.name sync_dbi_prefix) (ok t) _ h) [
        | inl (b, e) ↦ subst P (ok_inj e) p
        | inr (m, h0) ↦
            (let (valid, e1, h1) =
                >>=-eq-ok (validate_transform d snap.format_version conf.schema_tracks_changes) _
                  h0 in
              let (t1, e2, h2) =
                >>=-eq-ok
                  (if conf.schema_tracks_changes
                    then ok t
                    else create_main l env conf filter snap d t)
                  _ h1 in
              let (t2, e3, h3) = >>=-eq-ok (create_target l env conf filter d name t1) _ h2 in
              let ((flags, target), e4, h4) = >>=-eq-ok (open_dbi l env t2 name) _ h3 in
              let (it, e5, h5) =
                >>=-eq-ok
                  (new_native_iterator snap.format_version snap.compat_version 0 (env.txn_id t2)
                    (deleted_cutoff conf now))
                  _ h4 in
              let it' =
                if conf.header_extra_padding_block
                then record it { padding_block = true }
                else it in
              let (target', e6, h6) =
                >>=-eq-ok (update l (native_source it' d.entries) target) _ h5 in
              let p1 : P t1 = elim (branch conf.schema_tracks_changes (ok t) _ e2) [
                | inl (b, e) ↦ subst P (ok_inj e) p
                | inr (b, e) ↦ create_main-P snap d t t1 m p e
              ] in
              let written = IsWritten-target_of d.name m in
              unless_canceled-P l env conf filter P survives (env.save t2 name target') t'
                (survives.save_lem t2 name target' written
                  (create_target-P d name t1 t2 written p1 e3))
                h6)
      ]

  load_dbis-P :
      (now : ℕ) (snap : Snap) (ds : List Dbi) (t t' : env.Txn)
      → P t
      → load_dbis l env conf filter now snap ds t ≡ ok t'
      → P t'
  unfolding load_dbis
  load_dbis-P now snap [] t t' p h = subst P (ok_inj h) p
  load_dbis-P now snap (d ∷ ds) t t' p h =
      let (mid, e, h') = >>=-eq-ok (load_dbi l env conf filter now snap t d) _ h in
      load_dbis-P now snap ds mid t' (load_dbi-P now snap t mid d p e) h'

  -- What survives a write to a main DBI, or to a shadow DBI where the schema is not native,
  -- survives the transaction of `LoadOnce`.
  pub load_txn-P :
      (now ts : ℕ) (snap : Snap) (last : ℕ) (t t' : env.Txn)
      → P t
      → load_txn l env conf filter now ts snap last t ≡ ok t'
      → P t'
  unfolding load_txn
  load_txn-P now ts snap last t t' p h =
      let local_changed = has_local_changes last (env.txn_id t) in
      let (t1, e1, h1) =
        >>=-eq-ok
          (if not conf.schema_tracks_changes && local_changed
            then main_to_shadow l env conf filter ts now t
            else ok t)
          _ h in
      let (t2, e2, h2) = >>=-eq-ok (load_dbis l env conf filter now snap snap.databases t1) _ h1 in
      let p1 : P t1 = elim (branch (not conf.schema_tracks_changes && local_changed) _ (ok t) e1) [
        | inl (b, e) ↦ main_to_shadow-P ts now t t1 (ground arith) p e
        | inr (b, e) ↦ subst P (ok_inj e) p
      ] in
      let p2 = load_dbis-P now snap snap.databases t1 t2 p1 e2 in
      elim (branch conf.schema_tracks_changes (ok t2) _ h2) [
        | inl (b, e) ↦ subst P (ok_inj e) p2
        | inr (b, e) ↦ shadow_to_main-P t2 t' p2 e
      ]
