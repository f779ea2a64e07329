-- ===== src/Syncer/Program/Numbering.antt =====
-- The numbers of the transactions that the calls of the program make, on which the loop relies.
use lightningstream.Base.{
  ℕ, ◌-◌, ◌≡◌, ◌⊎◌, refl, sym, ap, subst, ◌∙◌, inl, inr, arith, Bool, true, false, not, Option,
  List, [], if◌then◌else◌, Bool-cases, Option-cases,
}
use lightningstream.Base.Bytes.{Bytes}
use lightningstream.Base.Result.{ok, err, external, >>=-eq-ok, branch, ok_inj, ok_pair}
use lightningstream.Lmdb.{Lmdb}
use lightningstream.Snapshot.Dbi.{Dbi}
use lightningstream.Receiver.Downloader.{next, close}
use lightningstream.Syncer.Env.{Env, SyncConfig, read_dbi_names}
use lightningstream.Syncer.Read.{FilterParams}
use lightningstream.Syncer.Shadow.{main_to_shadow}
use lightningstream.Syncer.Load.{load_once, adjusted}
use lightningstream.Syncer.Loading.{NumbersTxns, own_txn, load_once-last_txn_id}
use lightningstream.Syncer.Frame.{main_to_shadow-P}
use lightningstream.Syncer.Send.{
  Storage, Sender, send_txn, dump_once, send_once, store_loop, dump_dbis,
}
use lightningstream.Syncer.Echo.{IsUntouched}
use lightningstream.Syncer.CaughtUp.{ReportsLast}
use lightningstream.Syncer.Program.{
  Running, Surroundings, Taken, next_update, load_and_close, send_snapshot, is_overdue, sleep_poll,
  calls,
}

if_true {ℓ} :
    {A : Type ℓ} {b : Bool} (x y : A) {z : A} → b ≡ true → (if b then x else y) ≡ z → x ≡ z
if_true {b = true} x y t h = h
if_true {b = false} x y t h = absurd (ground arith)

if_false {ℓ} :
    {A : Type ℓ} {b : Bool} (x y : A) {z : A} → b ≡ false → (if b then x else y) ≡ z → y ≡ z
if_false {b = true} x y t h = absurd (ground arith)
if_false {b = false} x y t h = h

module _ (l : Lmdb) (env : Env l) (conf : SyncConfig) (filter : Option (FilterParams → Bool))
    (s : Storage) (around : Surroundings env s) where
  -- Nothing but the loop writes to LMDB, and no snapshot is forced.
  pub record IsAlone : Type 0 where
    pub meanwhile_lem :
        (w : Running env s) → env.last_txn_id (around.meanwhile w).world ≡ env.last_txn_id w.world
    pub unforced : around.force_snapshot_interval ≡ 0

  world-next_update :
      (w : Running env s) → (next_update l env conf filter s around w).1.world ≡ w.world
  unfolding next_update
  world-next_update w = elim (Option-cases (next w.pipeline (around.first w.pipeline))) [
    | inl e ↦ rw (e, next_update) refl
    | inr (p, e) ↦ rw (e, next_update) refl
  ]

  load_and_close-last_txn_id :
      (w w' : Running env s) (i : Bytes) (u : Taken l env conf filter s around) (last txn_id : ℕ)
      (local_changed : Bool)
      → NumbersTxns l env
      → env.last_txn_id w.world ≡ ok last
      → load_and_close l env conf filter s around w i u last ≡ ok (txn_id, local_changed, w')
      → (local_changed ≡ false) × (env.last_txn_id w'.world ≡ ok txn_id)
  unfolding load_and_close
  load_and_close-last_txn_id w w' i u last txn_id local_changed numbers e h =
      let (now, ts) = around.times w in
      let ((id, changed, (world, by)), e1, h1) =
        >>=-eq-ok
          (load_once l env conf filter now ts i
            (record { snapshot = u.snapshot; timestamp = u.name_info.timestamp }) last
            (w.world, w.last_by_instance))
          _ h in
      let (f, (e2, _)) =
        load_once-last_txn_id l env conf filter now ts i
          (record { snapshot = u.snapshot; timestamp = u.name_info.timestamp }) last id changed
          w.world world w.last_by_instance by numbers e e1 in
      elim (Option-cases (close w.pipeline)) [
        | inl c ↦ absurd (cc (rw c at h1))
        | inr (p, c) ↦
            subst
              (λ (r : ℕ × Bool × Running env s).
                (r.1 ≡ false) × (env.last_txn_id r.2.world ≡ ok r.0))
              (ok_inj (rw c at h1)) (f, e2)
      ]

  -- The transaction of a `SendOnce`, and with shadow DBIs what it writes to them.
  txn_id-send_txn :
      (now ts : ℕ) (t t' : env.Txn) (ds : List Dbi)
      → NumbersTxns l env
      → send_txn l env conf filter now ts t ≡ ok (ds, t')
      → env.txn_id t' ≡ env.txn_id t
  unfolding send_txn
  txn_id-send_txn now ts t t' ds numbers h =
      let (t1, e1, h1) =
        >>=-eq-ok
          (if not conf.schema_tracks_changes
            then main_to_shadow l env conf filter ts now t
            else ok t)
          _ h in
      let same : env.txn_id t1 ≡ env.txn_id t =
        elim (branch (not conf.schema_tracks_changes) _ (ok t) e1) [
          | inl (shadow, e2) ↦
              main_to_shadow-P l env conf filter (λ x. env.txn_id x ≡ env.txn_id t)
                (record {
                  create_lem = λ a b n f o e p. numbers.create_lem a b n f e ∙ p;
                  save_lem = λ a n d o p. numbers.save_lem a n d ∙ p;
                })
                ts now t t1 (ground (arith, shadow)) refl e2
          | inr (native, e2) ↦ ap env.txn_id (sym (ok_inj e2))
        ] in
      elim (branch conf.receive_only (ok ([], t1)) _ h1) [
        | inl (r, e2) ↦ ap env.txn_id (sym (ok_pair e2)) ∙ same
        | inr (r, h2) ↦
            (let (names, e3, h3) = >>=-eq-ok (read_dbi_names l env t1) _ h2 in
              let (ds', e4, h4) = >>=-eq-ok (dump_dbis l env conf filter names t1) _ h3 in
              ap env.txn_id (sym (ok_pair h4)) ∙ same)
      ]

  dump_once-last_txn_id :
      (now ts : ℕ) (w w' : env.World) (ds : List Dbi) (last txn_id : ℕ)
      → NumbersTxns l env
      → env.last_txn_id w ≡ ok last
      → dump_once l env conf filter now ts w ≡ ok (txn_id, ds, w')
      → env.last_txn_id w' ≡ ok txn_id
  unfolding dump_once
  dump_once-last_txn_id now ts w w' ds last txn_id numbers e h =
      let (t, e1, h1) =
        >>=-eq-ok (if conf.schema_tracks_changes then env.begin_view w else env.begin w) _ h in
      let ((ds', t'), e2, h2) = >>=-eq-ok (send_txn l env conf filter now ts t) _ h1 in
      let (w1, e3, h3) =
        >>=-eq-ok (if conf.schema_tracks_changes then ok w else env.commit t') _ h2 in
      let (last', e4, h4) = >>=-eq-ok (env.last_txn_id w1) _ h3 in
      let same = txn_id-send_txn now ts t t' ds' numbers e2 in
      let own : env.last_txn_id w1 ≡ ok (adjusted l env conf filter last' (env.txn_id t)) =
        elim (Bool-cases conf.schema_tracks_changes) [
          | inl native ↦
              (let id =
                  numbers.begin_view_lem w t last e
                    (if_true (env.begin_view w) (env.begin w) native e1) in
                let w-same : w ≡ w1 = ok_inj (if_true (ok w) (env.commit t') native e3) in
                let last-same : last ≡ last' = ok_inj (sym e ∙ ap env.last_txn_id w-same ∙ e4) in
                e4 ∙ ap ok (ground (arith, id, last-same)))
          | inr shadow ↦
              (let (id, lt) =
                  numbers.begin_lem w t last e
                    (if_false (env.begin_view w) (env.begin w) shadow e1) in
                let o =
                  subst (λ n. (env.last_txn_id w1 ≡ ok n) ⊎ (env.last_txn_id w1 ≡ ok (n - 1))) same
                    (numbers.commit_lem t' w1 (if_false (ok w) (env.commit t') shadow e3)) in
                (own_txn l env conf filter last (env.txn_id t) last' (env.last_txn_id w1) id lt o
                  e4).1)
        ] in
      subst (λ (r : ℕ × List Dbi × env.World). env.last_txn_id r.2 ≡ ok r.0) (ok_inj h4) own

  pub send_snapshot-last_txn_id : NumbersTxns l env → ReportsLast (calls l env conf filter s around)
  unfolding send_snapshot send_once
  send_snapshot-last_txn_id numbers w w' last txn_id e h =
      let (now, ts) = around.times w in
      let ((id, sender, (world, storage)), e1, h1) =
        >>=-eq-ok
          (send_once l env conf filter s around.pack around.fuel now ts w.last_by_instance w.sender
            (w.world, w.storage))
          _ h in
      let ((id', ds, world'), e2, h2) =
        >>=-eq-ok (dump_once l env conf filter now ts w.world) _ e1 in
      let own = dump_once-last_txn_id now ts w.world world' ds last id' numbers e e2 in
      let Reported : ℕ × Sender × (env.World × s.State) → Type 0 =
        λ r. env.last_txn_id r.2.0 ≡ ok r.0 in
      let sent : Reported (id, sender, (world, storage)) =
        elim (branch conf.receive_only (ok (id', w.sender, (world', w.storage))) _ h2) [
          | inl (r, e3) ↦ subst Reported (ok_inj e3) own
          | inr (r, h3) ↦
              (let ((is_snapshot, st1), e3, h4) = >>=-eq-ok (around.pack ds id' w.storage) _ h3 in
                let ((stored, health, st2), e4, h5) =
                  >>=-eq-ok
                    (store_loop s conf.storage_retry_forever
                      (if conf.storage_retry_forever then around.fuel else conf.storage_retry_count)
                      true w.sender.store_health st1)
                    _ h4 in
                elim (branch stored _ (err external) h5) [
                  | inl (t, e5) ↦ subst Reported (ok_inj e5) own
                  | inr (f, e5) ↦ cc
                ])
        ] in
      subst (λ (r : ℕ × Running env s). env.last_txn_id r.1.world ≡ ok r.0) (ok_inj h1) sent

  unforced-is_overdue :
      IsAlone → (w : Running env s) → is_overdue l env conf filter s around w ≡ false
  unfolding is_overdue
  unforced-is_overdue alone w = ground (arith, alone.unforced)

  sleep_poll-last_txn_id :
      IsAlone
      → (w w' : Running env s) → sleep_poll l env conf filter s around w ≡ ok w'
      → env.last_txn_id w'.world ≡ env.last_txn_id w.world
  unfolding sleep_poll
  sleep_poll-last_txn_id alone w w' h =
      let (st, e, h1) = >>=-eq-ok (s.sleep w.storage) _ h in
      ap (λ (x : Running env s). env.last_txn_id x.world) (sym (ok_inj h1))
      ∙ alone.meanwhile_lem (record w { storage = st })

  pub calls-IsUntouched :
      NumbersTxns l env → IsAlone → IsUntouched (calls l env conf filter s around)
  calls-IsUntouched numbers alone = record {
    next_lem =
        λ w. ap env.last_txn_id (world-next_update (around.meanwhile w)) ∙ alone.meanwhile_lem w;
    load_once_lem = λ w w' i u last txn_id changed e h.
        load_and_close-last_txn_id w w' i u last txn_id changed numbers e h;
    is_overdue_lem = unforced-is_overdue alone;
    sleep_lem = sleep_poll-last_txn_id alone;
  }
