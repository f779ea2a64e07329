-- ===== src/Receiver/Downloader/Ownership.antt =====
-- Every token that is held belongs to a download, to a snapshot that is being unpacked, to one that
-- is ready, or to one that the syncer has.
use lightningstream.Base.{
  ℕ, ◌+◌, ◌≡◌, refl, ap, arith, Bool, none, some, List, [], ◌∷◌, inl, inr, Option-cases,
}
use lightningstream.Base.Bytes.{Bytes}
use lightningstream.Base.Maps.{find, assign}
use lightningstream.Base.Result.{Result}
use lightningstream.Climit.{Limit, acquire, release}
use lightningstream.Climit
use lightningstream.Snapshot.Name.{NameInfo}
use lightningstream.Receiver.{receive_names}
use lightningstream.Receiver.Downloader.{
  Phase, waiting, pausing, fetching, fetched, unpacking, Downloader, new_downloader,
  notify_new_snapshot, Update, Pipeline, put, drop_downloader, notify_instance, notify_all,
  run_once, close_overwritten, load_failed, load_done,
}
use lightningstream.Receiver.Downloader.Tokens.{held_sum, total, weight, total-assign, total-remove}

-- What a phase has of download tokens, and of tokens for decompressed snapshots.
abbrev pub downloaded : (ℕ → ℕ) → Phase → ℕ
downloaded f (fetching ni t) = f t
downloaded f (fetched ni t b) = f t
downloaded f (unpacking ni t b u) = f t
downloaded f _ = 0

abbrev pub decompressing : (ℕ → ℕ) → Phase → ℕ
decompressing f (unpacking ni t b u) = f u
decompressing f _ = 0

abbrev pub w_downloaded : (ℕ → ℕ) → Downloader → ℕ
w_downloaded f d = downloaded f d.phase

abbrev pub w_decompressing : (ℕ → ℕ) → Downloader → ℕ
w_decompressing f d = decompressing f d.phase

abbrev pub downloads_sum : (ℕ → ℕ) → List (Bytes × Downloader) → ℕ
downloads_sum f ds = total (w_downloaded f) ds

abbrev pub decompressing_sum : (ℕ → ℕ) → List (Bytes × Downloader) → ℕ
decompressing_sum f ds = total (w_decompressing f) ds

pub assign_sum :
    (w : Downloader → ℕ) (inst : Bytes) (d d' : Downloader) (ds : List (Bytes × Downloader))
    → find inst ds ≡ some d
    → total w (assign inst d' ds) + w d ≡ w d' + total w ds
assign_sum w inst d d' ds e = omega (arith, total-assign w inst d' ds, ap (weight w) e)

module _ {ℓ} {S : Type ℓ} where
  pub load_failed_view :
      (p p' : Pipeline S) (inst : Bytes) (d : Downloader) (ni : NameInfo) (t u : ℕ)
      → load_failed p inst d ni t u ≡ some p'
      → (l : Limit) × (l' : Limit) × (release p.decompressed_snapshot_limit u ≡ some l)
        × (release p.download_snapshot_limit t ≡ some l')
        × (p'.downloaders_by_instance
            ≡ assign inst (record d { last = some ni; phase = pausing }) p.downloaders_by_instance)
        × (p'.decompressed_snapshot_limit ≡ l)
        × (p'.download_snapshot_limit ≡ l')
        × (p'.snapshots_by_instance ≡ p.snapshots_by_instance)
        × (p'.taken ≡ p.taken)
  unfolding load_failed
  load_failed_view p p' inst d ni t u e = ground arith

  pub load_done_view :
      (p p' : Pipeline S) (inst : Bytes) (d : Downloader) (ni : NameInfo) (t u : ℕ) (msg : S)
      → load_done p inst d ni t u msg ≡ some p'
      → (l : Limit) × (l' : Limit) × (l'' : Limit) × (release p.download_snapshot_limit t ≡ some l)
        × (close_overwritten (find inst p.snapshots_by_instance) p.decompressed_snapshot_limit
            ≡ some l')
        × (release l t ≡ some l'')
        × (p'.downloaders_by_instance
            ≡ assign inst (record d { last = some ni; phase = waiting }) p.downloaders_by_instance)
        × (p'.decompressed_snapshot_limit ≡ l')
        × (p'.download_snapshot_limit ≡ l'')
        × (p'.snapshots_by_instance
            ≡ assign inst
                (record { snapshot = msg; name_info = ni; token = u })
                p.snapshots_by_instance)
        × (p'.taken ≡ p.taken)
  unfolding load_done
  load_done_view p p' inst d ni t u msg e = ground arith

  abbrev pub taken_sum : (ℕ → ℕ) → List (Update S) → ℕ
  taken_sum f [] = 0
  taken_sum f (u ∷ us) = f u.token + taken_sum f us

  abbrev pub ready_sum : (ℕ → ℕ) → List (Bytes × Update S) → ℕ
  ready_sum f us = total (λ u. f u.token) us

  -- The tokens that are held are those of the downloads, and those of the snapshots in memory.
  pub record Inv (decompressed downloads : ℕ) (p : Pipeline S) : Type 0 where
    pub download_limit : lightningstream.Climit.Reachable downloads p.download_snapshot_limit
    pub decompressed_limit :
        lightningstream.Climit.Reachable decompressed p.decompressed_snapshot_limit
    pub download_tokens :
        (f : ℕ → ℕ)
        → downloads_sum f p.downloaders_by_instance
          ≡ held_sum f 0 p.download_snapshot_limit.released
    pub decompressed_tokens :
        (f : ℕ → ℕ)
        → decompressing_sum f p.downloaders_by_instance
            + (ready_sum f p.snapshots_by_instance + taken_sum f p.taken)
          ≡ held_sum f 0 p.decompressed_snapshot_limit.released

  -- A step that changes no token.
  pub put_same :
      (n m : ℕ) (p : Pipeline S) (inst : Bytes) (d d' : Downloader)
      → find inst p.downloaders_by_instance ≡ some d
      → ((f : ℕ → ℕ) → downloaded f d'.phase ≡ downloaded f d.phase)
      → ((f : ℕ → ℕ) → decompressing f d'.phase ≡ decompressing f d.phase)
      → Inv n m p
      → Inv n m (put p inst d')
  put_same n m p inst d d' e h h' v = record {
    download_limit = v.download_limit;
    decompressed_limit = v.decompressed_limit;
    download_tokens = λ f. omega (
      arith,
      v.download_tokens f,
      h f,
      assign_sum (w_downloaded f) inst d d' p.downloaders_by_instance e,
    );
    decompressed_tokens = λ f. omega (
      arith,
      v.decompressed_tokens f,
      h' f,
      assign_sum (w_decompressing f) inst d d' p.downloaders_by_instance e,
    );
  }

  pub put_new :
      (n m : ℕ) (p : Pipeline S) (inst : Bytes) (d : Downloader)
      → find inst p.downloaders_by_instance ≡ none
      → d.phase ≡ waiting
      → Inv n m p
      → Inv n m (put p inst d)
  put_new n m p inst d e h v = record {
    download_limit = v.download_limit;
    decompressed_limit = v.decompressed_limit;
    download_tokens = λ f.
        let w = w_downloaded f in
        omega (
          arith,
          v.download_tokens f,
          ap (downloaded f) h,
          total-assign w inst d p.downloaders_by_instance,
          ap (weight w) e,
        );
    decompressed_tokens = λ f.
        let w = w_decompressing f in
        omega (
          arith,
          v.decompressed_tokens f,
          ap (decompressing f) h,
          total-assign w inst d p.downloaders_by_instance,
          ap (weight w) e,
        );
  }

  pub dropped :
      (n m : ℕ) (p : Pipeline S) (inst : Bytes) (d : Downloader)
      → find inst p.downloaders_by_instance ≡ some d
      → ((f : ℕ → ℕ) → downloaded f d.phase ≡ 0)
      → ((f : ℕ → ℕ) → decompressing f d.phase ≡ 0)
      → Inv n m p
      → Inv n m (drop_downloader p inst)
  dropped n m p inst d e h h' v = record {
    download_limit = v.download_limit;
    decompressed_limit = v.decompressed_limit;
    download_tokens = λ f.
        let w = w_downloaded f in
        omega (
          arith,
          v.download_tokens f,
          h f,
          total-remove w inst p.downloaders_by_instance,
          ap (weight w) e,
        );
    decompressed_tokens = λ f.
        let w = w_decompressing f in
        omega (
          arith,
          v.decompressed_tokens f,
          h' f,
          total-remove w inst p.downloaders_by_instance,
          ap (weight w) e,
        );
  }

  notify_instance-Inv :
      (n m : ℕ) (p : Pipeline S) (inst : Bytes) → Inv n m p → Inv n m (notify_instance p inst)
  unfolding notify_instance
  notify_instance-Inv n m p inst v = elim (Option-cases (find inst p.downloaders_by_instance)) [
    | inl e ↦
        rw (e, notify_instance) (put_new n m p inst (notify_new_snapshot new_downloader) e refl v)
    | inr (d, e) ↦
        rw (e, notify_instance)
          (put_same n m p inst d (notify_new_snapshot d) e (λ f. refl) (λ f. refl) v)
  ]

  pub notify_all-Inv :
      (n m : ℕ) (p : Pipeline S) (nis : List NameInfo) → Inv n m p → Inv n m (notify_all p nis)
  unfolding notify_all
  notify_all-Inv n m p [] v = v
  notify_all-Inv n m p (ni ∷ nis) v =
      notify_all-Inv n m (notify_instance p ni.instance_id) nis
        (notify_instance-Inv n m p ni.instance_id v)

  pub run_once-Inv :
      (n m : ℕ) (parse : Bytes → Result NameInfo) (p : Pipeline S) (own : Bool) (names : List Bytes)
      → Inv n m p
      → Inv n m (run_once parse p own names)
  unfolding run_once
  run_once-Inv n m parse p own names v =
      let (r, nis) = receive_names parse p.receiver own names in
      notify_all-Inv n m (record p { receiver = r }) nis
        (record {
          download_limit = v.download_limit;
          decompressed_limit = v.decompressed_limit;
          download_tokens = v.download_tokens;
          decompressed_tokens = v.decompressed_tokens;
        })
