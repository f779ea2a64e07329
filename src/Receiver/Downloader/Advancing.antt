-- ===== src/Receiver/Downloader/Advancing.antt =====
-- Every step of a downloader keeps the tokens in order.
use lightningstream.Base.{ℕ, ◌+◌, ◌≡◌, ap, subst, arith, Option, none, some, length}
use lightningstream.Base.Bytes.{Bytes}
use lightningstream.Base.Maps.{find, assign}
use lightningstream.Climit.{Limit, acquire, release}
use lightningstream.Climit
use lightningstream.Health.{HealthTracker}
use lightningstream.Snapshot.Name.{NameInfo}
use lightningstream.Receiver.Downloader.{
  waiting, pausing, requesting, fetching, fetched, unpacking, Downloader, Update, Pipeline, put,
  close_overwritten, load_failed, load_done,
}
use lightningstream.Receiver.Downloader.Tokens.{
  held_sum, acquire_sum, release_sum, weight, total-assign,
}
use lightningstream.Climit.Invariant.{release_twice}
use lightningstream.Receiver.Downloader.Ownership.{
  downloaded, decompressing, w_downloaded, w_decompressing, downloads_sum, decompressing_sum,
  ready_sum, taken_sum, Inv, assign_sum, load_failed_view, load_done_view,
}

pub released_limit :
    (n : ℕ) (l l' : Limit) (i : ℕ)
    → Climit.Reachable n l
    → release l i ≡ some l'
    → Climit.Reachable n l'
released_limit n l l' i r e = Climit.step l l' r (Climit.released l l' i e)

acquired_limit :
    (n : ℕ) (l l' : Limit) → Climit.Reachable n l → acquire l ≡ some l' → Climit.Reachable n l'
acquired_limit n l l' r e = Climit.step l l' r (Climit.acquired l l' e)

-- A second release of the same token changes nothing.
released_again :
    (n : ℕ) (l l' l'' : Limit) (i : ℕ)
    → Climit.Reachable n l
    → release l i ≡ some l'
    → release l' i ≡ some l''
    → l'' ≡ l'
released_again n l l' l'' i r e e' =
    let (k, (once, (count, twice))) = release_twice n l i r in
    let same : k ≡ l' = cc in
    let again : release l' i ≡ some l' = subst (λ x. release x i ≡ some x) same twice in cc

module _ {ℓ} {S : Type ℓ} where
  pub request_token :
      (n m : ℕ) (p : Pipeline S) (inst : Bytes) (d : Downloader) (ni : NameInfo) (l : Limit)
      → find inst p.downloaders_by_instance ≡ some d
      → d.phase ≡ requesting ni
      → acquire p.download_snapshot_limit ≡ some l
      → Inv n m p
      → Inv n m (
          put
            (record p { download_snapshot_limit = l })
            inst
            (record d { phase = fetching ni (length p.download_snapshot_limit.released) }))
  request_token n m p inst d ni l e h a v =
      let d' = record d { phase = fetching ni (length p.download_snapshot_limit.released) } in
      record {
        download_limit = acquired_limit m p.download_snapshot_limit l v.download_limit a;
        decompressed_limit = v.decompressed_limit;
        download_tokens = λ f. omega (
          arith,
          v.download_tokens f,
          acquire_sum p.download_snapshot_limit l f a,
          ap (downloaded f) h,
          assign_sum (w_downloaded f) inst d d' p.downloaders_by_instance e,
        );
        decompressed_tokens = λ f. omega (
          arith,
          v.decompressed_tokens f,
          ap (decompressing f) h,
          assign_sum (w_decompressing f) inst d d' p.downloaders_by_instance e,
        );
      }

  pub decompress_token :
      (n m : ℕ) (p : Pipeline S) (inst : Bytes) (d : Downloader) (ni : NameInfo) (t : ℕ) (b : Bytes)
      (l : Limit)
      → find inst p.downloaders_by_instance ≡ some d
      → d.phase ≡ fetched ni t b
      → acquire p.decompressed_snapshot_limit ≡ some l
      → Inv n m p
      → Inv n m (
          put
            (record p { decompressed_snapshot_limit = l })
            inst
            (record d { phase = unpacking ni t b (length p.decompressed_snapshot_limit.released) }))
  decompress_token n m p inst d ni t b l e h a v =
      let d' = record d {
        phase = unpacking ni t b (length p.decompressed_snapshot_limit.released);
      } in
      record {
        download_limit = v.download_limit;
        decompressed_limit =
            acquired_limit n p.decompressed_snapshot_limit l v.decompressed_limit a;
        download_tokens = λ f. omega (
          arith,
          v.download_tokens f,
          ap (downloaded f) h,
          assign_sum (w_downloaded f) inst d d' p.downloaders_by_instance e,
        );
        decompressed_tokens = λ f. omega (
          arith,
          v.decompressed_tokens f,
          acquire_sum p.decompressed_snapshot_limit l f a,
          ap (decompressing f) h,
          assign_sum (w_decompressing f) inst d d' p.downloaders_by_instance e,
        );
      }

  pub fetch_failed :
      (n m : ℕ) (p : Pipeline S) (inst : Bytes) (d : Downloader) (ni : NameInfo) (t : ℕ)
      (ht : HealthTracker) (l : Limit)
      → find inst p.downloaders_by_instance ≡ some d
      → d.phase ≡ fetching ni t
      → release p.download_snapshot_limit t ≡ some l
      → Inv n m p
      → Inv n m (
          put
            (record p { storage_load_health = ht; download_snapshot_limit = l })
            inst
            (record d { phase = pausing }))
  fetch_failed n m p inst d ni t ht l e h r v =
      let d' = record d { phase = pausing } in
      let ds' = assign inst d' p.downloaders_by_instance in
      record {
        download_limit = released_limit m p.download_snapshot_limit l t v.download_limit r;
        decompressed_limit = v.decompressed_limit;
        download_tokens =
            release_sum p.download_snapshot_limit l t (λ f. downloads_sum f ds')
              (λ f. omega (
                arith,
                v.download_tokens f,
                ap (downloaded f) h,
                assign_sum (w_downloaded f) inst d d' p.downloaders_by_instance e,
              ))
              r;
        decompressed_tokens = λ f. omega (
          arith,
          v.decompressed_tokens f,
          ap (decompressing f) h,
          assign_sum (w_decompressing f) inst d d' p.downloaders_by_instance e,
        );
      }

  pub unpack_failed :
      (n m : ℕ) (p p' : Pipeline S) (inst : Bytes) (d : Downloader) (ni : NameInfo) (t : ℕ)
      (b : Bytes) (u : ℕ)
      → find inst p.downloaders_by_instance ≡ some d
      → d.phase ≡ unpacking ni t b u
      → load_failed p inst d ni t u ≡ some p'
      → Inv n m p
      → Inv n m p'
  unpack_failed n m p p' inst d ni t b u e h r v =
      let (l, l', r1, r2, eds, edc, edl, ers, etk) = load_failed_view p p' inst d ni t u r in
      let d' = record d { last = some ni; phase = pausing } in
      let ds' = assign inst d' p.downloaders_by_instance in
      record {
        download_limit =
            rw (edl) (released_limit m p.download_snapshot_limit l' t v.download_limit r2);
        decompressed_limit =
            rw (edc) (released_limit n p.decompressed_snapshot_limit l u v.decompressed_limit r1);
        download_tokens = λ f.
            rw (eds, edl)
              (release_sum p.download_snapshot_limit l' t (λ g. downloads_sum g ds')
                (λ g. omega (
                  arith,
                  v.download_tokens g,
                  ap (downloaded g) h,
                  assign_sum (w_downloaded g) inst d d' p.downloaders_by_instance e,
                ))
                r2 f);
        decompressed_tokens = λ f.
            rw (eds, edc, ers, etk)
              (release_sum p.decompressed_snapshot_limit l u
                (λ g.
                  decompressing_sum g ds'
                  + (ready_sum g p.snapshots_by_instance + taken_sum g p.taken))
                (λ g. omega (
                  arith,
                  v.decompressed_tokens g,
                  ap (decompressing g) h,
                  assign_sum (w_decompressing g) inst d d' p.downloaders_by_instance e,
                ))
                r1 f);
      }

  -- The token of an update that is overwritten is given back.
  overwritten_sum :
      (l l' : Limit) (inst : Bytes) (o : Option (Update S)) (others : (ℕ → ℕ) → ℕ)
      → ((f : ℕ → ℕ) → weight (λ x. f x.token) o + others f ≡ held_sum f 0 l.released)
      → close_overwritten o l ≡ some l'
      → (f : ℕ → ℕ) → others f ≡ held_sum f 0 l'.released
  unfolding close_overwritten
  overwritten_sum l l' inst none others h r f =
      let same : l ≡ l' = cc in omega (arith, h f, ap (λ x. held_sum f 0 x.released) same)
  overwritten_sum l l' inst (some u) others h r f = release_sum l l' u.token others h r f

  overwritten_limit :
      (n : ℕ) (l l' : Limit) (o : Option (Update S))
      → Climit.Reachable n l
      → close_overwritten o l ≡ some l'
      → Climit.Reachable n l'
  unfolding close_overwritten
  overwritten_limit n l l' none v r =
      let same : l ≡ l' = cc in subst (λ x. Climit.Reachable n x) same v
  overwritten_limit n l l' (some u) v r = released_limit n l l' u.token v r

  pub unpack_done :
      (n m : ℕ) (p p' : Pipeline S) (inst : Bytes) (d : Downloader) (ni : NameInfo) (t : ℕ)
      (b : Bytes) (u : ℕ) (msg : S)
      → find inst p.downloaders_by_instance ≡ some d
      → d.phase ≡ unpacking ni t b u
      → load_done p inst d ni t u msg ≡ some p'
      → Inv n m p
      → Inv n m p'
  unpack_done n m p p' inst d ni t b u msg e h r v =
      let (l, l', l'', r1, r2, r3, eds, edc, edl, ers, etk) =
        load_done_view p p' inst d ni t u msg r in
      let again : l'' ≡ l =
        released_again m p.download_snapshot_limit l l'' t v.download_limit r1 r3 in
      let d' = record d { last = some ni; phase = waiting } in
      let ds' = assign inst d' p.downloaders_by_instance in
      let new : Update S = record { snapshot = msg; name_info = ni; token = u } in
      let us' = assign inst new p.snapshots_by_instance in
      record {
        download_limit =
            rw (edl, again) (released_limit m p.download_snapshot_limit l t v.download_limit r1);
        decompressed_limit = rw (edc) (
            overwritten_limit n p.decompressed_snapshot_limit l' (find inst p.snapshots_by_instance)
              v.decompressed_limit r2);
        download_tokens = λ f.
            rw (eds, edl, again)
              (release_sum p.download_snapshot_limit l t (λ g. downloads_sum g ds')
                (λ g. omega (
                  arith,
                  v.download_tokens g,
                  ap (downloaded g) h,
                  assign_sum (w_downloaded g) inst d d' p.downloaders_by_instance e,
                ))
                r1 f);
        decompressed_tokens = λ f.
            rw (eds, edc, ers, etk)
              (overwritten_sum p.decompressed_snapshot_limit l' inst
                (find inst p.snapshots_by_instance)
                (λ g. decompressing_sum g ds' + (ready_sum g us' + taken_sum g p.taken))
                (λ g. omega (
                  arith,
                  v.decompressed_tokens g,
                  ap (decompressing g) h,
                  assign_sum (w_decompressing g) inst d d' p.downloaders_by_instance e,
                  total-assign (λ x. g x.token) inst new p.snapshots_by_instance,
                ))
                r2 f);
      }
