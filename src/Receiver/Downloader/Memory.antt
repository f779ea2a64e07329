-- ===== src/Receiver/Downloader/Memory.antt =====
-- How many snapshots are in memory at a time.
use lightningstream.Base.{
  ℕ, ◌+◌, ◌≤◌, ◌≡◌, refl, sym, ap, ◌∙◌, subst, arith, false, none, some, ◌∷◌, length, ltb,
  if◌then◌else◌, inl, inr, Bool-cases, Option-cases, List-cases, is_empty, ◌↔◌,
}
use lightningstream.Base.Bytes.{Bytes, equal_bytes}
use lightningstream.Base.Maps.{find}
use lightningstream.Base.Result.{Result, Result-cases}
use lightningstream.Climit.{Limit, acquire, release, new_limit}
use lightningstream.Climit
use lightningstream.Climit.Invariant.{held, held-le-limit}
use lightningstream.Snapshot.Name.{NameInfo}
use lightningstream.Receiver.{Receiver, notified_name}
use lightningstream.Receiver.Downloader.{
  Phase, waiting, checking, pausing, requesting, fetching, fetched, unpacking, Downloader, Update,
  Pipeline, Outcome, remove, put, drop_downloader, next, close, load_failed, load_done, advance,
  Step, lists, advances, takes, closes, Reachable, begin, step,
}
use lightningstream.Receiver.Downloader.Tokens.{held_sum_one, release_sum, weight, total-remove}
use lightningstream.Receiver.Downloader.Ownership.{
  downloaded, decompressing, downloads_sum, decompressing_sum, ready_sum, taken_sum, Inv, put_same,
  dropped, run_once-Inv,
}
use lightningstream.Receiver.Downloader.Advancing.{
  released_limit, request_token, decompress_token, fetch_failed, unpack_failed, unpack_done,
}

abbrev pub at_least_one : ℕ → ℕ
at_least_one limit = if ltb limit 1 then 1 else limit

module _ {ℓ} {S : Type ℓ} where
  quiet :
      (n m : ℕ) (p : Pipeline S) (inst : Bytes) (d d' : Downloader) (ph ph' : Phase)
      → find inst p.downloaders_by_instance ≡ some d
      → d.phase ≡ ph
      → d'.phase ≡ ph'
      → ((f : ℕ → ℕ) → downloaded f ph' ≡ downloaded f ph)
      → ((f : ℕ → ℕ) → decompressing f ph' ≡ decompressing f ph)
      → Inv n m p
      → Inv n m (put p inst d')
  quiet n m p inst d d' ph ph' e h h' k k' v =
      put_same n m p inst d d' e (λ f. ap (downloaded f) h' ∙ k f ∙ sym (ap (downloaded f) h))
        (λ f. ap (decompressing f) h' ∙ k' f ∙ sym (ap (decompressing f) h)) v

  same_limits :
      (n m : ℕ) (p p' : Pipeline S)
      → p'.downloaders_by_instance ≡ p.downloaders_by_instance
      → p'.snapshots_by_instance ≡ p.snapshots_by_instance
      → p'.taken ≡ p.taken
      → p'.download_snapshot_limit ≡ p.download_snapshot_limit
      → p'.decompressed_snapshot_limit ≡ p.decompressed_snapshot_limit
      → Inv n m p
      → Inv n m p'
  same_limits n m p p' eds ers etk edl edc v = record {
    download_limit = rw (edl) v.download_limit;
    decompressed_limit = rw (edc) v.decompressed_limit;
    download_tokens = λ f. rw (eds, edl) (v.download_tokens f);
    decompressed_tokens = λ f. rw (eds, ers, etk, edc) (v.decompressed_tokens f);
  }

  some_of : {a b : Pipeline S} → some a ≡ some b → a ≡ b
  some_of e = cc

  advance-Inv :
      (n m : ℕ) (load_data : Bytes → Result S) (p p' : Pipeline S) (inst : Bytes) (d : Downloader)
      (ph : Phase) (o : Outcome)
      → find inst p.downloaders_by_instance ≡ some d
      → d.phase ≡ ph
      → advance load_data p inst d ph o ≡ some p'
      → Inv n m p
      → Inv n m p'
  unfolding advance
  advance-Inv n m load_data p p' inst d waiting o e h r v = elim (Bool-cases o.canceled) [
    | inl t ↦
        let done : drop_downloader p inst ≡ p' = ground arith in
        subst (Inv n m) done
          (dropped n m p inst d e (λ f. ap (downloaded f) h) (λ f. ap (decompressing f) h) v)
    | inr c ↦
        let done : put p inst (record d { signal = false; phase = checking }) ≡ p' = ground arith in
        subst (Inv n m) done
          (quiet n m p inst d _ waiting checking e h refl (λ f. refl) (λ f. refl) v)
  ]
  advance-Inv n m load_data p p' inst d pausing o e h r v = elim (Bool-cases o.canceled) [
    | inl t ↦
        let done : drop_downloader p inst ≡ p' = ground arith in
        subst (Inv n m) done
          (dropped n m p inst d e (λ f. ap (downloaded f) h) (λ f. ap (decompressing f) h) v)
    | inr c ↦
        let done : put p inst (record d { phase = checking }) ≡ p' = ground arith in
        subst (Inv n m) done
          (quiet n m p inst d _ pausing checking e h refl (λ f. refl) (λ f. refl) v)
  ]
  advance-Inv n m load_data p p' inst d checking o e h r v =
      elim (Option-cases (find inst p.receiver.last_seen_by_instance)) [
        | inl g ↦
            let done : put p inst (record d { phase = waiting }) ≡ p' = ground (arith, g) in
            subst (Inv n m) done
              (quiet n m p inst d _ checking waiting e h refl (λ f. refl) (λ f. refl) v)
        | inr (ni, g) ↦ elim (Bool-cases (equal_bytes ni.full_name (notified_name d.last))) [
          | inl t ↦
              let done : put p inst (record d { phase = waiting }) ≡ p' = ground (arith, g, t) in
              subst (Inv n m) done
                (quiet n m p inst d _ checking waiting e h refl (λ f. refl) (λ f. refl) v)
          | inr c ↦
              let done : put p inst (record d { phase = requesting ni }) ≡ p' =
                ground (arith, g, c) in
              subst (Inv n m) done
                (quiet n m p inst d _ checking (requesting ni) e h refl (λ f. refl) (λ f. refl) v)
        ]
      ]
  advance-Inv n m load_data p p' inst d (requesting ni) o e h r v =
      elim (Option-cases (acquire p.download_snapshot_limit)) [
        | inl a ↦ absurd (ground (arith, a))
        | inr (l, a) ↦
            let done : put (record p { download_snapshot_limit = l }) inst
                  (record d { phase = fetching ni (length p.download_snapshot_limit.released) })
                ≡ p' =
              ground (arith, a) in
            subst (Inv n m) done (request_token n m p inst d ni l e h a v)
      ]
  advance-Inv n m load_data p p' inst d (fetching ni t) o e h r v = elim (Result-cases o.loaded) [
    | inl (b, g) ↦
        let ht = o.load_health in
        let q = record p { storage_load_health = ht } in
        let done : put q inst (record d { phase = fetched ni t b }) ≡ p' = ground (arith, g) in
        subst (Inv n m) done (
          quiet n m q inst d _ (fetching ni t) (fetched ni t b) e h refl (λ f. refl) (λ f. refl)
            (same_limits n m p q refl refl refl refl refl v))
    | inr (x, g) ↦ elim (Option-cases (release p.download_snapshot_limit t)) [
      | inl a ↦ absurd (ground (arith, g, a))
      | inr (l, a) ↦
          let ht = o.load_health in
          let done : put (record p { storage_load_health = ht; download_snapshot_limit = l }) inst
                (record d { phase = pausing })
              ≡ p' =
            ground (arith, g, a) in
          subst (Inv n m) done (fetch_failed n m p inst d ni t ht l e h a v)
    ]
  ]
  advance-Inv n m load_data p p' inst d (fetched ni t b) o e h r v =
      elim (Option-cases (acquire p.decompressed_snapshot_limit)) [
        | inl a ↦ absurd (ground (arith, a))
        | inr (l, a) ↦
            let done : put (record p { decompressed_snapshot_limit = l }) inst
                  (record d {
                    phase = unpacking ni t b (length p.decompressed_snapshot_limit.released);
                  })
                ≡ p' =
              ground (arith, a) in
            subst (Inv n m) done (decompress_token n m p inst d ni t b l e h a v)
      ]
  advance-Inv n m load_data p p' inst d (unpacking ni t b u) o e h r v =
      elim (Result-cases (load_data b)) [
        | inl (msg, g) ↦
            let done : load_done p inst d ni t u msg ≡ some p' = ground (arith, g) in
            unpack_done n m p p' inst d ni t b u msg e h done v
        | inr (x, g) ↦
            let done : load_failed p inst d ni t u ≡ some p' = ground (arith, g) in
            unpack_failed n m p p' inst d ni t b u e h done v
      ]

  next-Inv :
      (n m : ℕ) (p p' : Pipeline S) (inst : Bytes) → next p inst ≡ some p' → Inv n m p → Inv n m p'
  unfolding next
  next-Inv n m p p' inst r v = elim (Bool-cases (is_empty inst)) [
    | inl t ↦ absurd (ground (arith, t))
    | inr c ↦ elim (Option-cases (find inst p.snapshots_by_instance)) [
      | inl g ↦ absurd (ground (arith, c, g))
      | inr (u, g) ↦
          let us' = remove inst p.snapshots_by_instance in
          let done : record p { snapshots_by_instance = us'; taken = u ∷ p.taken } ≡ p' =
            ground (arith, c, g) in
          subst (Inv n m) done (record {
            download_limit = v.download_limit;
            decompressed_limit = v.decompressed_limit;
            download_tokens = v.download_tokens;
            decompressed_tokens = λ f.
                let w : Update S → ℕ = λ x. f x.token in
                omega (
                  arith,
                  v.decompressed_tokens f,
                  total-remove w inst p.snapshots_by_instance,
                  ap (weight w) g,
                );
          })
    ]
  ]

  close-Inv : (n m : ℕ) (p p' : Pipeline S) → close p ≡ some p' → Inv n m p → Inv n m p'
  unfolding close
  close-Inv n m p p' r v = elim (List-cases p.taken) [
    | inl g ↦ absurd (ground (arith, g))
    | inr (u, us, g) ↦ elim (Option-cases (release p.decompressed_snapshot_limit u.token)) [
      | inl a ↦ absurd (ground (arith, g, a))
      | inr (l, a) ↦
          let done : record p { taken = us; decompressed_snapshot_limit = l } ≡ p' =
            ground (arith, g, a) in
          let others = λ (f : ℕ → ℕ).
            decompressing_sum f p.downloaders_by_instance
            + (ready_sum f p.snapshots_by_instance + taken_sum f us) in
          subst (Inv n m) done (record {
            download_limit = v.download_limit;
            decompressed_limit =
                released_limit n p.decompressed_snapshot_limit l u.token v.decompressed_limit a;
            download_tokens = v.download_tokens;
            decompressed_tokens =
                release_sum p.decompressed_snapshot_limit l u.token others
                  (λ f. omega (arith, v.decompressed_tokens f, ap (taken_sum f) g)) a;
          })
    ]
  ]

  Step-Inv :
      (n m : ℕ) (parse : Bytes → Result NameInfo) (load_data : Bytes → Result S) (p p' : Pipeline S)
      → Step parse load_data p p'
      → Inv n m p
      → Inv n m p'
  Step-Inv n m parse load_data p _ (lists _ own names) v = run_once-Inv n m parse p own names v
  Step-Inv n m parse load_data p p' (advances _ _ inst d o e r) v =
      advance-Inv n m load_data p p' inst d d.phase o e refl r v
  Step-Inv n m parse load_data p p' (takes _ _ inst r) v = next-Inv n m p p' inst r v
  Step-Inv n m parse load_data p p' (closes _ _ r) v = close-Inv n m p p' r v

  pub Reachable-Inv :
      (parse : Bytes → Result NameInfo) (load_data : Bytes → Result S) (r : Receiver) (n m : ℕ)
      (p : Pipeline S)
      → Reachable parse load_data r n m p
      → Inv n m p
  unfolding new_limit
  Reachable-Inv parse load_data r n m _ begin = record {
    download_limit = Climit.start;
    decompressed_limit = Climit.start;
    download_tokens = λ f. refl;
    decompressed_tokens = λ f. omega arith;
  }
  Reachable-Inv parse load_data r n m _ (step p p' reach s) =
      Step-Inv n m parse load_data p p' s (Reachable-Inv parse load_data r n m p reach)

  -- The decompressed snapshots in memory: those that are being unpacked, those that are ready, and
  -- those that the syncer has.
  abbrev pub in_memory : Pipeline S → ℕ
  in_memory p =
      decompressing_sum (λ t. 1) p.downloaders_by_instance
      + (ready_sum (λ t. 1) p.snapshots_by_instance + taken_sum (λ t. 1) p.taken)

  -- The downloaders that have or are getting a compressed snapshot.
  abbrev pub downloading : Pipeline S → ℕ
  downloading p = downloads_sum (λ t. 1) p.downloaders_by_instance

  -- After any steps of the receiver, the downloaders and the syncer, in any order, there are at most
  -- memory_decompressed_snapshots decompressed snapshots in memory (being unpacked, ready, or with
  -- the syncer) and at most memory_downloaded_snapshots downloads (at least 1 each). No token is
  -- lost: a downloader waits for one exactly if as many are in memory, or being downloaded.
  pub in_memory-le-limit :
      (parse : Bytes → Result NameInfo) (load_data : Bytes → Result S) (r : Receiver)
      (decompressed downloads : ℕ) (p : Pipeline S)
      → Reachable parse load_data r decompressed downloads p
      → (in_memory p ≤ at_least_one decompressed)
        × ((acquire p.decompressed_snapshot_limit ≡ none)
            ↔ (in_memory p ≡ at_least_one decompressed))
        × (downloading p ≤ at_least_one downloads)
        × ((acquire p.download_snapshot_limit ≡ none) ↔ (downloading p ≡ at_least_one downloads))
  in_memory-le-limit parse load_data r decompressed downloads p reach =
      let v = Reachable-Inv parse load_data r decompressed downloads p reach in
      let (le, full) =
        held-le-limit decompressed p.decompressed_snapshot_limit v.decompressed_limit in
      let (le', full') = held-le-limit downloads p.download_snapshot_limit v.download_limit in
      let count : in_memory p ≡ held p.decompressed_snapshot_limit.released =
        v.decompressed_tokens (λ t. 1) ∙ held_sum_one 0 p.decompressed_snapshot_limit.released in
      let count' : downloading p ≡ held p.download_snapshot_limit.released =
        v.download_tokens (λ t. 1) ∙ held_sum_one 0 p.download_snapshot_limit.released in
      rw (count, count') (le, full, le', full')
