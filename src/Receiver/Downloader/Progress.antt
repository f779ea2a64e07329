-- ===== src/Receiver/Downloader/Progress.antt =====
-- A downloader with a token does not wait for another one to give it back, nor does the syncer.
use lightningstream.Base.{ℕ, ◌≡◌, ◌≢◌, refl, arith, Option, none, some, List, ◌∷◌, inl, inr}
use lightningstream.Base.Bytes.{Bytes}
use lightningstream.Base.Maps.{find}
use lightningstream.Base.Result.{Result, Result-cases}
use lightningstream.Climit.{Limit, release}
use lightningstream.Climit
use lightningstream.Climit.Invariant.{release_twice}
use lightningstream.Snapshot.Name.{NameInfo}
use lightningstream.Receiver.{Receiver}
use lightningstream.Receiver.Downloader.{
  unpacking, Downloader, Update, Pipeline, Outcome, close, close_overwritten, load_failed,
  load_done, advance, Reachable,
}
use lightningstream.Receiver.Downloader.Ownership.{Inv}
use lightningstream.Receiver.Downloader.Advancing.{released_limit}
use lightningstream.Receiver.Downloader.Memory.{Reachable-Inv}

releases :
    (n : ℕ) (l : Limit) (i : ℕ) → Climit.Reachable n l → (l' : Limit) × (release l i ≡ some l')
releases n l i r = let (l', (e, more)) = release_twice n l i r in (l', e)

module _ {ℓ} {S : Type ℓ} where
  closes_overwritten :
      (n : ℕ) (l : Limit) (o : Option (Update S))
      → Climit.Reachable n l
      → (l' : Limit) × (close_overwritten o l ≡ some l')
  unfolding close_overwritten
  closes_overwritten n l none r = (l, refl)
  closes_overwritten n l (some u) r = releases n l u.token r

  load_failed_ends :
      (n m : ℕ) (p : Pipeline S) (inst : Bytes) (d : Downloader) (ni : NameInfo) (t u : ℕ)
      → Inv n m p
      → load_failed p inst d ni t u ≢ none
  unfolding load_failed
  load_failed_ends n m p inst d ni t u v h =
      let (l, e) = releases n p.decompressed_snapshot_limit u v.decompressed_limit in
      let (l', e') = releases m p.download_snapshot_limit t v.download_limit in
      absurd (ground (arith, e, e', h))

  load_done_ends :
      (n m : ℕ) (p : Pipeline S) (inst : Bytes) (d : Downloader) (ni : NameInfo) (t u : ℕ) (msg : S)
      → Inv n m p
      → load_done p inst d ni t u msg ≢ none
  unfolding load_done
  load_done_ends n m p inst d ni t u msg v h =
      let (l, e) = releases m p.download_snapshot_limit t v.download_limit in
      let (l', e') =
        closes_overwritten n p.decompressed_snapshot_limit (find inst p.snapshots_by_instance)
          v.decompressed_limit in
      let (l'', e'') =
        releases m l t (released_limit m p.download_snapshot_limit l t v.download_limit e) in
      absurd (ground (arith, e, e', e'', h))

  -- After any steps, a downloader in LoadData goes on whatever LoadData returns, and Close of an
  -- update that the syncer has returns: neither waits for room in the limits.
  pub unpacking_advances :
      (parse : Bytes → Result NameInfo) (load_data : Bytes → Result S) (r : Receiver)
      (decompressed downloads : ℕ) (p : Pipeline S) (inst : Bytes) (d : Downloader) (o : Outcome)
      (ni : NameInfo) (t : ℕ) (b : Bytes) (u : ℕ) (taken : Update S) (others : List (Update S))
      → Reachable parse load_data r decompressed downloads p
      → (advance load_data p inst d (unpacking ni t b u) o ≢ none)
        × (close (record p { taken = taken ∷ others }) ≢ none)
  unfolding advance close
  unpacking_advances parse load_data r n m p inst d o ni t b u taken others reach =
      let v = Reachable-Inv parse load_data r n m p reach in
      let (l, e) = releases n p.decompressed_snapshot_limit taken.token v.decompressed_limit in
      (
        λ h. elim (Result-cases (load_data b)) [
          | inl (msg, g) ↦ load_done_ends n m p inst d ni t u msg v (ground (arith, g, h))
          | inr (x, g) ↦ load_failed_ends n m p inst d ni t u v (ground (arith, g, h))
        ],
        λ h. absurd (ground (arith, e, h)),
      )
