-- ===== src/Sweeper/Sweeps.antt =====
-- The transactions of a sweep together.
use lightningstream.Base.{
  ℕ, zero, suc, ◌+◌, ◌≤◌, ◌<◌, ◌≡◌, refl, ap, ◌∙◌, inl, inr, arith, Bool, true, false, Option, none,
  some, List, [], ◌∷◌, ◌++◌, length, All, Bool-cases,
}
use lightningstream.Base.Maps.{filter}
use lightningstream.Base.Result.{Result, ok}
use lightningstream.Lmdb.{Lmdb, IsOrderedMap}
use lightningstream.Lmdb.Entries.{Entry}
use lightningstream.Sweeper.{
  SweepStats, no_stats, limit_reached, sweep_slice, unless_failed, after_slice, sweep_dbi,
}
use lightningstream.Sweeper.Slices.{Parses, is_kept, At, entries-At, scan_next_lem}
use lightningstream.Sweeper.Removal.{Swept, Swept-trans, entry_step}

module _ (l : Lmdb) (laws : IsOrderedMap l) (cutoff : ℕ) where
  -- What a transaction leaves: at its limit it has scanned at least one record more than `ahead`
  -- says, and otherwise all of them.
  pub record Reaches (ahead : ℕ) (front rest : List Entry) (st : SweepStats) (st' : SweepStats)
      (d' : l.Dbi) (last' : Option Entry) (limited : Bool) : Type 0 where
    pub front' : List Entry
    pub rest' : List Entry
    pub at : At l laws d' front' rest' last'
    pub swept : Swept l laws cutoff front rest st front' rest' st'
    pub parses : All Parses rest'
    pub done : limited ≡ false → rest' ≡ []
    pub less : limited ≡ true → length rest' + 1 ≤ length rest + ahead

  abbrev ReachesResult :
      (ahead : ℕ) (front rest : List Entry) (st : SweepStats)
      → SweepStats × Result (l.Dbi × Option Entry × Bool)
      → Type 0
  ReachesResult ahead front rest st r =
      (st' : SweepStats) × (d' : l.Dbi) × (last' : Option Entry) × (limited : Bool) × (r
        ≡ (st', ok (d', last', limited)))
      × Reaches ahead front rest st st' d' last' limited

  Swept-refl :
      (front rest : List Entry) (st : SweepStats) → Swept l laws cutoff front rest st front rest st
  Swept-refl front rest st = record { left = refl; entries = refl; total = refl }

  limit_not_at_start :
      (late : ℕ → Bool) (count : ℕ) → limit_reached l 0 late count ≡ true → 1 ≤ count
  unfolding limit_reached
  limit_not_at_start late count h = ground arith

  Reaches-stopped :
      (late : ℕ → Bool) (count : ℕ) (last : Option Entry) (d : l.Dbi) (front rest : List Entry)
      (st : SweepStats)
      → limit_reached l 0 late count ≡ true
      → All Parses rest
      → At l laws d front rest last
      → Reaches count front rest st st d last true
  Reaches-stopped late count last d front rest st t ps at = record {
    front' = front;
    rest' = rest;
    at = at;
    swept = Swept-refl front rest st;
    parses = ps;
    done = λ x. cc;
    less = λ x. omega (arith, limit_not_at_start late count t);
  }

  sweep_slice_lem :
      (late : ℕ → Bool) (n count : ℕ) (last : Option Entry) (d : l.Dbi) (front rest : List Entry)
      (st : SweepStats)
      → length rest < n
      → All Parses rest
      → At l laws d front rest last
      → ReachesResult count front rest st (sweep_slice l cutoff late n count last d st)
  unfolding sweep_slice
  sweep_slice_lem late zero count last d front rest st lt ps at = absurd (omega arith)
  sweep_slice_lem late (suc n) count last d front [] st lt ps at =
      elim (Bool-cases (limit_reached l 0 late count)) [
        | inl t ↦ (
          st,
          d,
          last,
          true,
          rw (t, sweep_slice) refl,
          Reaches-stopped late count last d front [] st t ps at,
        )
        | inr f ↦ (
          st,
          d,
          last,
          false,
          rw (f, scan_next_lem l laws d front [] count last at, sweep_slice) refl,
          record {
            front' = front;
            rest' = [];
            at = at;
            swept = Swept-refl front [] st;
            parses = tt;
            done = λ x. refl;
            less = λ x. cc;
          },
        )
      ]
  sweep_slice_lem late (suc n) count last d front ((k, v) ∷ rest) st lt (p, ps) at =
      elim (Bool-cases (limit_reached l 0 late count)) [
        | inl t ↦ (
          st,
          d,
          last,
          true,
          rw (t, sweep_slice) refl,
          Reaches-stopped late count last d front ((k, v) ∷ rest) st t (p, ps) at,
        )
        | inr f ↦
            (let (st1, d1, front1, e1, (at1, sw1)) =
                entry_step l laws cutoff d front k v rest last st p at in
              let (st2, d2, last2, limited, e2, r2) =
                sweep_slice_lem late n (count + 1) (some (k, v)) d1 front1 rest st1 (omega arith) ps
                  at1 in
              (
                st2,
                d2,
                last2,
                limited,
                rw (f, scan_next_lem l laws d front ((k, v) ∷ rest) count last at, sweep_slice)
                    (ap (unless_failed l (sweep_slice l cutoff late n (count + 1) (some (k, v)))) e1
                      ∙ e2),
                record {
                  front' = r2.front';
                  rest' = r2.rest';
                  at = r2.at;
                  swept = Swept-trans l laws cutoff sw1 r2.swept;
                  parses = r2.parses;
                  done = r2.done;
                  less = λ x. omega (arith, r2.less x);
                },
              ))
      ]

  finished :
      (front rest : List Entry) (st st1 : SweepStats) (front' rest' : List Entry)
      → rest' ≡ []
      → Swept l laws cutoff front rest (record st { n_txn = st.n_txn + 1 }) front' rest' st1
      → (front' ++ rest' ≡ front ++ filter (is_kept cutoff) rest)
        × (st1.n_entries ≡ st.n_entries + length (filter (is_kept cutoff) rest))
        × (st1.n_entries + st1.n_cleaned ≡ st.n_entries + st.n_cleaned + length rest)
  unfolding filter
  finished front rest st st1 front' [] e s =
      (s.left, omega (arith, s.entries), omega (arith, s.total))
  finished front rest st st1 front' (x ∷ xs) e s = cc

  sweep_rest :
      (late : ℕ → ℕ → Bool) (records n : ℕ) (limited : Bool) (last : Option Entry) (d : l.Dbi)
      (front rest : List Entry) (st : SweepStats)
      → length rest < records
      → length rest < n
      → All Parses rest
      → At l laws d front rest last
      → (d' : l.Dbi) × (st' : SweepStats) × (sweep_dbi l cutoff late
            (λ i. false)
            records
            n
            limited
            last
            d
            st
          ≡ ok (d', st'))
        × (l.entries d' ≡ front ++ filter (is_kept cutoff) rest)
        × (st'.n_entries ≡ st.n_entries + length (filter (is_kept cutoff) rest))
        × (st'.n_entries + st'.n_cleaned ≡ st.n_entries + st.n_cleaned + length rest)
  unfolding sweep_dbi
  sweep_rest late records zero limited last d front rest st lt lt' ps at = absurd (omega arith)
  sweep_rest late records (suc n) limited last d front rest st lt lt' ps at =
      let (st1, d1, last1, limited1, e, r) =
        sweep_slice_lem (late n) records 0 last d front rest (record st { n_txn = st.n_txn + 1 }) lt
          ps at in
      let run =
        ap
          (after_slice l (sweep_dbi l cutoff late (λ i. false) records n true) false limited last d)
          e in
      elim (Bool-cases limited1) [
        | inr f ↦
            (let none_left = r.done f in
              let (left, counted, total) =
                finished front rest st st1 r.front' r.rest' none_left r.swept in
              (
                d1,
                st1,
                run ∙ rw f refl,
                entries-At l laws d1 r.front' r.rest' last1 r.at ∙ left,
                counted,
                total,
              ))
        | inl t ↦
            (let (d2, st2, e2, left, counted, total) =
                sweep_rest late records n true last1 d1 r.front' r.rest' st1
                  (omega (arith, r.less t)) (omega (arith, r.less t)) r.parses r.at in
              (
                d2,
                st2,
                run ∙ rw t e2,
                left ∙ r.swept.left,
                omega (arith, counted, r.swept.entries),
                omega (arith, total, r.swept.total),
              ))
      ]

  -- On a DBI that LMDB orders by `bytes.Compare`, of which every value has a header, and whose
  -- transactions nobody else interleaves, a sweep that is not canceled ends without an error, wherever its transactions are cut by the time limit. It removes
  -- exactly the entries that are marked as deleted with a timestamp before the cutoff. Its
  -- statistics count the entries that are left, and those that it has removed. As many transactions
  -- are enough as the DBI has entries, and one more.
  pub sweep_dbi-filter :
      (late : ℕ → ℕ → Bool) (d : l.Dbi)
      → All Parses (l.entries d)
      → (d' : l.Dbi) × (st : SweepStats) × (sweep_dbi l cutoff late
            (λ i. false)
            (length (l.entries d) + 1)
            (length (l.entries d) + 1)
            false
            none
            d
            no_stats
          ≡ ok (d', st))
        × (l.entries d' ≡ filter (is_kept cutoff) (l.entries d))
        × (st.n_entries ≡ length (l.entries d'))
        × (st.n_entries + st.n_cleaned ≡ length (l.entries d))
  sweep_dbi-filter late d ps =
      let es = l.entries d in
      let (d', st, e, left, counted, total) =
        sweep_rest late (length es + 1) (length es + 1) false none d [] es no_stats (omega arith)
          (omega arith) ps (refl, refl) in
      (d', st, e, left, omega (arith, counted, ap length left), omega (arith, total))
