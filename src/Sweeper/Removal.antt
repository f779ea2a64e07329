-- ===== src/Sweeper/Removal.antt =====
-- A sweep removes exactly the stale deleted entries.
use mathlib.Core.List.{append-nil, append_assoc}
use lightningstream.Base.{
  ℕ, ◌+◌, ◌≡◌, refl, sym, ap, ◌∙◌, inl, inr, arith, Bool, true, false, not, ◌&&◌, Option, none,
  some, List, [], ◌∷◌, ◌++◌, ltb, leb, length, Bool-cases,
}
use lightningstream.Base.Bytes.{Bytes}
use lightningstream.Base.Maps.{filter}
use lightningstream.Base.Result.{Result, ok}
use lightningstream.Header.{Header, parse, is_deleted}
use lightningstream.Lmdb.{Lmdb, IsOrderedMap}
use lightningstream.Lmdb.Entries.{Entry, sorted_middle}
use lightningstream.Strategy.Writes.{del_middle}
use lightningstream.Sweeper.{SweepStats, sweep_entry}
use lightningstream.Sweeper.Slices.{Parses, is_kept, At, entries-At}

module _ (l : Lmdb) (laws : IsOrderedMap l) (cutoff : ℕ) where
  -- What a part of a sweep has made of the entries `front ++ rest` of a DBI, of which it has yet to
  -- scan `rest`, and of the statistics.
  pub record Swept (front rest : List Entry) (st : SweepStats) (front' rest' : List Entry)
      (st' : SweepStats) : Type 0 where
    pub left : front' ++ filter (is_kept cutoff) rest' ≡ front ++ filter (is_kept cutoff) rest
    pub entries :
        st'.n_entries + length (filter (is_kept cutoff) rest')
        ≡ st.n_entries + length (filter (is_kept cutoff) rest)
    pub total :
        st'.n_entries + st'.n_cleaned + length rest' ≡ st.n_entries + st.n_cleaned + length rest

  pub Swept-trans :
      {f r f1 r1 f2 r2 : List Entry} {st st1 st2 : SweepStats}
      → Swept f r st f1 r1 st1
      → Swept f1 r1 st1 f2 r2 st2
      → Swept f r st f2 r2 st2
  Swept-trans a b = record {
    left = b.left ∙ a.left;
    entries = b.entries ∙ a.entries;
    total = b.total ∙ a.total;
  }

  -- One entry more, and none more that is cleaned.
  abbrev IsCounted : SweepStats → SweepStats → Type 0
  IsCounted st st1 = (st1.n_entries ≡ st.n_entries + 1) × (st1.n_cleaned ≡ st.n_cleaned)

  filter-kept :
      (e : Entry) (rest : List Entry)
      → is_kept cutoff e ≡ true
      → filter (is_kept cutoff) (e ∷ rest) ≡ e ∷ filter (is_kept cutoff) rest
  unfolding filter
  filter-kept e rest k = rw (k, filter) refl

  filter-removed :
      (e : Entry) (rest : List Entry)
      → is_kept cutoff e ≡ false
      → filter (is_kept cutoff) (e ∷ rest) ≡ filter (is_kept cutoff) rest
  unfolding filter
  filter-removed e rest k = rw (k, filter) refl

  Swept-kept :
      (front : List Entry) (k v : Bytes) (rest : List Entry) (st st1 : SweepStats)
      → is_kept cutoff (k, v) ≡ true
      → IsCounted st st1
      → Swept front ((k, v) ∷ rest) st (front ++ ((k, v) ∷ [])) rest st1
  Swept-kept front k v rest st st1 kept (c, c') = record {
    left =
        append_assoc front ((k, v) ∷ []) (filter (is_kept cutoff) rest)
        ∙ ap (λ es. front ++ es) (sym (filter-kept (k, v) rest kept));
    entries = omega (arith, c, ap length (filter-kept (k, v) rest kept));
    total = omega (arith, c, c');
  }

  Swept-removed :
      (front : List Entry) (k v : Bytes) (rest : List Entry) (st : SweepStats)
      → is_kept cutoff (k, v) ≡ false
      → Swept front ((k, v) ∷ rest) st front rest (record st { n_cleaned = st.n_cleaned + 1 })
  Swept-removed front k v rest st gone = record {
    left = ap (λ es. front ++ es) (sym (filter-removed (k, v) rest gone));
    entries = ap (λ es. st.n_entries + length es) (sym (filter-removed (k, v) rest gone));
    total = omega arith;
  }

  is_kept_lem :
      (k v : Bytes) (h : Header) (app : Bytes)
      → parse v ≡ ok (h, app)
      → is_kept cutoff (k, v) ≡ not (is_deleted h.flags && ltb h.timestamp cutoff)
  unfolding is_kept
  is_kept_lem k v h app e = rw (e, is_kept) refl

  not_stale :
      (deleted : Bool) (ts : ℕ) → leb cutoff ts ≡ true → not (deleted && ltb ts cutoff) ≡ true
  not_stale deleted ts h = ground arith

  stale :
      (ts : ℕ) {deleted : Bool}
      → deleted ≡ true
      → leb cutoff ts ≡ false
      → not (deleted && ltb ts cutoff) ≡ false
  stale ts y h = ground arith

  -- One record.
  pub entry_step :
      (d : l.Dbi) (front : List Entry) (k v : Bytes) (rest : List Entry) (last : Option Entry)
      (st : SweepStats)
      → Parses (k, v)
      → At l laws d front ((k, v) ∷ rest) last
      → (st1 : SweepStats) × (d1 : l.Dbi) × (front1 : List Entry) × (sweep_entry l cutoff
            (k, v)
            d
            st
          ≡ (st1, ok d1))
        × (At l laws d1 front1 rest (some (k, v)) × Swept front ((k, v) ∷ rest) st front1 rest st1)
  unfolding sweep_entry
  entry_step d front k v rest last st (h, app, e) at =
      let es = entries-At l laws d front ((k, v) ∷ rest) last at in
      let (b, a) = sorted_middle front k v rest (rw es at (laws.sorted d)) in
      let keeps = is_kept_lem k v h app e in
      let stays : (is_kept cutoff (k, v) ≡ true)
          → (st1 : SweepStats) → IsCounted st st1
          → At l laws d (front ++ ((k, v) ∷ [])) rest (some (k, v))
            × Swept front ((k, v) ∷ rest) st (front ++ ((k, v) ∷ [])) rest st1 =
        λ kept st1 c. (
          (front, some v, (inr refl, (refl, (es, (b, a))))),
          Swept-kept front k v rest st st1 kept c,
        ) in
      elim (Bool-cases (is_deleted h.flags)) [
        | inr n ↦ (
          record st { n_entries = st.n_entries + 1 },
          d,
          front ++ ((k, v) ∷ []),
          rw (e, n, sweep_entry) refl,
          stays (keeps ∙ rw n refl) (record st { n_entries = st.n_entries + 1 }) (refl, refl),
        )
        | inl y ↦ elim (Bool-cases (leb cutoff h.timestamp)) [
          | inl young ↦
              (let st1 = record st { n_entries = st.n_entries + 1; n_deleted = st.n_deleted + 1 } in
                (
                  st1,
                  d,
                  front ++ ((k, v) ∷ []),
                  rw (e, y, young, sweep_entry) refl,
                  stays (keeps ∙ not_stale (is_deleted h.flags) h.timestamp young) st1 (refl, refl),
                ))
          | inr old ↦
              (let (d1, r1, e1) = del_middle l laws d front k v rest es in
                (
                  record st { n_cleaned = st.n_cleaned + 1 },
                  d1,
                  front,
                  rw (e, y, old, sweep_entry)
                      (ap (λ (r : Result l.Dbi). (record st { n_cleaned = st.n_cleaned + 1 }, r))
                        r1),
                  (
                    (front, none, (inl refl, (sym (append-nil front), (e1, (b, a))))),
                    Swept-removed front k v rest st (keeps ∙ stale h.timestamp y old),
                  ),
                ))
        ]
      ]
