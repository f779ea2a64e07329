-- ===== src/Sweeper/Tests.antt =====
-- A sweep of a concrete DBI.
use lightningstream.Base.{
  ◌+◌, ◌≡◌, refl, false, true, none, List, [], ◌∷◌, ◌++◌, length, tail, arith, All,
}
use lightningstream.Base.Bytes.{compare_bytes}
use lightningstream.Base.Maps.{filter}
use lightningstream.Base.Result.{ok}
use lightningstream.Header.{parse, put_basic, is_deleted, get_num_extra, header_of}
use lightningstream.Header.RoundTrip.{parse-put_basic}
use lightningstream.Memory.{MemoryDbi, memory, memory-IsOrderedMap}
use lightningstream.Lmdb.Entries.{Entry, IsSorted}
use lightningstream.Sweeper.{SweepStats, no_stats, sweep_dbi}
use lightningstream.Sweeper.Slices.{Parses, is_kept}
use lightningstream.Sweeper.Sweeps.{sweep_dbi-filter}

-- A stale deleted entry, one that is deleted but not stale, and one that is not deleted.
abbrev three : List Entry
three =
    (1 ∷ [], put_basic 5 1 1)
    ∷ (2 ∷ [], put_basic 50 1 1)
    ∷ (3 ∷ [], put_basic 5 1 0 ++ (65 ∷ []))
    ∷ []

in_order : IsSorted three
unfolding compare_bytes
in_order = ((refl, (refl, tt)), ((refl, tt), (tt, tt)))

abbrev tombs : MemoryDbi
tombs = record {
  held = three;
  is_sorted = in_order;
  has_keys =
      ((omega arith, omega arith), ((omega arith, omega arith), ((omega arith, omega arith), tt)));
}

have_headers : All Parses three
unfolding put_basic
have_headers = (
  (_, [], parse-put_basic 5 1 1 [] (omega arith) (omega arith) (omega arith)),
  (
    (_, [], parse-put_basic 50 1 1 [] (omega arith) (omega arith) (omega arith)),
    ((_, 65 ∷ [], parse-put_basic 5 1 0 (65 ∷ []) (omega arith) (omega arith) (omega arith)), tt),
  ),
)

kept_three : filter (is_kept 20) three ≡ tail three
unfolding filter is_kept parse put_basic is_deleted get_num_extra header_of
kept_three = refl

sweep_dbi-filter_example :
    (d' : MemoryDbi) × (st : SweepStats) × (sweep_dbi memory 20
        (λ n count. true)
        (λ i. false)
        4
        4
        false
        none
        tombs
        no_stats
      ≡ ok (d', st))
    × (d'.held ≡ filter (is_kept 20) three)
    × (st.n_entries ≡ length d'.held)
    × (st.n_entries + st.n_cleaned ≡ 3)
sweep_dbi-filter_example =
    sweep_dbi-filter memory memory-IsOrderedMap 20 (λ n count. true) tombs have_headers
