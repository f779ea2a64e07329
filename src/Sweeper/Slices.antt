-- ===== src/Sweeper/Slices.antt =====
-- Where a scan stands, and what one record makes of it.
use lightningstream.Base.{
  ℕ, ◌≡◌, refl, sym, ap, ◌∙◌, ◌⊎◌, inl, inr, arith, Bool, true, not, ◌&&◌, Option, none, some, List,
  [], ◌∷◌, ◌++◌, ltb, ◌==◌, head?, Bool-cases,
}
use lightningstream.Base.Bytes.{Bytes, gt_of_Lt}
use lightningstream.Base.Maps.{equal_bytes_refl}
use lightningstream.Base.Result.{ok, err}
use lightningstream.Header.{Header, parse, is_deleted}
use lightningstream.Lmdb.{Lmdb, IsOrderedMap}
use lightningstream.Lmdb.Entries.{
  Entry, Below, Above, beyond, lookup, cons_some, beyond-cons_some, append-cons_some, lookup-middle,
}
use lightningstream.Sweeper.{scan_from, scan_next}

-- An entry whose value has a header.
abbrev pub Parses : Entry → Type 0
Parses e = (h : Header) × (app : Bytes) × (parse e.1 ≡ ok (h, app))

-- Whether an entry stays: all do but those marked as deleted before the cutoff.
unfoldable pub is_kept : ℕ → Entry → Bool
is_kept cutoff e = elim (parse e.1) [
  | err x ↦ true
  | ok (h, app) ↦ not (is_deleted h.flags && ltb h.timestamp cutoff)
]

lookup-cons_some :
    (front : List Entry) (k : Bytes) (o : Option Bytes) (es : List Entry)
    → Below front k
    → Above k es
    → lookup k (front ++ cons_some k o es) ≡ o
unfolding lookup
lookup-cons_some front k (some v) es b a = lookup-middle front k v es b
lookup-cons_some [] k none [] b a = refl
lookup-cons_some [] k none ((j, w) ∷ es) b (a, above) =
    ground (arith, lookup-cons_some [] k none es tt above)
lookup-cons_some ((j, w) ∷ front) k none es (b, bs) a =
    ground (arith, gt_of_Lt k j b, lookup-cons_some front k none es bs a)

module _ (l : Lmdb) (laws : IsOrderedMap l) where
  -- A scan stands behind a record, which may be gone, with `front` in front of it.
  abbrev pub Behind :
      l.Dbi → List Entry → List Entry → Bytes → Bytes → List Entry → Option Bytes → Type 0
  Behind d front rest k v fr o =
      ((o ≡ none) ⊎ (o ≡ some v))
      × ((front ≡ fr ++ cons_some k o [])
          × ((l.entries d ≡ fr ++ cons_some k o rest) × (Below fr k × Above k rest)))

  abbrev pub At : l.Dbi → List Entry → List Entry → Option Entry → Type 0
  At d front rest none = (front ≡ []) × (l.entries d ≡ rest)
  At d front rest (some (k, v)) =
      (fr : List Entry) × (o : Option Bytes) × Behind d front rest k v fr o

  pub entries-At :
      (d : l.Dbi) (front rest : List Entry) (last : Option Entry)
      → At d front rest last
      → l.entries d ≡ front ++ rest
  entries-At d front rest none (f, e) = rw f e
  entries-At d front rest (some (k, v)) (fr, o, (c, (f, (e, b)))) =
      rw f (e ∙ sym (append-cons_some fr k o rest))

  cursor_lem :
      (d : l.Dbi) (front rest : List Entry) (k v : Bytes) (fr : List Entry) (o : Option Bytes)
      → Behind d front rest k v fr o
      → l.cursor_get d (some k) ≡ head? rest
  cursor_lem d front rest k v fr o (c, (f, (e, (b, a)))) =
      laws.cursor_get_lem d (some k)
      ∙ ap (λ es. head? (beyond (some k) es)) e
      ∙ ap head? (beyond-cons_some fr k o rest b a)

  scan_from_lem :
      (d : l.Dbi) (front rest : List Entry) (k v : Bytes) (fr : List Entry) (o : Option Bytes)
      → Behind d front rest k v fr o
      → scan_from l d (k, v) ≡ head? rest
  unfolding scan_from
  scan_from_lem d front rest k v fr o (c, (f, (e, (b, a)))) =
      let found = laws.get_lem d k ∙ ap (lookup k) e ∙ lookup-cons_some fr k o rest b a in
      let next = cursor_lem d front rest k v fr o (c, (f, (e, (b, a)))) in
      elim c [
        | inl n ↦ rw (found ∙ n, scan_from) next
        | inr s ↦ rw (found ∙ s, scan_from) (rw (equal_bytes_refl v) next)
      ]

  pub scan_next_lem :
      (d : l.Dbi) (front rest : List Entry) (count : ℕ) (last : Option Entry)
      → At d front rest last
      → scan_next l count last d ≡ head? rest
  unfolding scan_next beyond
  scan_next_lem d front rest count none (f, e) = laws.cursor_get_lem d none ∙ ap head? e
  scan_next_lem d front rest count (some (k, v)) (fr, o, c) = elim (Bool-cases (count == 0)) [
    | inl z ↦ rw z (scan_from_lem d front rest k v fr o c)
    | inr s ↦ rw s (cursor_lem d front rest k v fr o c)
  ]
