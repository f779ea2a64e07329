-- ===== src/Climit/Invariant.antt =====
-- The tokens are never more than the limit, and a release never waits.
use lightningstream.Base.{
  ℕ, zero, suc, ◌+◌, ◌-◌, ◌≡◌, ◌≤◌, ◌↔◌, refl, ◌∙◌, inl, inr, Bool-cases, arith, Bool, true, false,
  none, some, List, [], ◌∷◌, ◌++◌, ltb, if◌then◌else◌,
}
use lightningstream.Climit.{
  Limit, new_limit, acquire, is_released, set_released, release, Step, acquired, released,
  Reachable, start, step,
}

-- The tokens that are held.
abbrev pub held : List Bool → ℕ
held [] = 0
held (true ∷ bs) = held bs
held (false ∷ bs) = held bs + 1

abbrev IsBalanced : Limit → Type 0
IsBalanced cl = cl.free + held cl.released ≡ cl.capacity

held-append : (bs : List Bool) → held (bs ++ (false ∷ [])) ≡ held bs + 1
held-append [] = refl
held-append (true ∷ bs) = held-append bs
held-append (false ∷ bs) = omega (arith, held-append bs)

held-set_released :
    (bs : List Bool) (i : ℕ) → is_released bs i ≡ false → held bs ≡ held (set_released bs i) + 1
held-set_released [] i h = cc
held-set_released (true ∷ bs) zero h = cc
held-set_released (false ∷ bs) zero h = refl
held-set_released (true ∷ bs) (suc i) h = held-set_released bs i h
held-set_released (false ∷ bs) (suc i) h = omega (arith, held-set_released bs i h)

Step-IsBalanced : (cl cl' : Limit) → Step cl cl' → IsBalanced cl → IsBalanced cl'
unfolding acquire release
Step-IsBalanced cl cl' (acquired _ _ e) h = ground (arith, held-append cl.released)
Step-IsBalanced cl cl' (released _ _ i e) h = ground (arith, held-set_released cl.released i)

Step-capacity : (cl cl' : Limit) → Step cl cl' → cl'.capacity ≡ cl.capacity
unfolding acquire release
Step-capacity cl cl' (acquired _ _ e) = ground arith
Step-capacity cl cl' (released _ _ i e) = ground arith

Reachable-IsBalanced :
    (limit : ℕ) (cl : Limit)
    → Reachable limit cl
    → IsBalanced cl × (cl.capacity ≡ (if ltb limit 1 then 1 else limit))
unfolding new_limit
Reachable-IsBalanced limit _ start = (ground arith, refl)
Reachable-IsBalanced limit _ (step cl cl' r s) =
    let (b, c) = Reachable-IsBalanced limit cl r in
    (Step-IsBalanced cl cl' s b, Step-capacity cl cl' s ∙ c)

-- After any calls of `Acquire` and `Release`, at most `limit` tokens are held (at most one, if the
-- limit is below 1), and `Acquire` waits exactly when as many are held.
pub held-le-limit :
    (limit : ℕ) (cl : Limit)
    → Reachable limit cl
    → (held cl.released ≤ (if ltb limit 1 then 1 else limit))
      × ((acquire cl ≡ none) ↔ (held cl.released ≡ (if ltb limit 1 then 1 else limit)))
unfolding acquire
held-le-limit limit cl r = let (b, c) = Reachable-IsBalanced limit cl r in ground (arith, b, c)

released-is_released : (bs : List Bool) (i : ℕ) → is_released (set_released bs i) i ≡ true
released-is_released [] i = refl
released-is_released (b ∷ bs) zero = refl
released-is_released (b ∷ bs) (suc i) = released-is_released bs i

-- After any calls of `Acquire` and `Release`, the release of any token does not wait. It gives
-- back the token if it was held, and a second release of it changes nothing.
pub release_twice :
    (limit : ℕ) (cl : Limit) (i : ℕ)
    → Reachable limit cl
    → (cl' : Limit) × ((release cl i ≡ some cl')
        × ((held cl'.released ≡ held cl.released - (if is_released cl.released i then 0 else 1))
            × (release cl' i ≡ some cl')))
unfolding release
release_twice limit cl i r =
    let (b, c) = Reachable-IsBalanced limit cl r in
    elim (Bool-cases (is_released cl.released i)) [
      | inl e ↦ (cl, (rw e refl, (rw e (omega arith), rw e refl)))
      | inr e ↦ (
        record cl { free = cl.free + 1; released = set_released cl.released i },
        ground (arith, b, e, held-set_released cl.released i e, released-is_released cl.released i),
      )
    ]
