-- ===== src/Climit/Tests.antt =====
-- A limit of two, and the theorems after two calls of `Acquire` and one of `Release`.
use lightningstream.Base.{◌≡◌, ◌≤◌, ◌↔◌, refl, true, false, none, [], ◌∷◌, if◌then◌else◌, ltb}
use lightningstream.Climit.{Limit, new_limit, acquire, release, Reachable, Step}
use lightningstream.Climit.Invariant.{held, held-le-limit}

abbrev one_held : Limit
one_held = record { capacity = 2; free = 1; released = false ∷ [] }

abbrev both_held : Limit
both_held = record { capacity = 2; free = 0; released = false ∷ false ∷ [] }

abbrev one_back : Limit
one_back = record { capacity = 2; free = 1; released = true ∷ false ∷ [] }

waits : acquire both_held ≡ none
unfolding acquire
waits = refl

one_back-Reachable : Reachable 2 one_back
unfolding acquire release new_limit
one_back-Reachable =
    Reachable.step both_held one_back
      (Reachable.step one_held both_held
        (Reachable.step (new_limit 2) one_held Reachable.start (Step.acquired _ _ refl))
        (Step.acquired _ _ refl))
      (Step.released _ _ 0 refl)

held-le-limit_example :
    (held one_back.released ≤ (if ltb 2 1 then 1 else 2))
    × ((acquire one_back ≡ none) ↔ (held one_back.released ≡ (if ltb 2 1 then 1 else 2)))
held-le-limit_example = held-le-limit 2 one_back one_back-Reachable
