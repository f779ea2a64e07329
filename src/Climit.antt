-- ===== src/Climit.antt =====
-- utils/climit/climit.go: a limit on concurrency, by tokens in a buffered channel.
pub mod Invariant
mod Tests
use lightningstream.Base.{
  ℕ, zero, suc, ◌+◌, ◌-◌, ◌≡◌, Bool, true, false, Option, none, some, List, [], ◌∷◌, ◌++◌, ltb,
  if◌then◌else◌,
}

-- `ConcurrencyLimit`: the capacity of the channel `ch`, the tokens in it, and the field `released`
-- of the tokens that `Acquire` has returned, in their order.
pub record Limit : Type 0 where
  pub capacity : ℕ
  pub free : ℕ
  pub released : List Bool

-- `New`, with a limit that may be below 1.
unfoldable pub new_limit : ℕ → Limit
new_limit limit =
    let n = if ltb limit 1 then 1 else limit in record { capacity = n; free = n; released = [] }

-- `Acquire`; `none` while it waits for a token.
unfoldable pub acquire : Limit → Option Limit
acquire cl =
    if ltb 0 cl.free
    then some (record cl { free = cl.free - 1; released = cl.released ++ (false ∷ []) })
    else none

abbrev pub is_released : List Bool → ℕ → Bool
is_released [] i = true
is_released (b ∷ bs) zero = b
is_released (b ∷ bs) (suc i) = is_released bs i

abbrev pub set_released : List Bool → ℕ → List Bool
set_released [] i = []
set_released (b ∷ bs) zero = true ∷ bs
set_released (b ∷ bs) (suc i) = b ∷ set_released bs i

-- `Token.Release` of the token with the number `i`, under its mutex; `none` while it waits for
-- room in the channel.
unfoldable pub release : Limit → ℕ → Option Limit
release cl i =
    if is_released cl.released i
    then some cl
    else if ltb cl.free cl.capacity
    then some (record cl { free = cl.free + 1; released = set_released cl.released i })
    else none

-- The calls that do not wait, in any order.
pub data Step : Limit → Limit → Type 0 where
  acquired : (cl cl' : Limit) → acquire cl ≡ some cl' → Step cl cl'
  released : (cl cl' : Limit) (i : ℕ) → release cl i ≡ some cl' → Step cl cl'

pub data Reachable (limit : ℕ) : Limit → Type 0 where
  start : Reachable limit (new_limit limit)
  step : (cl cl' : Limit) → Reachable limit cl → Step cl cl' → Reachable limit cl'
