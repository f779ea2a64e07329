-- ===== src/Receiver/Downloader/Tokens.antt =====
-- Sums over the tokens of utils/climit that are held, and over the values of a map: what an
-- acquire, a release, an assignment and a deletion change.
use lightningstream.Base.{
  ℕ, zero, suc, ◌+◌, ◌<◌, ◌≡◌, refl, ap, arith, Bool, true, false, Option, none, some, List, [],
  ◌∷◌, ◌++◌, length, ◌==◌, if◌then◌else◌, inl, inr, Bool-cases,
}
use lightningstream.Base.Bytes.{Bytes}
use lightningstream.Base.Maps.{find, assign}
use lightningstream.Climit.{Limit, acquire, release, is_released, set_released}
use lightningstream.Climit.Invariant.{held}
use lightningstream.Receiver.Downloader.{remove}

-- The sum of `f` over the tokens that are held, where the first has the number `k`.
abbrev pub held_sum : (ℕ → ℕ) → ℕ → List Bool → ℕ
held_sum f k [] = 0
held_sum f k (true ∷ bs) = held_sum f (suc k) bs
held_sum f k (false ∷ bs) = f k + held_sum f (suc k) bs

pub held_sum_one : (k : ℕ) (bs : List Bool) → held_sum (λ n. 1) k bs ≡ held bs
held_sum_one k [] = refl
held_sum_one k (true ∷ bs) = held_sum_one (suc k) bs
held_sum_one k (false ∷ bs) = omega (arith, held_sum_one (suc k) bs)

held_sum-append :
    (f : ℕ → ℕ) (k : ℕ) (bs : List Bool)
    → held_sum f k (bs ++ (false ∷ [])) ≡ held_sum f k bs + f (k + length bs)
held_sum-append f k [] = let same : k + 0 ≡ k = omega arith in omega (arith, ap f same)
held_sum-append f k (true ∷ bs) =
    let same : suc k + length bs ≡ k + suc (length bs) = omega arith in
    omega (arith, ap f same, held_sum-append f (suc k) bs)
held_sum-append f k (false ∷ bs) =
    let same : suc k + length bs ≡ k + suc (length bs) = omega arith in
    omega (arith, ap f same, held_sum-append f (suc k) bs)

held_sum-set_released :
    (f : ℕ → ℕ) (k : ℕ) (bs : List Bool) (i : ℕ)
    → is_released bs i ≡ false
    → held_sum f k bs ≡ f (k + i) + held_sum f k (set_released bs i)
held_sum-set_released f k [] i h = cc
held_sum-set_released f k (true ∷ bs) zero h = cc
held_sum-set_released f k (false ∷ bs) zero h =
    let same : k + 0 ≡ k = omega arith in omega (arith, ap f same)
held_sum-set_released f k (true ∷ bs) (suc i) h =
    let same : suc k + i ≡ k + suc i = omega arith in
    omega (arith, ap f same, held_sum-set_released f (suc k) bs i h)
held_sum-set_released f k (false ∷ bs) (suc i) h =
    let same : suc k + i ≡ k + suc i = omega arith in
    omega (arith, ap f same, held_sum-set_released f (suc k) bs i h)

-- Counts the token `i`.
abbrev pub only : ℕ → ℕ → ℕ
only i j = if j == i then 1 else 0

held_sum_above : (i k : ℕ) (bs : List Bool) → i < k → held_sum (only i) k bs ≡ 0
held_sum_above i k [] h = refl
held_sum_above i k (true ∷ bs) h = held_sum_above i (suc k) bs (omega arith)
held_sum_above i k (false ∷ bs) h = ground (arith, held_sum_above i (suc k) bs (omega arith))

held_sum_released :
    (i k j : ℕ) (bs : List Bool) → k + j ≡ i → is_released bs j ≡ true → held_sum (only i) k bs ≡ 0
held_sum_released i k j [] e h = refl
held_sum_released i k zero (true ∷ bs) e h = held_sum_above i (suc k) bs (omega arith)
held_sum_released i k zero (false ∷ bs) e h = cc
held_sum_released i k (suc j) (true ∷ bs) e h = held_sum_released i (suc k) j bs (omega arith) h
held_sum_released i k (suc j) (false ∷ bs) e h =
    ground (arith, held_sum_released i (suc k) j bs (omega arith) h)

pub acquire_sum :
    (l l' : Limit) (f : ℕ → ℕ)
    → acquire l ≡ some l'
    → held_sum f 0 l'.released ≡ held_sum f 0 l.released + f (length l.released)
unfolding acquire
acquire_sum l l' f e =
    let same : 0 + length l.released ≡ length l.released = omega arith in
    ground (arith, held_sum-append f 0 l.released, ap f same)

-- A token that is among those which are counted has not been released.
not_released :
    (l : Limit) (i : ℕ) (others : (ℕ → ℕ) → ℕ)
    → ((f : ℕ → ℕ) → f i + others f ≡ held_sum f 0 l.released)
    → is_released l.released i ≡ false
not_released l i others h = elim (Bool-cases (is_released l.released i)) [
  | inl t ↦
      let none_held = held_sum_released i 0 i l.released (omega arith) t in
      absurd (ground (arith, h (only i), none_held))
  | inr f ↦ f
]

-- Its release leaves the others.
pub release_sum :
    (l l' : Limit) (i : ℕ) (others : (ℕ → ℕ) → ℕ)
    → ((f : ℕ → ℕ) → f i + others f ≡ held_sum f 0 l.released)
    → release l i ≡ some l'
    → (f : ℕ → ℕ) → others f ≡ held_sum f 0 l'.released
unfolding release
release_sum l l' i others h e f =
    let held_now = not_released l i others h in
    let same : 0 + i ≡ i = omega arith in
    ground (arith, held_now, h f, ap f same, held_sum-set_released f 0 l.released i held_now)

-- The sum of `w` over the values of a map.
module _ {ℓ} {A : Type ℓ} (w : A → ℕ) where
  abbrev pub total : List (Bytes × A) → ℕ
  total [] = 0
  total ((x, v) ∷ m) = w v + total m

  abbrev pub weight : Option A → ℕ
  weight none = 0
  weight (some v) = w v

  pub total-assign :
      (k : Bytes) (v : A) (m : List (Bytes × A))
      → total (assign k v m) + weight (find k m) ≡ w v + total m
  unfolding assign find
  total-assign k v [] = omega arith
  total-assign k v ((x, u) ∷ m) = ground (arith, total-assign k v m)

  pub total-remove :
      (k : Bytes) (m : List (Bytes × A)) → total (remove k m) + weight (find k m) ≡ total m
  unfolding remove find
  total-remove k [] = omega arith
  total-remove k ((x, u) ∷ m) = ground (arith, total-remove k m)
