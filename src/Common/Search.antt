-- ===== src/Common/Search.antt =====
-- Go's `sort.Search`.
use Prim.Native.Nat.{ℕ, zero, suc, ◌+◌, ◌/◌, ◌≤◌, ◌<◌}
use mathlib.Core.Path.{◌≡◌}
use mathlib.Core.Bool.{Bool}
use mathlib.Core.Logic.{inl, inr}
use native.Mathlib.Omega.{arith}
use server_chat.Common.Tests.{ltb, leb, if◌then◌else◌, Bool-cases}

-- The loop: the answer lies from `i` to `j`. The fuel is a bound on their distance.
unfoldable pub search_loop : ℕ → ℕ → ℕ → (ℕ → Bool) → ℕ
search_loop zero i j f = i
search_loop (suc fuel) i j f =
    let h = (i + j) / 2 in
    let rest = search_loop fuel (if f h then i else suc h) (if f h then h else j) f in
    if ltb i j then rest else i

unfoldable pub search : ℕ → (ℕ → Bool) → ℕ
unfolding search_loop
search n f = search_loop n 0 n f

-- If the test holds from some place on, the loop finds that place.
search_loop-least :
    (fuel i j r : ℕ) (f : ℕ → Bool)
    → ((k : ℕ) → k < j → f k ≡ leb r k)
    → i ≤ r
    → r ≤ j
    → j ≤ i + fuel
    → search_loop fuel i j f ≡ r
unfolding search_loop
search_loop-least zero i j r f test low high fuel_enough = omega arith
search_loop-least (suc fuel) i j r f test low high fuel_enough = elim (Bool-cases (ltb i j)) [
  | inl more ↦
      let h : ℕ = (i + j) / 2 in
      let in_range : (i + j) / 2 < j = ground arith in
      let at : f ((i + j) / 2) ≡ leb r ((i + j) / 2) = test ((i + j) / 2) in_range in
      rw more (elim (Bool-cases (leb r ((i + j) / 2))) [
        | inl before ↦
            rw (at, before)
              (search_loop-least fuel i ((i + j) / 2) r f (λ k hk. test k (omega arith)) low
                (ground arith) (omega arith))
        | inr behind ↦
            rw (at, behind)
              (search_loop-least fuel (suc ((i + j) / 2)) j r f test (ground arith) high
                (omega arith))
      ])
  | inr stop ↦ rw stop (ground arith)
]

pub search-least :
    (n r : ℕ) (f : ℕ → Bool) → ((k : ℕ) → k < n → f k ≡ leb r k) → r ≤ n → search n f ≡ r
unfolding search
search-least n r f test high = search_loop-least n 0 n r f test (omega arith) high (omega arith)
