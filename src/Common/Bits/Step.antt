-- ===== src/Common/Bits/Step.antt =====
-- The native bit operations recur on binary digits with fuel. Here the fuel is dropped: the two
-- halves of a result from the halves of its arguments.
use Prim.Native.Nat.{
  ℕ, zero, suc, ◌+◌, ◌*◌, ◌/◌, ◌%◌, ◌≤◌, min, max, differ, digits, bitwise, bit_and, bit_or,
  bit_xor, bit_and-bitwise, bit_or-bitwise, bit_xor-bitwise,
}
use mathlib.Core.Path.{◌≡◌, refl, ◌∙◌}
use native.Mathlib.Decide.{dec_le}
use native.Mathlib.Omega.{arith}

module _ (rest : ℕ → ℕ) (op : ℕ → ℕ → ℕ) where
  one_more : (fuel a b : ℕ) → a ≤ fuel → digits rest op (suc fuel) a b ≡ digits rest op fuel a b
  one_more zero zero b h = refl
  one_more zero (suc a) b h = absurd (omega arith)
  one_more (suc fuel) zero b h = refl
  one_more (suc fuel) (suc a) b h = rw (one_more fuel (suc a / 2) (b / 2) (omega arith))

  -- Any fuel that is enough gives what the fuel of the operation gives.
  digits-eq-bitwise : (fuel a b : ℕ) → a ≤ fuel → digits rest op fuel a b ≡ bitwise rest op a b
  digits-eq-bitwise zero zero b h = refl
  digits-eq-bitwise zero (suc a) b h = absurd (omega arith)
  digits-eq-bitwise (suc fuel) a b h = elim (dec_le a fuel) [
    | yes less ↦ one_more fuel a b less ∙ digits-eq-bitwise fuel a b less
    | no more ↦ (let all : a ≡ suc fuel = omega arith in rw all refl)
  ]

  bitwise_halves :
      (a b : ℕ)
      → bitwise rest op (suc a) b ≡ op (suc a % 2) (b % 2) + 2 * bitwise rest op (suc a / 2) (b / 2)
  bitwise_halves a b = omega (arith, digits-eq-bitwise a (suc a / 2) (b / 2) (omega arith))

pub bit_or_halves : (a b : ℕ) → bit_or a b ≡ max (a % 2) (b % 2) + 2 * bit_or (a / 2) (b / 2)
bit_or_halves zero b = simp bit_or-bitwise (omega arith)
bit_or_halves (suc a) b = simp bit_or-bitwise (bitwise_halves (λ y. y) max a b)

pub bit_and_halves : (a b : ℕ) → bit_and a b ≡ min (a % 2) (b % 2) + 2 * bit_and (a / 2) (b / 2)
bit_and_halves zero b = simp bit_and-bitwise (omega arith)
bit_and_halves (suc a) b = simp bit_and-bitwise (bitwise_halves (λ y. 0) min a b)

pub bit_xor_halves : (a b : ℕ) → bit_xor a b ≡ differ (a % 2) (b % 2) + 2 * bit_xor (a / 2) (b / 2)
bit_xor_halves zero b = simp bit_xor-bitwise (omega arith)
bit_xor_halves (suc a) b = simp bit_xor-bitwise (bitwise_halves (λ y. y) differ a b)
