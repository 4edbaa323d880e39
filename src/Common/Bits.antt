-- ===== src/Common/Bits.antt =====
-- The binary digits of a number, and what the bit operations do to each digit.
mod Step
use Step.{bit_or_halves, bit_and_halves, bit_xor_halves}
use Prim.Native.Nat.{differ}
use Prim.Native.Nat.{ℕ, zero, suc, ◌+◌, ◌-◌, ◌*◌, ◌/◌, ◌%◌, ◌^◌, ◌≤◌, ◌<◌, min, max}
use Prim.Native.Nat.{bit_and, bit_or, bit_xor}
use mathlib.Core.Path.{◌≡◌, refl}
use native.Mathlib.Omega.{arith}
use native.Mathlib.Nat.{pow-suc, one-le-pow, le_refl}
use mathlib.Core.Path.{ap}

-- The digit of weight `2 ^ k`.
abbrev pub digit : ℕ → ℕ → ℕ
digit a zero = a % 2
digit a (suc k) = digit (a / 2) k

-- Go's `a &^ b`.
infixl 65 ◌&^◌
unfoldable pub ◌&^◌ : ℕ → ℕ → ℕ
a &^ b = bit_xor a (bit_and a b)

pub digit-le_one : (k a : ℕ) → digit a k ≤ 1
digit-le_one zero a = omega arith
digit-le_one (suc k) a = digit-le_one k (a / 2)

pub digit-bit_and : (k a b : ℕ) → digit (bit_and a b) k ≡ min (digit a k) (digit b k)
digit-bit_and zero a b = omega (arith, bit_and_halves a b)
digit-bit_and (suc k) a b =
    let e : bit_and a b / 2 ≡ bit_and (a / 2) (b / 2) = omega (arith, bit_and_halves a b) in
    rw e (digit-bit_and k (a / 2) (b / 2))

pub digit-bit_or : (k a b : ℕ) → digit (bit_or a b) k ≡ max (digit a k) (digit b k)
digit-bit_or zero a b = omega (arith, bit_or_halves a b)
digit-bit_or (suc k) a b =
    let e : bit_or a b / 2 ≡ bit_or (a / 2) (b / 2) = omega (arith, bit_or_halves a b) in
    rw e (digit-bit_or k (a / 2) (b / 2))

differ-le_one : (x y : ℕ) → x ≤ 1 → y ≤ 1 → differ x y ≤ 1
differ-le_one zero y p q = q
differ-le_one (suc x) zero p q = p
differ-le_one (suc zero) (suc zero) p q = omega arith
differ-le_one (suc (suc x)) (suc y) p q = absurd (omega arith)
differ-le_one (suc zero) (suc (suc y)) p q = absurd (omega arith)

digit-bit_xor : (k a b : ℕ) → digit (bit_xor a b) k ≡ differ (digit a k) (digit b k)
digit-bit_xor zero a b =
    omega (arith, bit_xor_halves a b, differ-le_one (a % 2) (b % 2) (omega arith) (omega arith))
digit-bit_xor (suc k) a b =
    let e : bit_xor a b / 2 ≡ bit_xor (a / 2) (b / 2) =
      omega
        (arith, bit_xor_halves a b, differ-le_one (a % 2) (b % 2) (omega arith) (omega arith)) in
    rw e (digit-bit_xor k (a / 2) (b / 2))

differ-min : (x y : ℕ) → x ≤ 1 → y ≤ 1 → differ x (min x y) ≡ x - y
differ-min zero y p q = omega arith
differ-min (suc zero) zero p q = refl
differ-min (suc zero) (suc zero) p q = refl
differ-min (suc zero) (suc (suc y)) p q = absurd (omega arith)
differ-min (suc (suc x)) y p q = absurd (omega arith)

pub digit-and_not : (k a b : ℕ) → digit (a &^ b) k ≡ digit a k - digit b k
unfolding ◌&^◌
digit-and_not k a b =
    rw (digit-bit_xor, digit-bit_and)
      (differ-min (digit a k) (digit b k) (digit-le_one k a) (digit-le_one k b))

pub digit-zero : (k : ℕ) → digit 0 k ≡ 0
digit-zero zero = refl
digit-zero (suc k) = digit-zero k

-- Numbers with the same digits are equal.
eq_of_digits_below : (n a b : ℕ) → a ≤ n → b ≤ n → ((k : ℕ) → digit a k ≡ digit b k) → a ≡ b
eq_of_digits_below zero a b p q h = omega arith
eq_of_digits_below (suc n) a b p q h =
    omega (
      arith,
      h 0,
      eq_of_digits_below n (a / 2) (b / 2) (omega arith) (omega arith) (λ k. h (suc k)),
    )

pub eq_of_digits : (a b : ℕ) → ((k : ℕ) → digit a k ≡ digit b k) → a ≡ b
eq_of_digits a b h = eq_of_digits_below (a + b) a b (omega arith) (omega arith) h

bit_and-zero : (a : ℕ) → bit_and a 0 ≡ 0
bit_and-zero a = eq_of_digits (bit_and a 0) 0 (λ k. rw digit-bit_and (omega (arith, digit-zero k)))

half_pow : (k : ℕ) → 2 ^ suc k / 2 ≡ 2 ^ k
half_pow k = omega (arith, pow-suc 2 k)

-- A number with a single digit selects that digit.
pub bit_and-pow : (k a : ℕ) → bit_and a (2 ^ k) ≡ digit a k * 2 ^ k
bit_and-pow zero a = omega (arith, bit_and_halves a 1, bit_and-zero (a / 2))
bit_and-pow (suc k) a =
    let halves : bit_and a (2 ^ suc k) ≡ bit_and (a / 2) (2 ^ k) * 2 =
      rw (← half_pow k) (omega (arith, bit_and_halves a (2 ^ suc k), pow-suc 2 k)) in
    omega (arith, halves, ap (λ (t : ℕ). digit (a / 2) k * t) (pow-suc 2 k), bit_and-pow k (a / 2))

half_mask : (n : ℕ) → (2 ^ suc n - 1) / 2 ≡ 2 ^ n - 1
half_mask n = omega (arith, pow-suc 2 n, one-le-pow n 2)

-- Below `2 ^ n` no digit lies outside the mask of `n` ones.
pub digit-le-mask : (n k a : ℕ) → a < 2 ^ n → digit a k ≤ digit (2 ^ n - 1) k
digit-le-mask zero k a h = let e : a ≡ 0 = omega arith in rw e (le_refl _)
digit-le-mask (suc n) zero a h = omega (arith, pow-suc 2 n, one-le-pow n 2)
digit-le-mask (suc n) (suc k) a h =
    rw half_mask (digit-le-mask n k (a / 2) (omega (arith, pow-suc 2 n)))

pub bit_and-lt-pow : (n a b : ℕ) → b < 2 ^ n → bit_and a b < 2 ^ n
bit_and-lt-pow zero a b h = let e : b ≡ 0 = omega arith in rw (e, bit_and-zero) (omega arith)
bit_and-lt-pow (suc n) a b h = omega (
  arith,
  bit_and_halves a b,
  pow-suc 2 n,
  bit_and-lt-pow n (a / 2) (b / 2) (omega (arith, pow-suc 2 n)),
)

pub bit_or-lt-pow : (n a b : ℕ) → a < 2 ^ n → b < 2 ^ n → bit_or a b < 2 ^ n
bit_or-lt-pow zero a b h k =
    let e : a ≡ 0 = omega arith in let f : b ≡ 0 = omega arith in rw (e, f) (omega arith)
bit_or-lt-pow (suc n) a b h k = omega (
  arith,
  bit_or_halves a b,
  pow-suc 2 n,
  bit_or-lt-pow n (a / 2) (b / 2) (omega (arith, pow-suc 2 n)) (omega (arith, pow-suc 2 n)),
)

-- A number whose digits are at most those of `b` is at most `b`.
le_of_digits_below : (n a b : ℕ) → a ≤ n → ((k : ℕ) → digit a k ≤ digit b k) → a ≤ b
le_of_digits_below zero a b p h = omega arith
le_of_digits_below (suc n) zero b p h = omega arith
le_of_digits_below (suc n) (suc a) b p h =
    omega (arith, h 0, le_of_digits_below n (suc a / 2) (b / 2) (omega arith) (λ k. h (suc k)))

pub le_of_digits : (a b : ℕ) → ((k : ℕ) → digit a k ≤ digit b k) → a ≤ b
le_of_digits a b h = le_of_digits_below a a b (le_refl a) h

pub and_not-le : (a b : ℕ) → (a &^ b) ≤ a
and_not-le a b = le_of_digits (a &^ b) a (λ k. omega (arith, digit-and_not k a b))

pub bit_and_comm : (a b : ℕ) → bit_and a b ≡ bit_and b a
bit_and_comm a b = eq_of_digits _ _ (λ k. omega (arith, digit-bit_and k a b, digit-bit_and k b a))
