-- ===== src/Access/Flags.antt =====
-- A permission test reads one binary digit of the mode.
use server_chat.Common.{ℕ, bit_and, bit_or, ◌^◌, ◌≡◌, ◌↔◌, true, arith, ◌&&◌, ◌||◌, not}
use server_chat.Common.Bits.{
  digit, ◌&^◌, digit-bit_and, digit-bit_or, digit-and_not, bit_and-pow, digit-le_one,
}
use native.Mathlib.Nat.{one-le-pow}
use server_chat.Access.{has, is_joiner, is_reader, is_writer, is_owner}

has-eq-digit : (k m : ℕ) → (has m (2 ^ k) ≡ true) ↔ (digit m k ≡ 1)
unfolding has
has-eq-digit k m = grind (arith, bit_and-pow k m, digit-le_one k m, one-le-pow k 2)

-- Two modes have a permission in common exactly when each of them has it.
pub has-bit_and : (k a b : ℕ) → has (bit_and a b) (2 ^ k) ≡ (has a (2 ^ k) && has b (2 ^ k))
has-bit_and k a b = grind (
  arith,
  has-eq-digit k a,
  has-eq-digit k b,
  has-eq-digit k (bit_and a b),
  digit-bit_and k a b,
  digit-le_one k a,
  digit-le_one k b,
)

-- Either of two modes gives what their union gives.
pub has-bit_or : (k a b : ℕ) → has (bit_or a b) (2 ^ k) ≡ (has a (2 ^ k) || has b (2 ^ k))
has-bit_or k a b = grind (
  arith,
  has-eq-digit k a,
  has-eq-digit k b,
  has-eq-digit k (bit_or a b),
  digit-bit_or k a b,
  digit-le_one k a,
  digit-le_one k b,
)

-- What is removed from a mode is no longer in it.
pub has-and_not : (k a b : ℕ) → has (a &^ b) (2 ^ k) ≡ (has a (2 ^ k) && not (has b (2 ^ k)))
has-and_not k a b = grind (
  arith,
  has-eq-digit k a,
  has-eq-digit k b,
  has-eq-digit k (a &^ b),
  digit-and_not k a b,
  digit-le_one k a,
  digit-le_one k b,
)

-- The mode that is both given and wanted allows to join, to read, to write and to own exactly where
-- both of the modes do.
pub is_writer-bit_and :
    (given want : ℕ)
    → (is_joiner (bit_and given want) ≡ (is_joiner given && is_joiner want))
      × (is_reader (bit_and given want) ≡ (is_reader given && is_reader want))
      × (is_writer (bit_and given want) ≡ (is_writer given && is_writer want))
      × (is_owner (bit_and given want) ≡ (is_owner given && is_owner want))
unfolding is_joiner is_reader is_writer is_owner
is_writer-bit_and given want = (
  has-bit_and 0 given want,
  has-bit_and 1 given want,
  has-bit_and 2 given want,
  has-bit_and 7 given want,
)
