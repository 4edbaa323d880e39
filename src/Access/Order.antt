-- ===== src/Access/Order.antt =====
-- server/store/types/access_mode.go: `BetterEqual` and `BetterThan`.
use server_chat.Common.{ℕ, ap, min, false, ==_iff, bit_and, ◌≤◌, ◌<◌, ◌≡◌, ◌↔◌, true, arith}
use server_chat.Common.Bits.{
  digit, digit-bit_and, digit-and_not, eq_of_digits, digit-zero, digit-le-mask, bit_and_comm,
  bit_and-lt-pow, ◌&^◌,
}
use server_chat.Access.{better_than, better_equal}
use server_chat.Access.Mode

-- Every permission of `want` is among those of `grant`.
abbrev pub Grants : ℕ → ℕ → Type 0
Grants grant want = (k : ℕ) → digit want k ≤ digit grant k

digit-common :
    (k grant want : ℕ)
    → digit (bit_and (bit_and Mode.bitmask grant) want) k
      ≡ min (min (digit Mode.bitmask k) (digit grant k)) (digit want k)
digit-common k grant want = rw (digit-bit_and, digit-bit_and)

common_digits :
    (grant want : ℕ) → bit_and (bit_and Mode.bitmask grant) want ≡ want → Grants grant want
common_digits grant want e k = omega (arith, digit-common k grant want, ap (λ (t : ℕ). digit t k) e)

common-lt : (grant want : ℕ) → bit_and (bit_and Mode.bitmask grant) want < 256
common-lt grant want =
    rw bit_and_comm
      (bit_and-lt-pow 8 want _ (rw bit_and_comm (bit_and-lt-pow 8 grant 255 (omega arith))))

-- `BetterEqual` holds exactly when the wanted mode has permission bits only and each of them is
-- granted.
pub better_equal_iff :
    (grant want : ℕ) → (better_equal grant want ≡ true) ↔ ((want < 256) × Grants grant want)
unfolding better_equal
better_equal_iff grant want = (forth, back)
  where
    forth : better_equal grant want ≡ true → (want < 256) × Grants grant want
    forth h =
        let e = (==_iff (bit_and (bit_and Mode.bitmask grant) want) want).0 h in
        (rw e at (common-lt grant want), common_digits grant want e)

    back : (want < 256) × Grants grant want → better_equal grant want ≡ true
    back h = (==_iff _ want).1 (
        eq_of_digits _ want
          (λ k. omega (arith, digit-common k grant want, h.1 k, digit-le-mask 8 k want h.0)))

-- `BetterThan` fails exactly when every granted permission bit is wanted too.
pub better_than_iff :
    (grant want : ℕ) → (better_than grant want ≡ false) ↔ Grants want (bit_and Mode.bitmask grant)
unfolding better_than
better_than_iff grant want = (forth, back)
  where
    extra : ℕ
    extra = bit_and Mode.bitmask grant &^ want

    forth : better_than grant want ≡ false → Grants want (bit_and Mode.bitmask grant)
    forth h k =
        let e : extra ≡ 0 = ground arith in
        omega (
          arith,
          digit-and_not k (bit_and Mode.bitmask grant) want,
          ap (λ (t : ℕ). digit t k) e,
          digit-zero k,
        )

    back : Grants want (bit_and Mode.bitmask grant) → better_than grant want ≡ false
    back h =
        let e : extra ≡ 0 = eq_of_digits extra 0 (λ k.
          omega (arith, digit-and_not k (bit_and Mode.bitmask grant) want, h k, digit-zero k)) in
        ground arith

-- If the granted mode is `BetterEqual` and not `BetterThan` the wanted one, then its permission
-- bits are the wanted mode.
pub better_equal_exact :
    (grant want : ℕ)
    → better_equal grant want ≡ true
    → better_than grant want ≡ false
    → bit_and Mode.bitmask grant ≡ want
better_equal_exact grant want h n =
    let below = (better_equal_iff grant want).0 h in
    eq_of_digits _ want (λ k. omega (
      arith,
      (better_than_iff grant want).0 n k,
      below.1 k,
      digit-le-mask 8 k want below.0,
      digit-bit_and k Mode.bitmask grant,
    ))
