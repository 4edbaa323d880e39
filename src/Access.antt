-- ===== src/Access.antt =====
-- server/store/types/access_mode.go: the permission bits and their tests. A mode is Go's `uint`.
pub mod Mode
pub mod Text
pub mod Delta
pub mod Order
pub mod Flags
use server_chat.Common.{ℕ, bit_and, Bool, not, ◌||◌, ◌&&◌, ◌==◌}
use server_chat.Common.Bits.{◌&^◌}

-- `m & mask != 0`
unfoldable pub has : ℕ → ℕ → Bool
has m mask = not (bit_and m mask == 0)

-- grant.BetterThan(want)
unfoldable pub better_than : ℕ → ℕ → Bool
better_than grant want = not ((bit_and Mode.bitmask grant &^ want) == 0)

-- grant.BetterEqual(want)
unfoldable pub better_equal : ℕ → ℕ → Bool
better_equal grant want = bit_and (bit_and Mode.bitmask grant) want == want

unfoldable pub is_joiner : ℕ → Bool
unfolding has
is_joiner m = has m Mode.join

unfoldable pub is_owner : ℕ → Bool
unfolding has
is_owner m = has m Mode.owner

unfoldable pub is_approver : ℕ → Bool
unfolding has
is_approver m = has m Mode.approve

unfoldable pub is_admin : ℕ → Bool
unfolding is_owner is_approver
is_admin m = is_owner m || is_approver m

unfoldable pub is_sharer : ℕ → Bool
unfolding is_admin has
is_sharer m = is_admin m || has m Mode.share

unfoldable pub is_writer : ℕ → Bool
unfolding has
is_writer m = has m Mode.write

unfoldable pub is_reader : ℕ → Bool
unfolding has
is_reader m = has m Mode.read

unfoldable pub is_presencer : ℕ → Bool
unfolding has
is_presencer m = has m Mode.pres

unfoldable pub is_deleter : ℕ → Bool
unfolding has
is_deleter m = has m Mode.delete

unfoldable pub is_zero : ℕ → Bool
is_zero m = m == Mode.no_access

unfoldable pub is_invalid : ℕ → Bool
is_invalid m = m == Mode.invalid

unfoldable pub is_defined : ℕ → Bool
is_defined m = not (m == Mode.invalid) && not (m == Mode.unset)
