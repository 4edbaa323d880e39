-- ===== src/Common/Tables.antt =====
-- Facts about all numbers below a small bound, checked value by value.
use Prim.Native.Nat.{ℕ, zero, suc, ◌<◌}
use mathlib.Core.Path.{◌≡◌}
use mathlib.Core.Bool.{Bool, true, false}
use native.Mathlib.Omega.{arith}
use server_chat.Common.Tests.{if◌then◌else◌}

-- Whether a test holds of each number below the bound.
unfoldable pub all_below : ℕ → (ℕ → Bool) → Bool
all_below zero test = true
all_below (suc last) test = if test last then all_below last test else false

pub all_below-holds :
    (bound : ℕ) (test : ℕ → Bool) (i : ℕ) → all_below bound test ≡ true → i < bound → test i ≡ true
unfolding all_below
all_below-holds zero test i table small = absurd (omega arith)
all_below-holds (suc last) test i table small = ground (arith, all_below-holds last test i)
