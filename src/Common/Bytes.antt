-- ===== src/Common/Bytes.antt =====
-- Text as a list of bytes, with the parts of Go's `strings` that the program uses. The texts that
-- the program compares and scans are ASCII.
use Prim.Native.Char.{code}
use Prim.Native.String.{String}
use Prim.Native.Nat.{ℕ, ◌+◌}
use mathlib.Core.Path.{◌≡◌, refl}
use mathlib.Core.Bool.{Bool, true, false, ◌&&◌, ◌||◌}
use mathlib.Core.Logic.{◌↔◌}
use mathlib.Core.List.{List, [], ◌∷◌}
use native.Mathlib.Omega.{arith}
use Prim.Native.Nat.{◌+◌}
use server_chat.Common.Tests.{leb, ◌==◌, if◌then◌else◌}

abbrev pub Bytes : Type 0
Bytes = List ℕ

-- The bytes of an ASCII literal.
abbrev pub codes : String → Bytes
codes String.[] = []
codes (String.◌∷◌ c s) = code c ∷ codes s

unfoldable pub eq_bytes : Bytes → Bytes → Bool
eq_bytes [] [] = true
eq_bytes (a ∷ s) (b ∷ t) = a == b && eq_bytes s t
eq_bytes _ _ = false

pub eq_bytes_iff : (s t : Bytes) → (eq_bytes s t ≡ true) ↔ (s ≡ t)
unfolding eq_bytes
eq_bytes_iff [] [] = (λ h. refl, λ h. refl)
eq_bytes_iff [] (b ∷ t) = (λ h. cc, λ h. cc)
eq_bytes_iff (a ∷ s) [] = (λ h. cc, λ h. cc)
eq_bytes_iff (a ∷ s) (b ∷ t) = ground (arith, eq_bytes_iff s t)

-- strings.ToLower on ASCII.
unfoldable pub to_lower : Bytes → Bytes
to_lower [] = []
to_lower (c ∷ s) = (if leb b'A' c && leb c b'Z' then c + 32 else c) ∷ to_lower s

abbrev is_space : ℕ → Bool
is_space c = (leb 9 c && leb c 13) || c == 32

trim_left : Bytes → Bytes
trim_left [] = []
trim_left (c ∷ s) = if is_space c then trim_left s else c ∷ s

trim_right : Bytes → Bytes
trim_right [] = []
trim_right (c ∷ s) =
    let rest = trim_right s in if is_space c && eq_bytes rest [] then [] else c ∷ rest

-- strings.TrimSpace on ASCII.
unfoldable pub trim_space : Bytes → Bytes
unfolding trim_left trim_right eq_bytes
trim_space s = trim_right (trim_left s)
