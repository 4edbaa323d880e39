-- ===== src/Uid/Words.antt =====
-- Go's `binary.LittleEndian`, as uid.go uses it on words of 64 bits.
use server_chat.Common.{
  ℕ, zero, suc, ◌+◌, ◌*◌, ◌/◌, ◌%◌, ◌^◌, ◌<◌, ◌≡◌, [], ◌∷◌, ◌++◌, All, take, arith,
}
use server_chat.Common.Bytes.{Bytes}
use server_chat.Uid.Base64.Inverse.{IsByte}
use native.Mathlib.Nat.{pow-suc}

-- The lowest bytes of a number, the lowest first.
unfoldable pub low_bytes : ℕ → ℕ → Bytes
low_bytes zero v = []
low_bytes (suc n) v = v % 256 ∷ low_bytes n (v / 256)

unfoldable pub bytes_value : Bytes → ℕ
bytes_value [] = 0
bytes_value (b ∷ bs) = b + 256 * bytes_value bs

-- PutUint64
abbrev pub put_uint64 : ℕ → Bytes
put_uint64 v = low_bytes 8 v

-- Uint64
abbrev pub uint64 : Bytes → ℕ
uint64 b = bytes_value (take 8 b)

pub low_bytes-IsByte : (n v : ℕ) → All IsByte (low_bytes n v)
unfolding low_bytes
low_bytes-IsByte zero v = tt
low_bytes-IsByte (suc n) v = (omega arith, low_bytes-IsByte n (v / 256))

pub bytes_value-low_bytes : (n v : ℕ) → v < 256 ^ n → bytes_value (low_bytes n v) ≡ v
unfolding low_bytes bytes_value
bytes_value-low_bytes zero v h = omega arith
bytes_value-low_bytes (suc n) v h =
    omega (arith, bytes_value-low_bytes n (v / 256) (omega (arith, pow-suc 256 n)))

-- A word is read back, whatever follows it.
pub uint64-put_uint64 : (v : ℕ) (rest : Bytes) → v < 2 ^ 64 → uint64 (put_uint64 v ++ rest) ≡ v
unfolding low_bytes
uint64-put_uint64 v rest h = bytes_value-low_bytes 8 v (omega arith)
