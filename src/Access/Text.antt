-- ===== src/Access/Text.antt =====
-- The textual form of a mode, of server/store/types/access_mode.go: one letter for each bit.
pub mod RoundTrip
use server_chat.Common.{
  ℕ, ◌+◌, ◌^◌, bit_and, bit_or, Bool, ◌||◌, List, [], ◌∷◌, ◌++◌, ◌==◌, if◌then◌else◌,
}
use server_chat.Common.Bits.{◌&^◌}
use server_chat.Common.Bytes.{Bytes}
use server_chat.Common.Result.{Result, ok, err, ◌>>=◌}
use server_chat.Access.Mode

-- The error values; `invalid_delta` quotes the text, which is left out.
pub data ModeErr : Type 0 where
  access_mode_invalid none_combined invalid_delta : ModeErr
  invalid_character : ℕ → ModeErr

-- The loop over `modes`: letter number `i` stands for bit `i`.
unfoldable pub letters : ℕ → ℕ → Bytes → Bytes
letters m i [] = []
letters m i (chr ∷ modes) =
    let rest = letters m (i + 1) modes in if bit_and m (2 ^ i) == 0 then rest else chr ∷ rest

abbrev pub mode_letters : Bytes
mode_letters = b'J' ∷ b'R' ∷ b'W' ∷ b'P' ∷ b'A' ∷ b'S' ∷ b'D' ∷ b'O' ∷ []

-- MarshalText
unfoldable pub marshal_text : ℕ → Result ModeErr Bytes
unfolding letters
marshal_text m =
    if m == Mode.no_access
    then ok (b'N' ∷ [])
    else if m == Mode.invalid
    then err access_mode_invalid
    else ok (letters m 0 mode_letters)

-- String: an error gives the empty text.
unfoldable pub mode_string : ℕ → Bytes
unfolding marshal_text
mode_string m = elim (marshal_text m) [ ok res ↦ res | err e ↦ [] ]

abbrev either : ℕ → ℕ → ℕ → Bool
either c upper lower = c == upper || c == lower

-- What one byte does to `m0`: the mode that it adds, or a stop.
pub data Letter : Type 0 where
  flag : ℕ → Letter
  no_flags : Letter
  unknown : Letter

unfoldable pub classify : ℕ → Letter
classify c =
    if either c b'J' b'j'
    then flag Mode.join
    else if either c b'R' b'r'
    then flag Mode.read
    else if either c b'W' b'w'
    then flag Mode.write
    else if either c b'A' b'a'
    then flag Mode.approve
    else if either c b'S' b's'
    then flag Mode.share
    else if either c b'D' b'd'
    then flag Mode.delete
    else if either c b'P' b'p'
    then flag Mode.pres
    else if either c b'O' b'o'
    then flag Mode.owner
    else if either c b'N' b'n'
    then no_flags
    else unknown

-- The loop of `ParseAcs`. `N` as the first letter ends it: what follows is not read.
unfoldable pub parse_from : ℕ → Bytes → Result ModeErr ℕ
unfolding classify
parse_from m0 [] = ok m0
parse_from m0 (c ∷ b) = elim (classify c) [
  | flag bit ↦ parse_from (bit_or m0 bit) b
  | no_flags ↦ if m0 == Mode.unset then ok Mode.no_access else err none_combined
  | unknown ↦ err (invalid_character c)
]

unfoldable pub parse_acs : Bytes → Result ModeErr ℕ
unfolding parse_from
parse_acs b = parse_from Mode.unset b

-- UnmarshalText: the new value of `*m`.
unfoldable pub unmarshal_text : ℕ → Bytes → Result ModeErr ℕ
unfolding parse_acs
unmarshal_text m b =
    parse_acs b >>= λ m0. ok (if m0 == Mode.unset then m else bit_and m0 Mode.bitmask)
