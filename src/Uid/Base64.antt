-- ===== src/Uid/Base64.antt =====
-- Go's package `encoding/base64` as uid.go uses it: the URL alphabet without padding.
pub mod Inverse
use server_chat.Common.{
  ℕ, ◌+◌, ◌-◌, ◌*◌, ◌/◌, ◌%◌, Bool, true, false, not, ◌&&◌, ◌||◌, Option, none, some, List, [], ◌∷◌,
  ◌==◌, ltb, leb, if◌then◌else◌,
}
use server_chat.Common.Bytes.{Bytes}

-- The alphabet of `base64.URLEncoding`.
unfoldable pub digit_char : ℕ → ℕ
digit_char d =
    if ltb d 26
    then b'A' + d
    else if ltb d 52
    then b'a' + (d - 26)
    else if ltb d 62
    then b'0' + (d - 52)
    else if d == 62
    then b'-'
    else b'_'

unfoldable pub char_digit : ℕ → Option ℕ
char_digit c =
    if leb b'A' c && leb c b'Z'
    then some (c - b'A')
    else if leb b'a' c && leb c b'z'
    then some (c - b'a' + 26)
    else if leb b'0' c && leb c b'9'
    then some (c - b'0' + 52)
    else if c == b'-'
    then some 62
    else if c == b'_'
    then some 63
    else none

-- Encode, three bytes to four characters.
unfoldable pub encode : Bytes → Bytes
encode [] = []
encode (a ∷ []) = digit_char (a / 4) ∷ digit_char (a % 4 * 16) ∷ []
encode (a ∷ b ∷ []) =
    digit_char (a / 4) ∷ digit_char (a % 4 * 16 + b / 16) ∷ digit_char (b % 16 * 4) ∷ []
encode (a ∷ b ∷ c ∷ rest) =
    digit_char (a / 4)
    ∷ digit_char (a % 4 * 16 + b / 16)
    ∷ digit_char (b % 16 * 4 + c / 64)
    ∷ digit_char (c % 64)
    ∷ encode rest

-- What `Decode` writes, and whether it reports no error.
pub record Decoded : Type 0 where
  pub written : Bytes
  pub fine : Bool

abbrev pub stop : Decoded
stop = record { written = []; fine = false }

abbrev pub last_two : Option ℕ → Option ℕ → Decoded
last_two (some p) (some q) = record { written = (p * 4 + q / 16) ∷ []; fine = true }
last_two _ _ = stop

abbrev pub last_three : Option ℕ → Option ℕ → Option ℕ → Decoded
last_three (some p) (some q) (some r) = record {
  written = (p * 4 + q / 16) ∷ (q % 16 * 16 + r / 4) ∷ [];
  fine = true;
}
last_three _ _ _ = stop

abbrev pub whole : Option ℕ → Option ℕ → Option ℕ → Option ℕ → Decoded → Decoded
whole (some p) (some q) (some r) (some s) rest = record {
  written = (p * 4 + q / 16) ∷ (q % 16 * 16 + r / 4) ∷ (r % 4 * 64 + s) ∷ rest.written;
  fine = rest.fine;
}
whole _ _ _ _ rest = stop

-- The loop of `Decode` over groups of four characters; the unused bits of a shorter last group are
-- not checked, as the encoding is not `Strict`.
unfoldable pub decode_groups : Bytes → Decoded
decode_groups [] = record { written = []; fine = true }
decode_groups (p ∷ []) = stop
decode_groups (p ∷ q ∷ []) = last_two (char_digit p) (char_digit q)
decode_groups (p ∷ q ∷ r ∷ []) = last_three (char_digit p) (char_digit q) (char_digit r)
decode_groups (p ∷ q ∷ r ∷ s ∷ rest) =
    whole (char_digit p) (char_digit q) (char_digit r) (char_digit s) (decode_groups rest)

-- `Decode` passes over the characters CR and LF.
unfoldable pub strip_newlines : Bytes → Bytes
strip_newlines [] = []
strip_newlines (c ∷ src) =
    let rest = strip_newlines src in if c == 10 || c == 13 then rest else c ∷ rest

unfoldable pub decode : Bytes → Decoded
unfolding strip_newlines decode_groups char_digit
decode src = decode_groups (strip_newlines src)
