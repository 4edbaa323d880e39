-- ===== src/Uid/Base64/Inverse.antt =====
-- Go's package `encoding/base64`: `Decode` after `Encode`.
use server_chat.Common.{
  ℕ, ◌+◌, ◌*◌, ◌/◌, ◌%◌, ◌<◌, ◌≡◌, refl, true, false, ◌||◌, some, [], ◌∷◌, ◌==◌, All, arith,
}
use server_chat.Common.Bytes.{Bytes}
use server_chat.Uid.Base64.{digit_char, char_digit, encode, decode_groups, strip_newlines, decode}

abbrev pub IsByte : ℕ → Type 0
IsByte b = b < 256

pub char_digit-digit_char : (d : ℕ) → d < 64 → char_digit (digit_char d) ≡ some d
unfolding char_digit digit_char
char_digit-digit_char d h = ground arith

digit_char-printable : (d : ℕ) → (digit_char d == 10 || digit_char d == 13) ≡ false
unfolding digit_char
digit_char-printable d = ground arith

pub strip_newlines-encode : (bs : Bytes) → strip_newlines (encode bs) ≡ encode bs
unfolding strip_newlines encode
strip_newlines-encode [] = refl
strip_newlines-encode (a ∷ []) = simp digit_char-printable
strip_newlines-encode (a ∷ b ∷ []) = simp digit_char-printable
strip_newlines-encode (a ∷ b ∷ c ∷ rest) = simp (digit_char-printable, strip_newlines-encode rest)

pub decode_groups-encode :
    (bs : Bytes) → All IsByte bs → decode_groups (encode bs) ≡ record { written = bs; fine = true }
unfolding decode_groups encode
decode_groups-encode [] h = refl
decode_groups-encode (a ∷ []) (ha, _) =
    let p = char_digit-digit_char (a / 4) (omega arith) in
    let q = char_digit-digit_char (a % 4 * 16) (omega arith) in rw (p, q) (ground arith)
decode_groups-encode (a ∷ b ∷ []) (ha, (hb, _)) =
    let p = char_digit-digit_char (a / 4) (omega arith) in
    let q = char_digit-digit_char (a % 4 * 16 + b / 16) (omega arith) in
    let r = char_digit-digit_char (b % 16 * 4) (omega arith) in rw (p, q, r) (ground arith)
decode_groups-encode (a ∷ b ∷ c ∷ rest) (ha, (hb, (hc, hs))) =
    let p = char_digit-digit_char (a / 4) (omega arith) in
    let q = char_digit-digit_char (a % 4 * 16 + b / 16) (omega arith) in
    let r = char_digit-digit_char (b % 16 * 4 + c / 64) (omega arith) in
    let s = char_digit-digit_char (c % 64) (omega arith) in
    rw (p, q, r, s, decode_groups-encode rest hs) (ground arith)

-- Bytes are read back from their text.
pub decode-encode :
    (bs : Bytes) → All IsByte bs → decode (encode bs) ≡ record { written = bs; fine = true }
unfolding decode
decode-encode bs h = rw strip_newlines-encode (decode_groups-encode bs h)
