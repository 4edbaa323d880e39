-- ===== src/Access/Delta/Bounds.antt =====
-- server/store/types/access_mode.go: the range of what `ApplyMutation` gives.
use server_chat.Common.{
  ℕ, zero, suc, ◌<◌, ◌≡◌, Bool-cases, [], ◌∷◌, ◌||◌, arith, length, inl, inr, bit_and,
}
use server_chat.Common.Bits.{bit_and-lt-pow, bit_or-lt-pow, and_not-le}
use server_chat.Common.Bytes.{Bytes, codes, eq_bytes}
use server_chat.Common.Result.{ok, >>=-eq-ok}
use server_chat.Access.Mode
use server_chat.Access.Text.{parse_acs, unmarshal_text}
use server_chat.Access.Delta.{has_sign, cut, apply_chunk, apply_chunks, apply_delta, apply_mutation}

masked-lt : (m : ℕ) → bit_and m Mode.bitmask < 256
masked-lt m = bit_and-lt-pow 8 m Mode.bitmask (omega arith)

unmarshal_text-lt : (m : ℕ) (b : Bytes) {n : ℕ} → m < 256 → unmarshal_text m b ≡ ok n → n < 256
unfolding unmarshal_text
unmarshal_text-lt m b h e =
    let (m0, _, e1) = >>=-eq-ok (parse_acs b) _ e in ground (arith, masked-lt m0)

apply_chunk-lt : (m ch upd : ℕ) {n : ℕ} → m < 256 → apply_chunk m ch upd ≡ ok n → n < 256
unfolding apply_chunk
apply_chunk-lt m ch upd h e = ground (
  arith,
  masked-lt upd,
  bit_or-lt-pow 8 m (bit_and upd Mode.bitmask) h (masked-lt upd),
  and_not-le m (bit_and upd Mode.bitmask),
)

apply_chunks-lt :
    (fuel m : ℕ) (s : Bytes) {n : ℕ} → m < 256 → apply_chunks fuel m s ≡ ok n → n < 256
unfolding apply_chunks
apply_chunks-lt zero m s h e = ground arith
apply_chunks-lt (suc fuel) m [] h e = ground arith
apply_chunks-lt (suc fuel) m (ch ∷ []) h e = ground arith
apply_chunks-lt (suc fuel) m (ch ∷ c ∷ s) h e =
    let (upd, _, e1) = >>=-eq-ok (parse_acs (cut (c ∷ s)).0) _ e in
    let (m1, e2, e3) = >>=-eq-ok (apply_chunk m ch upd) _ e1 in
    apply_chunks-lt fuel m1 (cut (c ∷ s)).1 (apply_chunk-lt m ch upd h e2) e3

apply_delta-lt : (m : ℕ) (s : Bytes) {n : ℕ} → m < 256 → apply_delta m s ≡ ok n → n < 256
unfolding apply_delta
apply_delta-lt m s h e = elim (Bool-cases (eq_bytes s [] || eq_bytes s (codes "N"))) [
  | inl same ↦ (let e1 = rw same at e in ground arith)
  | inr other ↦ apply_chunks-lt (length s) m s h (rw other at e)
]

-- Whatever the text, if it changes a mode of permission bits without an error, then the result has
-- permission bits only.
pub apply_mutation-lt :
    (m : ℕ) (text : Bytes) {n : ℕ} → m < 256 → apply_mutation m text ≡ ok n → n < 256
unfolding apply_mutation
apply_mutation-lt m [] h e = ground arith
apply_mutation-lt m (c ∷ s) h e = elim (Bool-cases (has_sign (c ∷ s))) [
  | inl signed ↦ apply_delta-lt m (c ∷ s) h (rw signed at e)
  | inr plain ↦ unmarshal_text-lt m (c ∷ s) h (rw plain at e)
]
