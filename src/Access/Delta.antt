-- ===== src/Access/Delta.antt =====
-- Differences between modes, of server/store/types/access_mode.go: `JRPAS` to `JRWS` is `+W-PA`.
pub mod Scan
pub mod RoundTrip
pub mod Bounds
pub mod Chunks
use server_chat.Common.{
  ℕ, zero, suc, bit_and, bit_or, Bool, true, false, ◌||◌, List, [], ◌∷◌, ◌++◌, ◌==◌, if◌then◌else◌,
  length,
}
use server_chat.Common.Bits.{◌&^◌}
use server_chat.Common.Bytes.{Bytes, codes, eq_bytes}
use server_chat.Common.Result.{Result, ok, err, ◌>>=◌}
use server_chat.Access.Mode
use server_chat.Access.Text.{ModeErr, invalid_delta, mode_string, parse_acs, unmarshal_text}

-- A sign before a text that is not empty.
abbrev pub signed : ℕ → Bytes → Bytes
signed sign [] = []
signed sign (c ∷ s) = sign ∷ c ∷ s

-- o.Delta(n)
unfoldable pub delta : ℕ → ℕ → Bytes
delta o n =
    let o2n = bit_and Mode.bitmask o &^ n in
    let n2o = bit_and Mode.bitmask n &^ o in
    let removed = if o2n == 0 then [] else signed b'-' (mode_string o2n) in
    let added = if n2o == 0 then [] else signed b'+' (mode_string n2o) in added ++ removed

abbrev pub is_sign : ℕ → Bool
is_sign c = c == b'+' || c == b'-'

-- strings.ContainsAny(s, "+-")
unfoldable pub has_sign : Bytes → Bool
has_sign [] = false
has_sign (c ∷ s) = is_sign c || has_sign s

-- The text before the first sign, and the text from that sign on: `chunk` and the next `next`.
unfoldable pub cut : Bytes → Bytes × Bytes
cut [] = ([], [])
cut (c ∷ s) = let (chunk, rest) = cut s in if is_sign c then ([], c ∷ s) else (c ∷ chunk, rest)

-- The `switch ch` of the loop.
unfoldable pub apply_chunk : ℕ → ℕ → ℕ → Result ModeErr ℕ
apply_chunk m0 ch upd =
    if ch == b'+'
    then ok (if upd == Mode.unset then m0 else bit_or m0 (bit_and upd Mode.bitmask))
    else if ch == b'-'
    then ok (if upd == Mode.unset then m0 else m0 &^ bit_and upd Mode.bitmask)
    else err invalid_delta

-- The loop of `ApplyDelta` on `delta[next:]`. It ends at the end of the text and before a last
-- single byte. Fuel for one round per byte is enough, since each round consumes its `ch`.
unfoldable pub apply_chunks : ℕ → ℕ → Bytes → Result ModeErr ℕ
unfolding cut apply_chunk
apply_chunks zero m0 s = ok m0
apply_chunks (suc fuel) m0 [] = ok m0
apply_chunks (suc fuel) m0 (ch ∷ []) = ok m0
apply_chunks (suc fuel) m0 (ch ∷ c ∷ s) = parse_acs (cut (c ∷ s)).0 >>= λ upd.
    apply_chunk m0 ch upd >>= λ m1. apply_chunks fuel m1 (cut (c ∷ s)).1

-- m.ApplyDelta(delta): the new value of `*m`.
unfoldable pub apply_delta : ℕ → Bytes → Result ModeErr ℕ
unfolding apply_chunks
apply_delta m text =
    if eq_bytes text [] || eq_bytes text (codes "N")
    then ok m
    else apply_chunks (length text) m text

-- m.ApplyMutation(mutation): the new value of `*m`.
unfoldable pub apply_mutation : ℕ → Bytes → Result ModeErr ℕ
unfolding apply_delta has_sign
apply_mutation m [] = ok m
apply_mutation m (c ∷ s) =
    if has_sign (c ∷ s) then apply_delta m (c ∷ s) else unmarshal_text m (c ∷ s)
