-- ===== src/Access/Delta/Chunks.antt =====
-- server/store/types/access_mode.go: `ApplyDelta` against its text read as signed chunks.
use server_chat.Common.{
  ℕ, zero, suc, ◌≤◌, ◌≡◌, refl, sym, ap, Bool-cases, inl, inr, true, false, List, [], ◌∷◌, arith,
  length, if◌then◌else◌,
}
use mathlib.Core.Path.{fun_ext}
use server_chat.Common.Bytes.{Bytes, codes, eq_bytes}
use server_chat.Common.Result.{Result, ok, ◌>>=◌}
use server_chat.Access.Delta.{is_sign, cut, apply_chunk, apply_chunks, apply_delta}
use server_chat.Access.Delta.Scan.{IsSigned, length-cut}
use server_chat.Access.Text.{ModeErr, parse_acs, parse_from}

-- The text before the first sign, and each sign with the text up to the next one.
unfoldable pub signed_chunks : Bytes → Bytes × List (ℕ × Bytes)
signed_chunks [] = ([], [])
signed_chunks (c ∷ s) =
    let rest = signed_chunks s in
    if is_sign c then ([], (c, rest.0) ∷ rest.1) else (c ∷ rest.0, rest.1)

-- The first byte is taken for a sign, whatever it is.
abbrev pub all_chunks : Bytes → List (ℕ × Bytes)
all_chunks [] = []
all_chunks (sign ∷ s) = (sign, (signed_chunks s).0) ∷ (signed_chunks s).1

-- The chunks are applied one after another, up to the first error.
unfoldable pub apply_all : ℕ → List (ℕ × Bytes) → Result ModeErr ℕ
apply_all m [] = ok m
apply_all m ((sign, chunk) ∷ chunks) =
    parse_acs chunk >>= λ upd. apply_chunk m sign upd >>= λ m1. apply_all m1 chunks

-- A text of one byte changes nothing, whatever the byte is.
abbrev pub applied : ℕ → Bytes → Result ModeErr ℕ
applied m (c ∷ d ∷ s) = apply_all m (all_chunks (c ∷ d ∷ s))
applied m _ = ok m

signed_chunks-cut :
    (s : Bytes) → (signed_chunks s ≡ ((cut s).0, all_chunks (cut s).1)) × IsSigned (cut s).1
unfolding signed_chunks cut
signed_chunks-cut [] = (refl, tt)
signed_chunks-cut (c ∷ s) =
    let (e, h) = signed_chunks-cut s in
    elim (Bool-cases (is_sign c)) [ inl k ↦ rw k (refl, k) | inr k ↦ rw (k, e) (refl, h) ]

-- A last sign has nothing to apply.
apply_all-last : (m c : ℕ) → is_sign c ≡ true → apply_all m ((c, []) ∷ []) ≡ ok m
unfolding apply_all apply_chunk parse_acs parse_from
apply_all-last m c h = ground arith

-- One round of the loop, where the loop goes on as it should.
round :
    (fuel m ch c : ℕ) (s : Bytes)
    → ((m1 : ℕ) → apply_chunks fuel m1 (cut (c ∷ s)).1 ≡ apply_all m1 (all_chunks (cut (c ∷ s)).1))
    → apply_chunks (suc fuel) m (ch ∷ c ∷ s) ≡ apply_all m (all_chunks (ch ∷ c ∷ s))
unfolding apply_chunks apply_all
round fuel m ch c s h = rw (signed_chunks-cut (c ∷ s)).0 (
    ap
      (λ (k : ℕ → Result ModeErr ℕ).
        parse_acs (cut (c ∷ s)).0 >>= λ upd. apply_chunk m ch upd >>= k)
      (fun_ext h))

loop :
    (fuel m : ℕ) (s : Bytes)
    → length s ≤ fuel
    → IsSigned s
    → apply_chunks fuel m s ≡ apply_all m (all_chunks s)
unfolding apply_chunks apply_all signed_chunks
loop zero m [] h i = refl
loop zero m (c ∷ s) h i = absurd (omega arith)
loop (suc fuel) m [] h i = refl
loop (suc fuel) m (c ∷ []) h i = sym (apply_all-last m c i)
loop (suc fuel) m (ch ∷ c ∷ s) h i = round fuel m ch c s λ m1.
    loop fuel m1 (cut (c ∷ s)).1 (omega (arith, length-cut (c ∷ s))) (signed_chunks-cut (c ∷ s)).1

-- `ApplyDelta` leaves a mode as it is for a text of one byte or none, and for any other text it
-- applies in order, up to the first error, each sign with the text up to the next sign; the first
-- byte is taken for a sign, whatever it is.
pub apply_delta-applied : (m : ℕ) (s : Bytes) → apply_delta m s ≡ applied m s
unfolding apply_delta eq_bytes
apply_delta-applied m [] = refl
apply_delta-applied m (c ∷ []) = ground arith
apply_delta-applied m (ch ∷ c ∷ s) =
    let two_bytes : eq_bytes (ch ∷ c ∷ s) (codes "N") ≡ false = ground arith in
    rw two_bytes (
      round (suc (length s)) m ch c s λ m1.
        loop (suc (length s)) m1 (cut (c ∷ s)).1 (omega (arith, length-cut (c ∷ s)))
          (signed_chunks-cut (c ∷ s)).1)
