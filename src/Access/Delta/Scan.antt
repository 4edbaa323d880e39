-- ===== src/Access/Delta/Scan.antt =====
-- server/store/types/access_mode.go: how `ApplyDelta` cuts its text into chunks, and the fuel it needs.
use mathlib.Core.Path.{fun_ext}
use server_chat.Common.{ℕ, zero, suc, ◌≤◌, ◌≡◌, refl, ap, true, false, [], ◌∷◌, ◌++◌, arith, length}
use server_chat.Common.Bytes.{Bytes}
use server_chat.Common.Result.{Result, ok, ◌>>=◌}
use server_chat.Access.Delta.{is_sign, has_sign, cut, apply_chunk, apply_chunks}
use server_chat.Access.Text.{ModeErr, parse_acs}

pub length-cut : (s : Bytes) → length (cut s).1 ≤ length s
unfolding cut
length-cut [] = omega arith
length-cut (c ∷ s) = ground (arith, length-cut s)

-- Any two amounts of fuel that are at least the length of the text give the loop of `ApplyDelta`
-- the same result.
pub apply_chunks-fuel_eq :
    (f g m : ℕ) (s : Bytes) → length s ≤ f → length s ≤ g → apply_chunks f m s ≡ apply_chunks g m s
unfolding apply_chunks
apply_chunks-fuel_eq zero zero m s p q = refl
apply_chunks-fuel_eq zero (suc g) m [] p q = refl
apply_chunks-fuel_eq zero (suc g) m (c ∷ s) p q = absurd (omega arith)
apply_chunks-fuel_eq (suc f) zero m [] p q = refl
apply_chunks-fuel_eq (suc f) zero m (c ∷ s) p q = absurd (omega arith)
apply_chunks-fuel_eq (suc f) (suc g) m [] p q = refl
apply_chunks-fuel_eq (suc f) (suc g) m (ch ∷ []) p q = refl
apply_chunks-fuel_eq (suc f) (suc g) m (ch ∷ c ∷ s) p q =
    ap
      (λ (k : ℕ → Result ModeErr ℕ).
        parse_acs (cut (c ∷ s)).0 >>= λ upd. apply_chunk m ch upd >>= k)
      (fun_ext λ m1.
        apply_chunks-fuel_eq f g m1 (cut (c ∷ s)).1 (omega (arith, length-cut (c ∷ s)))
          (omega (arith, length-cut (c ∷ s))))

-- A text that is empty or begins with a sign.
abbrev pub IsSigned : Bytes → Type 0
IsSigned [] = Unit
IsSigned (c ∷ s) = is_sign c ≡ true

cut_at_sign : (s rest : Bytes) → has_sign s ≡ false → IsSigned rest → cut (s ++ rest) ≡ (s, rest)
unfolding cut has_sign
cut_at_sign [] [] h r = refl
cut_at_sign [] (c ∷ rest) h r = rw r
cut_at_sign (c ∷ s) rest h r = ground (arith, cut_at_sign s rest)

-- One round: a chunk without signs is parsed, applied, and the scan goes on after it.
pub apply_chunks-signed :
    (fuel m sign c upd : ℕ) (s rest : Bytes)
    → has_sign (c ∷ s) ≡ false
    → IsSigned rest
    → parse_acs (c ∷ s) ≡ ok upd
    → apply_chunks (suc fuel) m (sign ∷ c ∷ s ++ rest)
      ≡ (apply_chunk m sign upd >>= λ m1. apply_chunks fuel m1 rest)
unfolding apply_chunks
apply_chunks-signed fuel m sign c upd s rest h r e = rw (cut_at_sign (c ∷ s) rest h r, e) refl
