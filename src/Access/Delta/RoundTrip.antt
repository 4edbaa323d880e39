-- ===== src/Access/Delta/RoundTrip.antt =====
-- server/store/types/access_mode.go: `Delta`, and its text applied to a mode.
use server_chat.Common.{
  ℕ, zero, suc, ◌+◌, ◌<◌, ◌≡◌, ◌∙◌, refl, sym, ap, true, false, Bool, not, [], ◌∷◌, ◌++◌, ◌==◌,
  ==_iff, arith, length, bit_and, bit_or, if◌then◌else◌, length-append, append-nil,
}
use server_chat.Common.Bits.{
  ◌&^◌, digit-bit_and, digit-bit_or, digit-and_not, digit-le_one, digit-le-mask, eq_of_digits,
  bit_and-lt-pow, bit_and_comm, and_not-le, digit-zero,
}
use server_chat.Common.Bytes.{Bytes, eq_bytes}
use server_chat.Common.Tables.{all_below, all_below-holds}
use server_chat.Common.Result.{Result, ok}
use native.Mathlib.Nat.{le_refl}
use server_chat.Access.Mode
use server_chat.Access.Text.{ModeErr, parse_acs, mode_string}
use server_chat.Access.Text.RoundTrip.{parse_acs-mode_string}
use server_chat.Access.Delta.{signed, delta, has_sign, apply_chunk, apply_chunks, apply_mutation}
use server_chat.Access.Delta.Scan.{IsSigned, apply_chunks-signed, apply_chunks-fuel_eq}

plain_letters : ℕ → Bool
plain_letters m = not (has_sign (mode_string (suc m)))

plain_letters_table : all_below 255 plain_letters ≡ true
unfolding all_below plain_letters has_sign mode_string
plain_letters_table = refl

masked : ℕ → Bool
masked m = bit_and (Mode.unset + m) Mode.bitmask == m

masked_table : all_below 256 masked ≡ true
unfolding all_below masked
masked_table = refl

-- The mark `unset` is dropped by the mask.
unset_masked : (m : ℕ) → m < 256 → bit_and (Mode.unset + m) Mode.bitmask ≡ m
unfolding masked
unset_masked m h = (==_iff _ m).0 (all_below-holds 256 masked m masked_table h)

-- A text without signs that is read as the mode `x`.
abbrev Reads : Bytes → ℕ → Type 0
Reads s x = (has_sign s ≡ false) × (parse_acs s ≡ ok (Mode.unset + x)) × (x < 256)

mode_string-Reads : (x : ℕ) → x < 255 → Reads (mode_string (suc x)) (suc x)
unfolding plain_letters
mode_string-Reads x h = (
  (let t = all_below-holds 255 plain_letters x plain_letters_table h in ground arith),
  parse_acs-mode_string x h,
  omega arith,
)

apply_chunk-plus :
    (m x : ℕ) → suc x < 256 → apply_chunk m b'+' (Mode.unset + suc x) ≡ ok (bit_or m (suc x))
unfolding apply_chunk
apply_chunk-plus m x h = rw (unset_masked (suc x) h) (ground arith)

apply_chunk-minus :
    (m x : ℕ) → suc x < 256 → apply_chunk m b'-' (Mode.unset + suc x) ≡ ok (m &^ suc x)
unfolding apply_chunk
apply_chunk-minus m x h = rw (unset_masked (suc x) h) (ground arith)

added :
    (fuel m x : ℕ) (s rest : Bytes)
    → Reads s (suc x)
    → IsSigned rest
    → apply_chunks (suc fuel) m (signed b'+' s ++ rest) ≡ apply_chunks fuel (bit_or m (suc x)) rest
unfolding parse_acs
added fuel m x [] rest r i = absurd (ground arith)
added fuel m x (c ∷ s) rest r i =
    apply_chunks-signed fuel m b'+' c _ s rest r.0 i r.1 ∙ rw (apply_chunk-plus m x r.2)

removed :
    (fuel m x : ℕ) (s rest : Bytes)
    → Reads s (suc x)
    → IsSigned rest
    → apply_chunks (suc fuel) m (signed b'-' s ++ rest) ≡ apply_chunks fuel (m &^ suc x) rest
unfolding parse_acs
removed fuel m x [] rest r i = absurd (ground arith)
removed fuel m x (c ∷ s) rest r i =
    apply_chunks-signed fuel m b'-' c _ s rest r.0 i r.1 ∙ rw (apply_chunk-minus m x r.2)

-- The text of a delta that adds `x` and removes `y`.
abbrev delta_text : ℕ → ℕ → Bytes
delta_text zero zero = []
delta_text (suc x) zero = signed b'+' (mode_string (suc x)) ++ []
delta_text zero (suc y) = signed b'-' (mode_string (suc y))
delta_text (suc x) (suc y) = signed b'+' (mode_string (suc x)) ++ signed b'-' (mode_string (suc y))

-- The rest of a text after its first chunk, with one round of fuel per byte.
abbrev finish : ℕ → Bytes → Result ModeErr ℕ
finish m rest = apply_chunks (length rest) m rest

finish-fuel_eq :
    (m : ℕ) (s rest : Bytes) → apply_chunks (suc (length (s ++ rest))) m rest ≡ finish m rest
finish-fuel_eq m s rest =
    apply_chunks-fuel_eq _ _ m rest (omega (arith, length-append s rest)) (le_refl _)

mutation_plus : (m : ℕ) (s : Bytes) → apply_mutation m (b'+' ∷ s) ≡ finish m (b'+' ∷ s)
unfolding apply_mutation eq_bytes
mutation_plus m s = refl

mutation_minus : (m : ℕ) (s : Bytes) → apply_mutation m (b'-' ∷ s) ≡ finish m (b'-' ∷ s)
unfolding apply_mutation eq_bytes
mutation_minus m s = refl

mutation_added :
    (m x : ℕ) (s rest : Bytes)
    → Reads s (suc x)
    → IsSigned rest
    → apply_mutation m (signed b'+' s ++ rest) ≡ finish (bit_or m (suc x)) rest
mutation_added m x [] rest r i = absurd (unfold parse_acs in ground arith)
mutation_added m x (c ∷ s) rest r i =
    mutation_plus m (c ∷ s ++ rest)
    ∙ added (suc (length (s ++ rest))) m x (c ∷ s) rest r i
    ∙ finish-fuel_eq (bit_or m (suc x)) s rest

mutation_removed :
    (m x : ℕ) (s rest : Bytes)
    → Reads s (suc x)
    → IsSigned rest
    → apply_mutation m (signed b'-' s ++ rest) ≡ finish (m &^ suc x) rest
mutation_removed m x [] rest r i = absurd (unfold parse_acs in ground arith)
mutation_removed m x (c ∷ s) rest r i =
    mutation_minus m (c ∷ s ++ rest)
    ∙ removed (suc (length (s ++ rest))) m x (c ∷ s) rest r i
    ∙ finish-fuel_eq (m &^ suc x) s rest

finish_nil : (m : ℕ) → finish m [] ≡ ok m
unfolding apply_chunks
finish_nil m = refl

finish_removed :
    (m x : ℕ) (s : Bytes) → Reads s (suc x) → finish m (signed b'-' s) ≡ ok (m &^ suc x)
finish_removed m x [] r = absurd (unfold parse_acs in ground arith)
finish_removed m x (c ∷ s) r =
    ap (finish m) (sym (append-nil (b'-' ∷ c ∷ s)))
    ∙ removed (suc (length (s ++ []))) m x (c ∷ s) [] r tt
    ∙ finish-fuel_eq (m &^ suc x) s []
    ∙ finish_nil (m &^ suc x)

signed-IsSigned : (s : Bytes) → IsSigned (signed b'-' s)
signed-IsSigned [] = tt
signed-IsSigned (c ∷ s) = refl

module _ (m : ℕ) where
  or_zero : bit_or m 0 ≡ m
  or_zero = eq_of_digits _ _ (λ k. omega (arith, digit-bit_or k m 0, digit-zero k))

  and_not_zero : m &^ 0 ≡ m
  and_not_zero = eq_of_digits _ _ (λ k. omega (arith, digit-and_not k m 0, digit-zero k))

delta_text-applies :
    (m x y : ℕ) → x < 256 → y < 256 → apply_mutation m (delta_text x y) ≡ ok (bit_or m x &^ y)
delta_text-applies m zero zero p q = rw (or_zero m, and_not_zero m) (unfold apply_mutation in refl)
delta_text-applies m (suc x) zero p q =
    mutation_added m x _ [] (mode_string-Reads x (omega arith)) tt
    ∙ finish_nil (bit_or m (suc x))
    ∙ ap ok (sym (and_not_zero (bit_or m (suc x))))
delta_text-applies m zero (suc y) p q = rw (← append-nil (signed b'-' (mode_string (suc y)))) (
    mutation_removed m y _ [] (mode_string-Reads y (omega arith)) tt
    ∙ finish_nil (m &^ suc y)
    ∙ ap (λ t. ok (t &^ suc y)) (sym (or_zero m)))
delta_text-applies m (suc x) (suc y) p q =
    mutation_added m x _ _ (mode_string-Reads x (omega arith))
      (signed-IsSigned (mode_string (suc y)))
    ∙ finish_removed (bit_or m (suc x)) y _ (mode_string-Reads y (omega arith))

suc-eq-zero : (x : ℕ) → (suc x == 0) ≡ false
suc-eq-zero x = ground arith

delta-eq-text :
    (o n : ℕ) → delta o n ≡ delta_text (bit_and Mode.bitmask n &^ o) (bit_and Mode.bitmask o &^ n)
unfolding delta
delta-eq-text o n = go (bit_and Mode.bitmask n &^ o) (bit_and Mode.bitmask o &^ n)
  where
    go :
        (x y : ℕ)
        → (if x == 0 then [] else signed b'+' (mode_string x))
            ++ (if y == 0 then [] else signed b'-' (mode_string y))
          ≡ delta_text x y
    go zero zero = refl
    go (suc x) zero = rw (suc-eq-zero x)
    go zero (suc y) = rw (suc-eq-zero y)
    go (suc x) (suc y) = rw (suc-eq-zero x, suc-eq-zero y)

masked_diff-lt : (a b : ℕ) → (bit_and Mode.bitmask a &^ b) < 256
masked_diff-lt a b =
    let small : bit_and Mode.bitmask a < 256 =
      rw bit_and_comm (bit_and-lt-pow 8 a 255 (omega arith)) in
    omega (arith, and_not-le (bit_and Mode.bitmask a) b, small)

diff_applied :
    (o n : ℕ)
    → o < 256
    → n < 256
    → (bit_or o (bit_and Mode.bitmask n &^ o) &^ (bit_and Mode.bitmask o &^ n)) ≡ n
diff_applied o n p q = eq_of_digits _ _ λ k.
    rw (digit-and_not, digit-bit_or, digit-and_not, digit-bit_and, digit-and_not, digit-bit_and)
      (omega (
        arith,
        digit-le-mask 8 k o p,
        digit-le-mask 8 k n q,
        digit-le_one k o,
        digit-le_one k n,
        digit-le_one k Mode.bitmask,
      ))

-- The text of the difference of two modes of permission bits, applied to the first one, gives the
-- second one.
pub apply_mutation-delta : (o n : ℕ) → o < 256 → n < 256 → apply_mutation o (delta o n) ≡ ok n
apply_mutation-delta o n p q = rw (delta-eq-text o n) (
    delta_text-applies o _ _ (masked_diff-lt n o) (masked_diff-lt o n)
    ∙ ap ok (diff_applied o n p q))
