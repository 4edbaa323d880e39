-- ===== src/Examples/MessageRanges.antt =====
-- Message ranges: the theorems on concrete ranges.
use server_chat.Common.{
  ℕ, ◌≡◌, inl, inr, refl, true, false, ◌||◌, List, [], ◌∷◌, arith, length, ◌+◌, ◌<◌, zero, suc,
}
use mathlib.Core.List.{map}
use server_chat.Ranges.{Range, single, less, covered, normalize, slice_to_ranges, at}
use server_chat.Ranges.Merge.{Apart, normalize-Apart, normalize_drops, normalize_loses}
use server_chat.Ranges.Pair.{between, normalize_two}
use server_chat.Ranges.Single.{slice_to_ranges-single}

abbrev range : ℕ → ℕ → Range
range low hi = record { low = low; hi = hi }

sorted : less (range 1 5) (range 6 9) ≡ true
unfolding less
sorted = refl

-- [1, 5) and [6, 9) become [1, 9), with the id 5.
normalize_two_example :
    covered (normalize (range 1 5 ∷ range 6 9 ∷ [])) 5
    ≡ (covered (range 1 5 ∷ range 6 9 ∷ []) 5 || between (range 1 5) (range 6 9) 5)
normalize_two_example =
    normalize_two (range 1 5) (range 6 9) 5 (inr (omega arith)) (inr (omega arith)) sorted
      (λ t. omega (arith, t.1))

five_dropped : covered (normalize (range 1 5 ∷ single 5 ∷ [])) 5 ≡ false
five_dropped =
    normalize_drops (range 1 5) (single 5) (inr (omega arith))
      (omega arith, refl, omega arith, omega arith)

nine_lost : normalize (single 5 ∷ single 5 ∷ single 9 ∷ []) ≡ single 5 ∷ single 5 ∷ []
nine_lost = normalize_loses (single 5) (single 9) (omega arith, inl refl)

abbrev three : List Range
three = range 1 3 ∷ single 7 ∷ range 8 9 ∷ []

three-Apart : (j : ℕ) → j + 1 < length three → Apart (at three j) (at three (j + 1))
three-Apart zero h = (omega arith, inr (omega arith))
three-Apart (suc zero) h = (omega arith, inl refl)
three-Apart (suc (suc j)) h = absurd (omega arith)

three_normal : normalize three ≡ three
three_normal = normalize-Apart three three-Apart

three_ids_apart : slice_to_ranges (4 ∷ 5 ∷ 9 ∷ []) ≡ map single (4 ∷ 5 ∷ 9 ∷ [])
three_ids_apart =
    slice_to_ranges-single (4 ∷ 5 ∷ 9 ∷ []) (omega arith, (omega arith, (omega arith, tt)))
