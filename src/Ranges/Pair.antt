-- ===== src/Ranges/Pair.antt =====
-- What `Normalize` does to a list of two sorted ranges.
use server_chat.Common.{
  ℕ, inl, inr, ◌+◌, ◌≤◌, ◌<◌, ◌≡◌, ◌⊎◌, [], ◌∷◌, arith, Bool, true, ◌||◌, ◌&&◌, ◌==◌, ltb,
}
use native.Mathlib.Decide.{dec_lt}
use server_chat.Ranges.{Range, less, covered, merge_step, normalize}
use server_chat.Ranges.Merge.{Apart, IsRange, Touches}

-- The three outcomes of a list of two.
module _ (r s : Range) where
  pair_inside :
      r.low ≡ s.low ⊎ r.low < s.low × s.low ≤ r.hi + 1 × 0 < r.hi
      → s.hi ≤ r.hi
      → normalize (r ∷ s ∷ []) ≡ r ∷ []
  unfolding normalize merge_step
  pair_inside e h = ground arith

  pair_longer :
      r.low < s.low
      → 0 < r.hi
      → s.low ≤ r.hi + 1
      → r.hi < s.hi
      → normalize (r ∷ s ∷ []) ≡ record r { hi = s.hi } ∷ []
  unfolding normalize merge_step
  pair_longer l p q m = ground arith

  pair-Apart : Apart r s → normalize (r ∷ s ∷ []) ≡ r ∷ s ∷ []
  unfolding normalize merge_step
  pair-Apart h = ground arith

-- The id between two ranges that the merge swallows.
abbrev pub between : Range → Range → ℕ → Bool
between r s id = ltb 0 r.hi && s.low == r.hi + 1 && id == r.hi

inside_covers :
    (r s : Range) (id : ℕ)
    → r.low < s.low
    → s.low < r.hi
    → s.hi ≡ 0
    → covered (r ∷ []) id ≡ (covered (r ∷ s ∷ []) id || between r s id)
inside_covers r s id l p e = ground arith

module _ (r s : Range) (id : ℕ) (l : r.low < s.low) (p : 0 < r.hi) (q : s.low ≤ r.hi + 1)
    (hs : s.low < s.hi) (hr : r.low < r.hi) where
  longer_covers :
      r.hi < s.hi
      → covered (record r { hi = s.hi } ∷ []) id ≡ (covered (r ∷ s ∷ []) id || between r s id)
  longer_covers m = ground arith

  shorter_covers : s.hi ≤ r.hi → covered (r ∷ []) id ≡ (covered (r ∷ s ∷ []) id || between r s id)
  shorter_covers m = ground arith

same_covers :
    (r s : Range) (id : ℕ)
    → IsRange r
    → IsRange s
    → r.low ≡ s.low
    → s.hi ≤ r.hi
    → covered (r ∷ []) id ≡ (covered (r ∷ s ∷ []) id || between r s id)
same_covers r s id hr hs e h = ground arith

Apart-covers :
    (r s : Range) (id : ℕ)
    → Apart r s
    → covered (r ∷ s ∷ []) id ≡ (covered (r ∷ s ∷ []) id || between r s id)
Apart-covers r s id h = grind arith

-- How two sorted ranges may lie.
data Lie (r s : Range) : Type 0 where
  same : r.low ≡ s.low → s.hi ≤ r.hi → Lie r s
  inside : r.low < s.low → s.low < r.hi → s.hi ≡ 0 → Lie r s
  shorter : r.low < s.low → 0 < r.hi → s.low ≤ r.hi + 1 → s.low < s.hi → s.hi ≤ r.hi → Lie r s
  longer : r.low < s.low → 0 < r.hi → s.low ≤ r.hi + 1 → s.low < s.hi → r.hi < s.hi → Lie r s
  apart : Apart r s → Lie r s

less-parts : (r s : Range) → less r s ≡ true → r.low < s.low ⊎ r.low ≡ s.low × s.hi ≤ r.hi
unfolding less
less-parts r s h = ground arith

Lie-near :
    (r s : Range)
    → r.low < s.low
    → 0 < r.hi
    → s.low ≤ r.hi + 1
    → IsRange s
    → ¬ Touches r s
    → Lie r s
Lie-near r s l p q (inl e) n =
    inside l (elim (dec_lt s.low r.hi) [ yes v ↦ v | no v ↦ absurd (n (p, e, omega arith, q)) ]) e
Lie-near r s l p q (inr v) n = elim (dec_lt r.hi s.hi) [
  | yes m ↦ longer l p q v m
  | no m ↦ shorter l p q v (omega arith)
]

Lie-after : (r s : Range) → r.low < s.low → IsRange s → ¬ Touches r s → Lie r s
Lie-after r s l hs n = elim (dec_lt 0 r.hi) [
  | yes p ↦ (elim (dec_lt (r.hi + 1) s.low) [
    | yes a ↦ apart (l, inr a)
    | no q ↦ Lie-near r s l p (omega arith) hs n
  ])
  | no p ↦ apart (l, inl (omega arith))
]

lie : (r s : Range) → IsRange s → less r s ≡ true → ¬ Touches r s → Lie r s
lie r s hs h n = elim (less-parts r s h) [ inl l ↦ Lie-after r s l hs n | inr (e, m) ↦ same e m ]

-- For two ranges in sorted order, the second not a single id at the end of the first or just behind
-- it, `Normalize` covers the ids that the two cover, and the one id between them if the second
-- begins right after the end of the first.
pub normalize_two :
    (r s : Range) (id : ℕ)
    → IsRange r
    → IsRange s
    → less r s ≡ true
    → ¬ Touches r s
    → covered (normalize (r ∷ s ∷ [])) id ≡ (covered (r ∷ s ∷ []) id || between r s id)
normalize_two r s id hr hs h n = elim (lie r s hs h n) [
  | same e m ↦ rw (pair_inside r s (inl e) m) (same_covers r s id hr hs e m)
  | inside l p e ↦
      rw (pair_inside r s (inr (l, omega arith, omega arith)) (omega arith))
        (inside_covers r s id l p e)
  | shorter l p q v m ↦
      rw (pair_inside r s (inr (l, q, p)) m) (shorter_covers r s id l p q v (omega arith) m)
  | longer l p q v m ↦ rw (pair_longer r s l p q m) (longer_covers r s id l p q v (omega arith) m)
  | apart a ↦ rw (pair-Apart r s a) (Apart-covers r s id a)
]
