-- ===== src/Ranges/Merge.antt =====
-- What `Normalize` does to a sorted list of ranges.
use server_chat.Common.{
  ℕ, zero, suc, ◌+◌, ◌-◌, ◌≤◌, ◌<◌, ◌≡◌, ◌⊎◌, refl, ap, List, [], ◌∷◌, arith, length, take, true,
  false, ltb,
}
use server_chat.Ranges.{Range, at, covered, merge_step, merge_loop, normalize}

-- `s` begins after `r`, with a gap of two ids or more behind a range with an end.
abbrev pub Apart : Range → Range → Type 0
Apart r s = (r.low < s.low) × ((r.hi ≡ 0) ⊎ (r.hi + 1 < s.low))

merge_step-Apart :
    (i prev : ℕ) (rs : List Range)
    → Apart (at rs prev) (at rs i)
    → merge_step i prev rs ≡ (rs, prev + 1)
unfolding merge_step
merge_step-Apart i prev rs h = ground arith

take-length : (rs : List Range) → take (length rs) rs ≡ rs
take-length [] = refl
take-length (r ∷ rs) = ap (λ t. r ∷ t) (take-length rs)

merge_loop-Apart :
    (rounds prev : ℕ) (rs : List Range)
    → rounds + (prev + 1) ≡ length rs
    → ((j : ℕ) → j + 1 < length rs → Apart (at rs j) (at rs (j + 1)))
    → merge_loop rounds (prev + 1) prev rs ≡ rs
unfolding merge_loop
merge_loop-Apart zero prev rs e h =
    let e' : prev + 1 ≡ length rs = omega arith in rw e' (take-length rs)
merge_loop-Apart (suc rounds) prev rs e h =
    rw (merge_step-Apart (prev + 1) prev rs (h prev (omega arith)))
      (merge_loop-Apart rounds (prev + 1) rs (omega arith) h)

-- If each range begins after the one before it, with a gap behind a range that has an end,
-- `Normalize` leaves the list as it is.
pub normalize-Apart :
    (rs : List Range)
    → ((j : ℕ) → j + 1 < length rs → Apart (at rs j) (at rs (j + 1)))
    → normalize rs ≡ rs
unfolding normalize
normalize-Apart [] h = refl
normalize-Apart (r ∷ []) h = refl
normalize-Apart (r ∷ s ∷ rs) h =
    rw (more (length rs), minus (length rs))
      (merge_loop-Apart (length (s ∷ rs)) 0 (r ∷ s ∷ rs) (omega arith) h)
  where
    more : (n : ℕ) → ltb 1 (suc (suc n)) ≡ true
    more n = ground arith

    minus : (n : ℕ) → suc (suc n) - 1 ≡ suc n
    minus n = omega arith

-- A range as the handlers build it: a single id, or an end above its start.
abbrev pub IsRange : Range → Type 0
IsRange r = (r.hi ≡ 0) ⊎ (r.low < r.hi)

-- A single id at the end of a range, or just behind it.
abbrev pub Touches : Range → Range → Type 0
Touches r s = (0 < r.hi) × (s.hi ≡ 0) × (r.hi ≤ s.low) × (s.low ≤ r.hi + 1)

-- If a range is followed by a single id at its end or just behind it, the result of `Normalize`
-- does not cover that id.
pub normalize_drops :
    (r s : Range) → IsRange r → Touches r s → covered (normalize (r ∷ s ∷ [])) s.low ≡ false
unfolding normalize merge_step
normalize_drops r s hr t = ground arith

-- If a range stands twice and a third one follows with a gap, `Normalize` gives the first two, and
-- the third is lost.
pub normalize_loses : (r s : Range) → Apart r s → normalize (r ∷ r ∷ s ∷ []) ≡ r ∷ r ∷ []
unfolding normalize
normalize_loses r s h = rw (again r s) (rw (merge_step-Apart 2 0 (r ∷ r ∷ s ∷ []) h) refl)
  where
    again : (r s : Range) → merge_step 1 0 (r ∷ r ∷ s ∷ []) ≡ (r ∷ r ∷ s ∷ [], 0)
    again r s = unfold merge_step in ground arith
