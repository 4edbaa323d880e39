-- ===== src/Ranges/Single.antt =====
-- What `SliceToRanges` makes of a list of ids.
use mathlib.Core.List.{reverse, map, reverse-cons, reverse-reverse}
use server_chat.Common.{
  ℕ, ◌<◌, ◌≡◌, refl, ap, ◌∙◌, List, [], ◌∷◌, ◌++◌, All, arith, append_assoc, append-nil, sym, false,
}
use server_chat.Ranges.{Range, single, extends, slice_loop, slice_to_ranges}

opens_new : (prev : Range) (id : ℕ) → prev.hi ≡ 0 → 0 < id → extends prev id ≡ false
unfolding extends
opens_new prev id e h = ground arith

shift :
    (id : ℕ) (ids : List ℕ) (out : List Range)
    → reverse (map single ids) ++ single id ∷ out ≡ reverse (map single (id ∷ ids)) ++ out
shift id ids out =
    sym (append_assoc (reverse (map single ids)) (single id ∷ []) out)
    ∙ ap (λ t. t ++ out) (sym (reverse-cons (single id) (map single ids)))

slice_loop-single :
    (out : List Range) (ids : List ℕ)
    → All (λ (r : Range). r.hi ≡ 0) out
    → All (λ id. 0 < id) ids
    → slice_loop out ids ≡ reverse (map single ids) ++ out
unfolding slice_loop
slice_loop-single out [] s h = refl
slice_loop-single [] (id ∷ ids) s h =
    slice_loop-single (single id ∷ []) ids (refl, tt) h.1 ∙ shift id ids []
slice_loop-single (prev ∷ out) (id ∷ ids) s h =
    rw (opens_new prev id s.0 h.0)
      (slice_loop-single (single id ∷ prev ∷ out) ids (refl, s) h.1 ∙ shift id ids (prev ∷ out))

-- For positive ids `SliceToRanges` gives one range for each id, in order, also where ids follow one
-- another.
pub slice_to_ranges-single :
    (ids : List ℕ) → All (λ id. 0 < id) ids → slice_to_ranges ids ≡ map single ids
unfolding slice_to_ranges
slice_to_ranges-single ids h =
    ap reverse (slice_loop-single [] ids tt h)
    ∙ ap reverse (append-nil (reverse (map single ids)))
    ∙ reverse-reverse (map single ids)
