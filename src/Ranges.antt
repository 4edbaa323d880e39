-- ===== src/Ranges.antt =====
-- server/store/types/message.go: ranges of message ids. In the store a range is `[low, hi)`, and a
-- range with `hi` 0 holds `low` alone. Go's `int` is a natural number here: ids are not negative.
pub mod Merge
pub mod Pair
pub mod Single
use mathlib.Core.List.{reverse}
use server_chat.Common.{
  ℕ, zero, suc, ◌+◌, ◌-◌, ◌*◌, Bool, true, false, not, ◌&&◌, ◌||◌, Option, none, some, List, [],
  ◌∷◌, ◌++◌, ◌==◌, ltb, leb, if◌then◌else◌, length, get_elem?, set, take,
}

pub record Range : Type 0 where
  pub low : ℕ
  pub hi : ℕ

abbrev pub single : ℕ → Range
single id = record { low = id; hi = 0 }

-- The end of a range, as its readers compute it: `upper := r.Hi; if upper == 0 { upper = r.Low + 1 }`.
abbrev pub upper : Range → ℕ
upper r = if r.hi == 0 then r.low + 1 else r.hi

-- The ids that a range stands for.
abbrev pub covers : Range → ℕ → Bool
covers r id = leb r.low id && ltb id (upper r)

abbrev pub covered : List Range → ℕ → Bool
covered [] id = false
covered (r ∷ rs) id = covers r id || covered rs id

-- RangeSorter.Less
unfoldable pub less : Range → Range → Bool
less a b = ltb a.low b.low || (a.low == b.low && leb b.hi a.hi)

-- sort.Sort(RangeSorter(rs)). Ranges that `less` does not tell apart are equal, so every sorting
-- algorithm has the result of this one.
unfoldable pub insert : Range → List Range → List Range
insert r [] = r ∷ []
insert r (s ∷ rs) = if less r s then r ∷ s ∷ rs else s ∷ insert r rs

unfoldable pub sort : List Range → List Range
unfolding insert
sort [] = []
sort (r ∷ rs) = insert r (sort rs)

abbrev pub at : List Range → ℕ → Range
at rs i = elim (get_elem? rs i) [ none ↦ single 0 | some r ↦ r ]

-- One round of the loop of `Normalize`, on `rs[prev]` and `rs[i]`: the new slice and `prev`.
unfoldable pub merge_step : ℕ → ℕ → List Range → List Range × ℕ
merge_step i prev rs =
    let p = at rs prev in
    let r = at rs i in
    if p.low == r.low
    then (rs, prev)
    else if ltb 0 p.hi && leb r.low (p.hi + 1)
    then (if ltb p.hi r.hi then set rs prev (record p { hi = r.hi }) else rs, prev)
    else (rs, prev + 1)

-- The loop, for `rounds` more values of `i`, and the cut `rs[:prev+1]`.
unfoldable pub merge_loop : ℕ → ℕ → ℕ → List Range → List Range
unfolding merge_step
merge_loop zero i prev rs = take (prev + 1) rs
merge_loop (suc rounds) i prev rs =
    let (rs', prev') = merge_step i prev rs in merge_loop rounds (i + 1) prev' rs'

-- RangeSorter.Normalize
unfoldable pub normalize : List Range → List Range
unfolding merge_loop
normalize rs = if ltb 1 (length rs) then merge_loop (length rs - 1) 1 0 rs else rs

-- Whether an id extends the last range. (The test of the code is the other way round: a new range.)
unfoldable pub extends : Range → ℕ → Bool
extends prev id = not ((prev.hi == 0 && not (id == prev.low + 1)) || ltb prev.hi id)

-- The loop of `SliceToRanges`; the slice `out` is kept with its last range first.
unfoldable pub slice_loop : List Range → List ℕ → List Range
unfolding extends
slice_loop out [] = out
slice_loop [] (id ∷ ids) = slice_loop (single id ∷ []) ids
slice_loop (prev ∷ out) (id ∷ ids) =
    slice_loop
      (if extends prev id then record prev { hi = id + 1 } ∷ out else single id ∷ prev ∷ out) ids

unfoldable pub slice_to_ranges : List ℕ → List Range
unfolding slice_loop
slice_to_ranges ids = reverse (slice_loop [] ids)
