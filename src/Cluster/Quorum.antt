-- ===== src/Cluster/Quorum.antt =====
-- Two majorities of the same nodes have a node in common.
use server_chat.Common.{
  ℕ, zero, suc, ◌+◌, ◌≤◌, ◌<◌, ◌≡◌, refl, ap, Bool, true, false, ◌&&◌, ◌||◌, List, [], ◌∷◌, All,
  ◌==◌, if◌then◌else◌, arith, length, Bool-cases, inl, inr,
}

abbrev pub mem : ℕ → List ℕ → Bool
mem x [] = false
mem x (y ∷ ys) = x == y || mem x ys

-- Every element once.
abbrev pub Distinct : List ℕ → Type 0
Distinct [] = Unit {0}
Distinct (x ∷ xs) = (mem x xs ≡ false) × Distinct xs

-- How many numbers below `n` pass a test.
card : ℕ → (ℕ → Bool) → ℕ
card zero p = 0
card (suc n) p = (if p n then 1 else 0) + card n p

card-none : (n x : ℕ) (xs : List ℕ) → n ≤ x → card n (λ y. mem y (x ∷ xs)) ≡ card n (λ y. mem y xs)
unfolding card
card-none zero x xs h = refl
card-none (suc n) x xs h = ground (arith, card-none n x xs)

card-cons :
    (n x : ℕ) (xs : List ℕ)
    → x < n
    → mem x xs ≡ false
    → card n (λ y. mem y (x ∷ xs)) ≡ suc (card n (λ y. mem y xs))
unfolding card
card-cons zero x xs h e = absurd (omega arith)
card-cons (suc n) x xs h e = elim (Bool-cases (n == x)) [
  | inl same ↦
      (let q : n ≡ x = ground arith in
        ground (arith, card-none n x xs (omega arith), ap (λ t. mem t xs) q))
  | inr other ↦ ground (arith, card-cons n x xs (ground arith) e)
]

length-le-card :
    (n : ℕ) (xs : List ℕ) → Distinct xs → All (λ x. x < n) xs → length xs ≤ card n (λ y. mem y xs)
length-le-card n [] d b = omega arith
length-le-card n (x ∷ xs) d b = omega (arith, card-cons n x xs b.0 d.0, length-le-card n xs d.1 b.1)

card_overlap :
    (n : ℕ) (p q : ℕ → Bool) → n < card n p + card n q → (x : ℕ) × (p x ≡ true) × (q x ≡ true)
unfolding card
card_overlap zero p q h = absurd (omega arith)
card_overlap (suc n) p q h = elim (Bool-cases (p n && q n)) [
  | inl both ↦ (n, ground arith, ground arith)
  | inr one ↦ card_overlap n p q (ground arith)
]

-- Two lists of distinct numbers below `n`, together longer than `n`, share an element.
pub overlap :
    (n : ℕ) (xs ys : List ℕ)
    → Distinct xs
    → Distinct ys
    → All (λ x. x < n) xs
    → All (λ x. x < n) ys
    → n < length xs + length ys
    → (x : ℕ) × (mem x xs ≡ true) × (mem x ys ≡ true)
overlap n xs ys dx dy bx by h =
    card_overlap n (λ y. mem y xs) (λ y. mem y ys)
      (omega (arith, length-le-card n xs dx bx, length-le-card n ys dy by))
