-- ===== src/Cluster/Election/Ballots.antt =====
-- internal/server/cluster_leader.go: the votes that a node casts.
use mathlib.Core.List.{Memᴰ}
use native.Mathlib.Nat.{le_refl, le_trans, le_of_eq}
use server_chat.Common.{
  ℕ, ◌≤◌, ◌<◌, ◌≡◌, refl, sym, ap, true, Bool-cases, inl, inr, List, ◌∷◌, ◌==◌, ==_iff, arith,
}
use server_chat.Cluster.Leader.{
  Node, VoteRequest, ClusterHealth, Outcome, on_vote, on_missed, on_health, finish_election,
}
use server_chat.Cluster.Election.{
  Ballot, System, Step, ballot, update, miss, begin, grant, refuse, elect, lose, heed,
}

-- Terms bound the votes that were cast, and two votes of a node in a term are for one candidate.
pub record IsFair (nodes : ℕ → Node) (ballots : List Ballot) : Type 0 where
  pub bounded : (b : Ballot) → Memᴰ b ballots → b.term ≤ (nodes b.voter).term
  pub single : (v c c' t : ℕ) → Memᴰ (ballot v c t) ballots → Memᴰ (ballot v c' t) ballots → c ≡ c'

update-term :
    (nodes : ℕ → Node) (i j : ℕ) (c : Node)
    → (nodes i).term ≤ c.term
    → (nodes j).term ≤ (update nodes i c j).term
update-term nodes i j c h = elim (Bool-cases (i == j)) [
  | inl e ↦ rw e (rw (sym ((==_iff i j).0 e)) h)
  | inr e ↦ rw e (le_refl _)
]

-- A node whose term does not fall may change as it likes.
pub keep-IsFair :
    (nodes : ℕ → Node) (bs : List Ballot) (i : ℕ) (c : Node)
    → (nodes i).term ≤ c.term
    → IsFair nodes bs
    → IsFair (update nodes i c) bs
keep-IsFair nodes bs i c h f = record {
  bounded = λ b m. le_trans (f.bounded b m) (update-term nodes i b.voter c h);
  single = f.single;
}

update_self : (nodes : ℕ → Node) (i : ℕ) (c : Node) → update nodes i c i ≡ c
update_self nodes i c = rw ((==_iff i i).1 refl)

-- The node `i` has cast a vote for `to` in the term `t`, above its own, and taken that term.
module _ (nodes : ℕ → Node) (bs : List Ballot) (i to t : ℕ) (c : Node) (up : (nodes i).term < t)
    (now : c.term ≡ t) (f : IsFair nodes bs) where
  new_bounded :
      (b : Ballot) → Memᴰ b (ballot i to t ∷ bs) → b.term ≤ (update nodes i c b.voter).term
  new_bounded b (Memᴰ.head e) = rw (e, update_self nodes i c) (le_of_eq (sym now))
  new_bounded b (Memᴰ.tail m) =
      le_trans (f.bounded b m) (update-term nodes i b.voter c (omega arith))

  -- A vote that was there before is of an older term.
  not_twice : (v x y u : ℕ) → ballot v x u ≡ ballot i to t → Memᴰ (ballot v y u) bs → ⊥
  not_twice v x y u e m =
      let older : u ≤ (nodes v).term = f.bounded (ballot v y u) m in
      let voter : v ≡ i = ap (λ (b : Ballot). b.voter) e in
      let term : u ≡ t = ap (λ (b : Ballot). b.term) e in
      absurd (omega (arith, ap (λ (k : ℕ). (nodes k).term) voter))

  new_single :
      (v x y u : ℕ)
      → Memᴰ (ballot v x u) (ballot i to t ∷ bs)
      → Memᴰ (ballot v y u) (ballot i to t ∷ bs)
      → x ≡ y
  new_single v x y u (Memᴰ.head p) (Memᴰ.head q) = cc
  new_single v x y u (Memᴰ.head p) (Memᴰ.tail q) = absurd (not_twice v x y u p q)
  new_single v x y u (Memᴰ.tail p) (Memᴰ.head q) = absurd (not_twice v y x u q p)
  new_single v x y u (Memᴰ.tail p) (Memᴰ.tail q) = f.single v x y u p q

  pub cast-IsFair : IsFair (update nodes i c) (ballot i to t ∷ bs)
  cast-IsFair = record { bounded = new_bounded; single = new_single }

-- What the handlers do to the term.
module _ (c : Node) where
  pub on_missed-le : (t : ℕ) → c.term ≤ (on_missed t c).0.term
  unfolding on_missed
  on_missed-le t = ground arith

  pub on_missed-lt : (t : ℕ) → (on_missed t c).1 ≡ true → c.term < (on_missed t c).0.term
  unfolding on_missed
  on_missed-lt t h = ground arith

  pub on_vote-le : (req : VoteRequest) → c.term ≤ (on_vote req c).0.term
  unfolding on_vote
  on_vote-le req = ground arith

  pub on_vote-granted :
      (req : VoteRequest)
      → (on_vote req c).1.result ≡ true
      → (c.term < (on_vote req c).0.term) × ((on_vote req c).0.term ≡ req.term)
  unfolding on_vote
  on_vote-granted req h = ground arith

  pub finish_election-term :
      (i n : ℕ) (os : List Outcome) → (finish_election i n os c).term ≡ c.term
  unfolding finish_election
  finish_election-term i n os = ground arith

  pub on_health-le :
      (sig : List ℕ → ℕ) (health : ClusterHealth) → c.term ≤ (on_health sig health c).0.term
  unfolding on_health
  on_health-le sig health = ground arith

-- Every step keeps the votes fair.
pub Step-IsFair :
    {sig : List ℕ → ℕ} {vote_timeout n : ℕ} {s t : System}
    → Step sig vote_timeout n s t
    → IsFair s.nodes s.ballots
    → IsFair t.nodes t.ballots
Step-IsFair {vote_timeout = v} {s = s} (miss i h e) f =
    keep-IsFair s.nodes s.ballots i _ (on_missed-le (s.nodes i) v) f
Step-IsFair {vote_timeout = v} {s = s} (begin i h e) f =
    cast-IsFair s.nodes s.ballots i i _ _ (on_missed-lt (s.nodes i) v e) refl f
Step-IsFair {s = s} (grant req j h m e) f =
    let (up, same) = on_vote-granted (s.nodes j) req e in
    cast-IsFair s.nodes s.ballots j req.node req.term _ (rw same at up) same f
Step-IsFair {s = s} (refuse req j h e) f =
    keep-IsFair s.nodes s.ballots j _ (on_vote-le (s.nodes j) req) f
Step-IsFair {n = n} {s = s} (elect i calls h d b m e) f =
    keep-IsFair s.nodes s.ballots i _ (le_of_eq (sym (finish_election-term (s.nodes i) i n _))) f
Step-IsFair {n = n} {s = s} (lose i calls h e) f =
    keep-IsFair s.nodes s.ballots i _ (le_of_eq (sym (finish_election-term (s.nodes i) i n _))) f
Step-IsFair {sig = sig} {s = s} (heed health j h m) f =
    keep-IsFair s.nodes s.ballots j _ (on_health-le (s.nodes j) sig health) f
