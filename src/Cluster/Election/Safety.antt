-- ===== src/Cluster/Election/Safety.antt =====
-- internal/server/cluster_leader.go: the leaders of a term.
mod Leaders
mod Invariant
use Invariant.{IsBacked, IsSafe, All-at, Reach-IsSafe}
use mathlib.Core.List.{Memᴰ}
use server_chat.Common.{
  ℕ, suc, ◌+◌, ◌<◌, ◌≡◌, refl, sym, ap, Bool, true, false, Bool-cases, inl, inr, ◌⊎◌, List, [], ◌∷◌,
  All, ◌==◌, ==_iff, if◌then◌else◌, arith, length, Option, Option-cases, none, some,
}
use server_chat.Cluster.Quorum.{mem, Distinct, overlap}
use server_chat.Cluster.Leader.{Node, Outcome, ClusterHealth, on_health, expect_votes, count_votes}
use server_chat.Cluster.Leader.Votes.{
  outcomes, asked, voters, voters-Distinct, mem-voters, count_votes-le,
}
use server_chat.Cluster.Election.{
  Ballot, Win, System, Step, Reach, here, next, IsFresh, ballot, win, update, wins_election, miss,
  begin, grant, refuse, elect, lose, heed,
}
use server_chat.Cluster.Election.Ballots.{IsFair, Step-IsFair}

-- Two winners of a term are one, by the node that voted for both.
one_winner :
    (n t i k : ℕ) (nodes : ℕ → Node) (bs : List Ballot)
    → IsFair nodes bs
    → IsBacked n bs (win i t)
    → IsBacked n bs (win k t)
    → i ≡ k
one_winner n t i k nodes bs f a b =
    let (x, p, q) = overlap (suc n) a.0 b.0 a.1 b.1 a.2 b.2 (omega (arith, a.4, b.4)) in
    f.single x i k t (All-at (λ v. Memᴰ (ballot v i t) bs) x a.0 p a.3)
      (All-at (λ v. Memᴰ (ballot v k t) bs) x b.0 q b.3)

-- The log of a wrong leader needs a second leader in the term.
wrong_leader-false :
    (sig : List ℕ → ℕ) (health : ClusterHealth) (c : Node)
    → ((l : ℕ) → c.leader ≡ some l → c.term ≡ health.term → l ≡ health.leader)
    → (on_health sig health c).1.wrong_leader ≡ false
unfolding on_health
wrong_leader-false sig health c h = elim (Option-cases c.leader) [
  | inl e ↦ ground arith
  | inr (l, e) ↦ (let one = h l e in ground arith)
]

module _ (sig : List ℕ → ℕ) (timeout n : ℕ) {s t : System} (fresh : IsFresh s)
    (r : Reach sig timeout n s t) where
  -- In every state that a cluster without ballots, wins and leaders can reach, by any order of
  -- missed ticks, votes, elections and health checks, two nodes that won the election of one term
  -- are the same node.
  pub one_win_per_term : (i k u : ℕ) → Memᴰ (win i u) t.wins → Memᴰ (win k u) t.wins → i ≡ k
  one_win_per_term i k u p q =
      let f = Reach-IsSafe sig timeout n fresh r in
      one_winner n u i k t.nodes t.ballots f.fair (f.backed _ p) (f.backed _ q)

  -- In every state that a cluster without ballots, wins and leaders can reach, two nodes in the
  -- same term that know of a leader know of the same one.
  pub leaders_agree :
      (j k l m : ℕ)
      → (t.nodes j).term ≡ (t.nodes k).term
      → (t.nodes j).leader ≡ some l
      → (t.nodes k).leader ≡ some m
      → l ≡ m
  leaders_agree j k l m e p q =
      let f = Reach-IsSafe sig timeout n fresh r in
      one_win_per_term l m (t.nodes k).term (rw e at (f.led j l p)) (f.led k m q)

  -- In every state that a cluster without ballots, wins and leaders can reach, a health check of a
  -- node that won its term never takes, at any node, the branch that logs a second leader of the
  -- term.
  pub no_wrong_leader :
      (health : ClusterHealth) (j : ℕ)
      → Memᴰ (win health.leader health.term) t.wins
      → (on_health sig health (t.nodes j)).1.wrong_leader ≡ false
  no_wrong_leader health j p =
      let f = Reach-IsSafe sig timeout n fresh r in
      wrong_leader-false sig health (t.nodes j)
        (λ l e same. one_win_per_term l health.leader health.term (rw same at (f.led j l e)) p)
