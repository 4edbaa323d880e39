-- ===== src/Cluster/Election/Safety/Leaders.antt =====
-- How each handler can change the leader that a node knows.
use server_chat.Common.{ℕ, ◌≡◌, true, false, ◌⊎◌, List, arith, some}
use server_chat.Cluster.Leader.{
  Node, VoteRequest, ClusterHealth, Outcome, on_missed, on_vote, on_health, finish_election,
}
use server_chat.Cluster.Election.{wins_election}
use server_chat.Cluster.Leader.Votes.{outcomes}

module _ (c : Node) (l : ℕ) where
  pub on_missed-leader :
      (t : ℕ)
      → (on_missed t c).0.leader ≡ some l
      → (c.leader ≡ some l) × ((on_missed t c).0.term ≡ c.term)
  unfolding on_missed
  on_missed-leader t h = ground arith

  pub on_vote-leader :
      (req : VoteRequest)
      → (on_vote req c).0.leader ≡ some l
      → (c.leader ≡ some l) × ((on_vote req c).0.term ≡ c.term)
  unfolding on_vote
  on_vote-leader req h = ground arith

  pub on_health-leader :
      (sig : List ℕ → ℕ) (health : ClusterHealth)
      → (on_health sig health c).0.leader ≡ some l
      → ((c.leader ≡ some l) × ((on_health sig health c).0.term ≡ c.term))
        ⊎ ((l ≡ health.leader) × ((on_health sig health c).0.term ≡ health.term))
  unfolding on_health
  on_health-leader sig health h = grind arith

  pub finish_election-won :
      (i n : ℕ) (calls : List (ℕ × Outcome))
      → wins_election n calls c ≡ true
      → (finish_election i n (outcomes calls) c).leader ≡ some l
      → i ≡ l
  unfolding finish_election wins_election
  finish_election-won i n calls w h = ground arith

  pub finish_election-leader :
      (i n : ℕ) (calls : List (ℕ × Outcome))
      → wins_election n calls c ≡ false
      → (finish_election i n (outcomes calls) c).leader ≡ some l
      → c.leader ≡ some l
  unfolding finish_election wins_election
  finish_election-leader i n calls w h = ground arith
