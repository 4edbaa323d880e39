-- ===== src/Cluster/Election.antt =====
-- internal/server/cluster_leader.go: the nodes of a cluster, the votes they have cast, and every
-- order in which their goroutines, votes and health checks can take turns. Messages may be late,
-- lost or repeated, and a node may miss health checks and start an election even while it leads.
-- Nodes are the numbers below `suc node_count`; `node_count` is `len(c.nodes)`.
pub mod Ballots
pub mod Safety
use mathlib.Core.List.{Memᴰ}
use server_chat.Common.{
  ℕ, suc, ◌<◌, ◌≡◌, Bool, true, false, List, [], ◌∷◌, All, ◌==◌, if◌then◌else◌, leb, Option, none,
  some,
}
use server_chat.Cluster.Quorum.{mem, Distinct}
use server_chat.Cluster.Leader.{
  Node, VoteRequest, ClusterHealth, Outcome, on_vote, on_missed, on_health, expect_votes,
  count_votes, finish_election, is_leader,
}
use server_chat.Cluster.Leader.Votes.{outcomes, asked, voters}

-- A vote that was cast, for oneself or for another.
pub record Ballot : Type 0 where
  pub voter : ℕ
  pub candidate : ℕ
  pub term : ℕ

-- A node that counted a majority in a term.
pub record Win : Type 0 where
  pub winner : ℕ
  pub term : ℕ

pub record System : Type 0 where
  pub nodes : ℕ → Node
  pub ballots : List Ballot
  pub wins : List Win

abbrev pub update {ℓ} : {A : Type ℓ} → (ℕ → A) → ℕ → A → ℕ → A
update f i v j = if i == j then v else f j

abbrev pub ballot : ℕ → ℕ → ℕ → Ballot
ballot voter candidate term = record { voter = voter; candidate = candidate; term = term }

abbrev pub win : ℕ → ℕ → Win
win winner term = record { winner = winner; term = term }

-- The counted votes reach the majority.
unfoldable pub wins_election : ℕ → List (ℕ × Outcome) → Node → Bool
wins_election node_count calls c =
    leb (expect_votes node_count)
      (count_votes c.term (expect_votes node_count) node_count 1 (outcomes calls))

module _ (ring_signature : List ℕ → ℕ) (vote_timeout node_count : ℕ) where
  pub data Step (s : System) : System → Type 0 where
    -- A tick without a health check, which is not yet one too many.
    miss :
        (i : ℕ)
        → i < suc node_count
        → (on_missed vote_timeout (s.nodes i)).1 ≡ false
        → Step s (record s { nodes = update s.nodes i (on_missed vote_timeout (s.nodes i)).0 })
    -- A node starts an election and votes for itself.
    begin :
        (i : ℕ)
        → i < suc node_count
        → (on_missed vote_timeout (s.nodes i)).1 ≡ true
        → Step s (record s {
          nodes = update s.nodes i (on_missed vote_timeout (s.nodes i)).0;
          ballots = ballot i i (on_missed vote_timeout (s.nodes i)).0.term ∷ s.ballots;
        })
    -- A request of an election that was started reaches another node, which grants it.
    grant :
        (req : VoteRequest) (j : ℕ)
        → j < suc node_count
        → Memᴰ (ballot req.node req.node req.term) s.ballots
        → (on_vote req (s.nodes j)).1.result ≡ true
        → Step s (record s {
          nodes = update s.nodes j (on_vote req (s.nodes j)).0;
          ballots = ballot j req.node req.term ∷ s.ballots;
        })
    -- The node refuses it.
    refuse :
        (req : VoteRequest) (j : ℕ)
        → j < suc node_count
        → (on_vote req (s.nodes j)).1.result ≡ false
        → Step s (record s { nodes = update s.nodes j (on_vote req (s.nodes j)).0 })
    -- A candidate has asked other nodes, each once; the votes that it counts were cast for it in its
    -- term; and they are enough.
    elect :
        (i : ℕ) (calls : List (ℕ × Outcome))
        → i < suc node_count
        → Distinct (i ∷ asked calls)
        → All (λ j. j < suc node_count) (asked calls)
        → All (λ j. Memᴰ (ballot j i (s.nodes i).term) s.ballots) (i ∷ voters calls)
        → wins_election node_count calls (s.nodes i) ≡ true
        → Step s (record s {
          nodes = update s.nodes i (finish_election i node_count (outcomes calls) (s.nodes i));
          wins = win i (s.nodes i).term ∷ s.wins;
        })
    -- They are not enough.
    lose :
        (i : ℕ) (calls : List (ℕ × Outcome))
        → i < suc node_count
        → wins_election node_count calls (s.nodes i) ≡ false
        → Step s (record s {
          nodes = update s.nodes i (finish_election i node_count (outcomes calls) (s.nodes i));
        })
    -- A health check that a leader sent in its term reaches a node.
    heed :
        (health : ClusterHealth) (j : ℕ)
        → j < suc node_count
        → Memᴰ (win health.leader health.term) s.wins
        → Step s
            (record s { nodes = update s.nodes j (on_health ring_signature health (s.nodes j)).0 })

  pub data Reach (s : System) : System → Type 0 where
    here : Reach s s
    next : {t u : System} → Reach s t → Step t u → Reach s u

-- Before the first vote no node knows of a leader.
pub record IsFresh (s : System) : Type 0 where
  pub no_ballots : s.ballots ≡ []
  pub no_wins : s.wins ≡ []
  pub no_leader : (j : ℕ) → (s.nodes j).leader ≡ none
