-- ===== src/Examples/Elections.antt =====
-- A cluster of three nodes: node 0 asks node 1 for its vote, wins, and tells node 2.
use mathlib.Core.List.Memᴰ.{head, tail}
use server_chat.Common.{
  ℕ, ◌≡◌, refl, Bool, true, false, Option, none, some, List, [], ◌∷◌, arith, ◌==◌,
}
use server_chat.Cluster.Leader.{
  Node, VoteRequest, ClusterHealth, Outcome, answered, Membership, count_votes, finish_election,
  on_vote, on_missed, on_health, send_health_checks, alive,
}
use server_chat.Cluster.Leader.Health.{send_health_checks-active}
use server_chat.Cluster.Election.{
  System, Reach, here, next, IsFresh, ballot, win, begin, grant, elect, heed, wins_election, update,
}
use server_chat.Cluster.Election.Safety.{one_win_per_term, leaders_agree, no_wrong_leader}

abbrev ring_signature : List ℕ → ℕ
ring_signature nodes = 0

abbrev new_node : Node
new_node = record { term = 0; leader = none; missed = 0; rehash_skipped = false; ring = [] }

abbrev at_start : System
at_start = record { nodes = λ i. new_node; ballots = []; wins = [] }

at_start-IsFresh : IsFresh at_start
at_start-IsFresh = record { no_ballots = refl; no_wins = refl; no_leader = λ j. refl }

abbrev request : VoteRequest
request = record { node = 0; term = 1 }

abbrev calls : List (ℕ × Outcome)
calls = (1, answered (record { result = true; term = 1 })) ∷ []

abbrev health : ClusterHealth
health = record { leader = 0; term = 1; signature = 0; nodes = 0 ∷ 1 ∷ 2 ∷ [] }

abbrev node : ℕ → Option ℕ → Node
node term leader = record new_node { term = term; leader = leader }

abbrev nodes_at_end : ℕ → Node
nodes_at_end =
    update
      (update (update (update at_start.nodes 0 (node 1 none)) 1 (node 1 none)) 0 (node 1 (some 0)))
      2 (node 1 (some 0))

abbrev at_end : System
at_end = record {
  nodes = nodes_at_end;
  ballots = ballot 1 0 1 ∷ ballot 0 0 1 ∷ [];
  wins = win 0 1 ∷ [];
}

elected : Reach ring_signature 1 2 at_start at_end
unfolding on_vote on_missed on_health wins_election count_votes finish_election
elected =
    next
      (next
        (next (next here (begin 0 (omega arith) refl))
          (grant request 1 (omega arith) (head refl) refl))
        (elect 0 calls (omega arith) (refl, (refl, tt)) ((omega arith, tt))
          (tail (head refl), (head refl, tt)) refl))
      (heed health 2 (omega arith) (head refl))

one_win_per_term_example : ◌≡◌ {A = ℕ} 0 0
one_win_per_term_example =
    one_win_per_term ring_signature 1 2 at_start-IsFresh elected 0 0 1 (head refl) (head refl)

-- Node 0 leads, and node 2 follows it.
leaders_agree_example : ◌≡◌ {A = ℕ} 0 0
leaders_agree_example =
    leaders_agree ring_signature 1 2 at_start-IsFresh elected 0 2 0 0 refl refl refl

no_second_leader_logged : (on_health ring_signature health (nodes_at_end 1)).1.wrong_leader ≡ false
no_second_leader_logged =
    no_wrong_leader ring_signature 1 2 at_start-IsFresh elected health 1 (head refl)

-- Node 1 has failed twice, and answers again; node 2 fails for the third time.
abbrev members : Membership
members = record {
  peers = record { name = 1; fail_count = 2 } ∷ record { name = 2; fail_count = 2 } ∷ [];
  active_nodes = 0 ∷ 1 ∷ 2 ∷ [];
}

abbrev two_fails : ℕ → Bool
two_fails i = i == 2

members_active : members.active_nodes ≡ 0 ∷ alive 3 members.peers
unfolding alive
members_active = refl

one_round_of_checks :
    (send_health_checks 0 3 two_fails members).active_nodes
    ≡ 0 ∷ alive 3 (send_health_checks 0 3 two_fails members).peers
one_round_of_checks = send_health_checks-active 0 3 two_fails members members_active
