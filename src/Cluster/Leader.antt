-- ===== src/Cluster/Leader.antt =====
-- internal/server/cluster_leader.go: one node of the leader election, which follows Raft. A node
-- is known by a number; the empty leader name is `none`.
pub mod Votes
pub mod Health
use server_chat.Common.{
  ℕ, zero, suc, ◌+◌, ◌-◌, ◌/◌, Bool, true, false, not, ◌&&◌, ◌||◌, Option, none, some, List, [],
  ◌∷◌, ◌++◌, ◌==◌, ltb, leb, if◌then◌else◌, length,
}

-- The part of `Cluster` and `clusterFailover` that the election reads and writes, and the two
-- local variables of `run`. `ring` lists the nodes of the ring hash.
pub record Node : Type 0 where
  pub term : ℕ
  pub leader : Option ℕ
  pub missed : ℕ
  pub rehash_skipped : Bool
  pub ring : List ℕ

-- ClusterVoteRequest
pub record VoteRequest : Type 0 where
  pub node : ℕ
  pub term : ℕ

-- ClusterVoteResponse
pub record VoteResponse : Type 0 where
  pub result : Bool
  pub term : ℕ

-- ClusterHealth
pub record ClusterHealth : Type 0 where
  pub leader : ℕ
  pub term : ℕ
  pub signature : ℕ
  pub nodes : List ℕ

-- The case `vreq := <-c.fo.electionVote` of `run`.
unfoldable pub on_vote : VoteRequest → Node → Node × VoteResponse
on_vote req c =
    if ltb c.term req.term
    then (record c { term = req.term; leader = none }, record { result = true; term = req.term })
    else (c, record { result = false; term = c.term })

-- What the loop of `electLeader` receives.
pub data Outcome : Type 0 where
  answered : VoteResponse → Outcome
  call_failed : Outcome
  timed_out : Outcome

-- `expectVotes`, from the number of the other nodes.
abbrev pub expect_votes : ℕ → ℕ
expect_votes node_count = (node_count + 1) / 2 + 1

-- The loop `for i := 0; i < nodeCount && voteCount < expectVotes;`, `left` being `nodeCount - i`.
-- It returns `voteCount`. When no outcome is left, the loop still waits: only a full list, or one
-- that ends with `timed_out`, is a run of the program.
unfoldable pub count_votes : ℕ → ℕ → ℕ → ℕ → List Outcome → ℕ
count_votes term expect zero votes outcomes = votes
count_votes term expect (suc left) votes [] = votes
count_votes term expect (suc left) votes (answered r ∷ outcomes) =
    if leb expect votes
    then votes
    else if r.result
    then count_votes term expect left (votes + 1) outcomes
    else if ltb term r.term
    then 0
    else count_votes term expect left votes outcomes
count_votes term expect (suc left) votes (call_failed ∷ outcomes) =
    if leb expect votes then votes else count_votes term expect left votes outcomes
count_votes term expect (suc left) votes (timed_out ∷ outcomes) = votes

-- The first lines of `electLeader`.
unfoldable pub begin_election : Node → Node
begin_election c = record c { term = c.term + 1; leader = none }

-- The rest of `electLeader` on the node `this`.
unfoldable pub finish_election : ℕ → ℕ → List Outcome → Node → Node
unfolding count_votes
finish_election this node_count outcomes c =
    if leb (expect_votes node_count)
      (count_votes c.term (expect_votes node_count) node_count 1 outcomes)
    then record c { leader = some this }
    else c

-- c.fo.leader == name
abbrev pub is_leader : ℕ → Option ℕ → Bool
is_leader this none = false
is_leader this (some l) = l == this

-- What a node does beside its state: the error log for a second leader of one term, and the rehash,
-- with the clearing of proxy subscriptions and sessions and the signal to the hub that follow it.
pub record HealthEffects : Type 0 where
  pub wrong_leader : Bool
  pub rehashed : Bool

-- The lines on the term and the leader in the case `health := <-c.fo.healthCheck` of `run`.
unfoldable pub accept_leader : ClusterHealth → Node → Node × Bool
accept_leader health c =
    if ltb c.term health.term
    then (record c { term = health.term; leader = some health.leader }, false)
    else if not (is_leader health.leader c.leader)
    then (record c { leader = some health.leader }, elim c.leader [ none ↦ false | some l ↦ true ])
    else (c, false)

-- The signature of a ring, which the ring hash computes from its nodes.
module _ (ring_signature : List ℕ → ℕ) where
  -- The lines on the signature.
  unfoldable pub compare_ring : ClusterHealth → Node → Node × Bool
  compare_ring health c =
      if health.signature == ring_signature c.ring
      then (c, false)
      else if c.rehash_skipped
      then (record c { ring = health.nodes; rehash_skipped = false }, true)
      else (record c { rehash_skipped = true }, false)

  -- The whole case; a health check of an older term is ignored.
  unfoldable pub on_health : ClusterHealth → Node → Node × HealthEffects
  unfolding accept_leader compare_ring
  on_health health c =
      if ltb health.term c.term
      then (c, record { wrong_leader = false; rehashed = false })
      else let (c1, wrong) = accept_leader health c in
        let (c2, rehashed) = compare_ring health (record c1 { missed = 0 }) in
        (c2, record { wrong_leader = wrong; rehashed = rehashed })

-- The case `<-ticker.C` of a node that does not lead: the new state, and whether it starts an
-- election (`begin_election` is then applied).
unfoldable pub on_missed : ℕ → Node → Node × Bool
unfolding begin_election
on_missed vote_timeout c =
    let missed = c.missed + 1 in
    if leb vote_timeout missed
    then (begin_election (record c { missed = 0 }), true)
    else (record c { missed = missed }, false)

-- ClusterNode, as far as health checks use it.
pub record Peer : Type 0 where
  pub name : ℕ
  pub fail_count : ℕ

-- The body of the loop of `sendHealthChecks`: the peer after the call, and whether to rehash.
unfoldable pub check_peer : ℕ → Bool → Peer → Peer × Bool
check_peer limit failed p =
    if failed
    then (record p { fail_count = p.fail_count + 1 }, p.fail_count + 1 == limit)
    else (record p { fail_count = 0 }, leb limit p.fail_count)

-- The loop, with what each call returned.
unfoldable pub check_peers : ℕ → (ℕ → Bool) → List Peer → List Peer × Bool
unfolding check_peer
check_peers limit failed [] = ([], false)
check_peers limit failed (p ∷ ps) =
    let (p', rehash) = check_peer limit (failed p.name) p in
    let (ps', rehash') = check_peers limit failed ps in (p' ∷ ps', rehash || rehash')

-- The names of the peers that count as alive.
unfoldable pub alive : ℕ → List Peer → List ℕ
alive limit [] = []
alive limit (p ∷ ps) =
    let rest = alive limit ps in if ltb p.fail_count limit then p.name ∷ rest else rest

-- The peers and the active nodes of the leader.
pub record Membership : Type 0 where
  pub peers : List Peer
  pub active_nodes : List ℕ

-- sendHealthChecks on the node `this`. (The rehash with its cleanup follows `active_nodes`.)
unfoldable pub send_health_checks : ℕ → ℕ → (ℕ → Bool) → Membership → Membership
unfolding check_peers alive
send_health_checks this limit failed m =
    let (peers, rehash) = check_peers limit failed m.peers in
    record {
      peers = peers;
      active_nodes = if rehash then this ∷ alive limit peers else m.active_nodes;
    }
