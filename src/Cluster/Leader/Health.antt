-- ===== src/Cluster/Leader/Health.antt =====
-- internal/server/cluster_leader.go: the list of active nodes under health checks.
use server_chat.Common.{ℕ, ◌≡◌, refl, Bool, false, Bool-cases, inl, inr, List, [], ◌∷◌, arith, ltb}
use server_chat.Cluster.Leader.{
  Peer, Membership, check_peer, check_peers, alive, send_health_checks,
}

-- A call that asks for no rehash leaves the peer alive, or leaves it out.
check_peer-keeps :
    (limit : ℕ) (failed : Bool) (p : Peer)
    → (check_peer limit failed p).1 ≡ false
    → (ltb (check_peer limit failed p).0.fail_count limit ≡ ltb p.fail_count limit)
      × ((check_peer limit failed p).0.name ≡ p.name)
unfolding check_peer
check_peer-keeps limit failed p h = ground arith

check_peers-keeps :
    (limit : ℕ) (failed : ℕ → Bool) (ps : List Peer)
    → (check_peers limit failed ps).1 ≡ false
    → alive limit (check_peers limit failed ps).0 ≡ alive limit ps
unfolding check_peers alive
check_peers-keeps limit failed [] h = refl
check_peers-keeps limit failed (p ∷ ps) h =
    ground (arith, check_peer-keeps limit (failed p.name) p, check_peers-keeps limit failed ps)

-- If the active nodes are the leader and the peers that failed fewer times in a row than the limit,
-- then they are after a round of health checks, whichever calls fail.
pub send_health_checks-active :
    (this limit : ℕ) (failed : ℕ → Bool) (m : Membership)
    → m.active_nodes ≡ this ∷ alive limit m.peers
    → (send_health_checks this limit failed m).active_nodes
      ≡ this ∷ alive limit (send_health_checks this limit failed m).peers
unfolding send_health_checks
send_health_checks-active this limit failed m h =
    elim (Bool-cases (check_peers limit failed m.peers).1) [
      | inl asked ↦ rw asked
      | inr quiet ↦ rw (quiet, check_peers-keeps limit failed m.peers quiet) h
    ]
