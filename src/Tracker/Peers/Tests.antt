-- ===== src/Tracker/Peers/Tests.antt =====
-- tracker/tracker.c, the list of peers: runs on lists of up to two.
use dart_sync.Base.{◌≡◌, refl, ◌⊎◌, arith, true, false, [], ◌∷◌, ok}
use dart_sync.Examples.{
  alice, alice_only, bob, cell_a, cell_b, two_peers, two_peers-IsPeers, no_peer,
}
use dart_sync.Tracker.Peers.{Peers, add_peer}
use dart_sync.Tracker.Peers.Chain.{IsPeers}
use dart_sync.Tracker.Peers.Join.{in_front, joined, add_peer_lem}

add_peer_lem_example :
    (in_front 6 (cell_a ∷ cell_b ∷ []) ≡ true)
      × (add_peer 3 48 300 two_peers 6 bob ≡ ok (false, two_peers))
    ⊎ (in_front 6 (cell_a ∷ cell_b ∷ []) ≡ false)
      × ((ps' : Peers) × (add_peer 3 48 300 two_peers 6 bob ≡ ok (true, ps'))
          × IsPeers ps' (cell_a ∷ cell_b ∷ joined 48 bob 300 6 ∷ [])
          × (ps'.closed ≡ []))
add_peer_lem_example =
    add_peer_lem 3 48 300 6 bob two_peers (cell_a ∷ cell_b ∷ []) two_peers-IsPeers (omega arith)
      refl (omega arith)

pub add_peer-alice_only : add_peer 2 16 100 no_peer 4 alice ≡ ok (true, alice_only)
unfolding add_peer
add_peer-alice_only = refl
