-- ===== src/Peer/Stop/Tests.antt =====
-- peer/peer.c, `peer_stop` with a table of two nodes.
use dart_sync.Base.{◌≡◌, true, none, [], ◌∷◌, ok}
use dart_sync.Examples.{two_nodes, two_nodes-Stored}
use dart_sync.Table.Memory.{Address, Memory, elem}
use dart_sync.Peer.Stop.{peer_stop, peer_stop-leaks}

peer_stop-leaks_example :
    (m' : Memory) × (peer_stop two_nodes 8 5 4 [] ≡ ok (m', 4 ∷ 5 ∷ []))
    × (m'.nodes 16 ≡ none)
    × (m'.tables 8 ≡ none)
    × ((q : Address) → elem q (32 ∷ []) ≡ true → m'.nodes q ≡ two_nodes.nodes q)
peer_stop-leaks_example = peer_stop-leaks two_nodes 8 16 (32 ∷ []) 5 4 [] two_nodes-Stored
