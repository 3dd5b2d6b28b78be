-- ===== src/Tracker/Stop/Tests.antt =====
-- tracker/tracker.c, `free_ft` on a table of two nodes.
use dart_sync.Base.{◌≡◌, none, [], ◌∷◌, ◌==◌, if◌then◌else◌, arith, ok}
use dart_sync.Examples.{two_nodes, two_nodes-Stored}
use dart_sync.Table.Memory.{Address, Memory, elem}
use dart_sync.Tracker.Stop.{free_ft, free_ft_lem}

free_ft_lem_example :
    (m' : Memory) × (free_ft 3 two_nodes 8 ≡ ok m')
    × ((q : Address) → m'.tables q ≡ (if 8 == q then none else two_nodes.tables q))
    × ((q : Address) → m'.nodes q ≡ (if elem q (16 ∷ 32 ∷ []) then none else two_nodes.nodes q))
free_ft_lem_example = free_ft_lem 3 two_nodes 8 (16 ∷ 32 ∷ []) (omega arith) two_nodes-Stored
