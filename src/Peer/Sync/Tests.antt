-- ===== src/Peer/Sync/Tests.antt =====
-- peer/peer.c, `compareNode`: runs on a table of two entries.
use dart_sync.Base.{◌≡◌, refl, arith, [], ◌∷◌, str_eq, ok}
use dart_sync.Table.{Node, file_delete}
use dart_sync.Examples.{bob, old_notes, new_notes, todo_list}
use dart_sync.Peer.Sync.{Local, find_node, compare_node}
use dart_sync.Peer.Sync.Compared.{after_add, after_delete}
use dart_sync.Peer.Sync.Deleted.{compare_node_resurrects}

abbrev local : Local
local = record { file_table = old_notes ∷ todo_list ∷ []; downloads = []; removed = [] }

abbrev deleted_draft : Node
deleted_draft = record new_notes { name = 100 ∷ []; type = file_delete }

compare_node_resurrects_example :
    (compare_node bob deleted_draft local ≡ ok (after_add bob deleted_draft local))
    × (compare_node bob deleted_draft (after_add bob deleted_draft local)
        ≡ ok (after_delete deleted_draft (after_add bob deleted_draft local)))
unfolding str_eq find_node
compare_node_resurrects_example =
    compare_node_resurrects bob deleted_draft local refl (omega arith) refl
