-- ===== src/Peer/Sync/Deleted.antt =====
-- A deleted file that the peer does not have.
use dart_sync.Base.{◌<◌, ◌≡◌, none, CString, arith, ok}
use dart_sync.Table.{Node, file_delete}
use dart_sync.Peer.Sync.{Local, find_node, request, compare_node, compare_found}
use dart_sync.Peer.Sync.Compared.{after_add, after_delete, found_after_add}

-- For a deleted entry with a size above 0 that the peer does not have, compareNode starts its
-- download, and a second call marks it as deleted and removes the file.
pub compare_node_resurrects :
    (myip : CString) (seek : Node) (l : Local)
    → seek.type ≡ file_delete
    → 0 < seek.size
    → find_node seek.name l.file_table ≡ none
    → (compare_node myip seek l ≡ ok (after_add myip seek l))
      × (compare_node myip seek (after_add myip seek l)
          ≡ ok (after_delete seek (after_add myip seek l)))
unfolding compare_node
compare_node_resurrects myip seek l gone large absent = (
  rw (absent, compare_node) (ground arith),
  rw (found_after_add myip seek l absent, compare_node)
      (unfold compare_found request in ground (arith, gone)),
)
