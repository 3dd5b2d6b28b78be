-- ===== src/Peer/Sync/Steady.antt =====
-- `compareNode` never faults, touches no other file, and does nothing when it is repeated.
use dart_sync.Base.{◌≡◌, refl, ◌≢◌, false, none, some, CString, str_eq, arith, ok, inl, inr, ◌⊎◌}
use dart_sync.Table.{Node, file_delete}
use dart_sync.Peer.Sync.Find.{find_node-change, find_node-append_other}
use dart_sync.Peer.Sync.{
  Local, find_node, request, add, added, modified, delete, is_update, is_deletion, compare_found,
  compare_node,
}
use dart_sync.Peer.Sync.Compared.{
  Compared, kept, updated, deleted, fresh, compare_node-Compared, found_after_update,
  found_after_delete, found_after_add,
}

compare_again :
    (myip : CString) (seek t : Node) (l : Local)
    → find_node seek.name l.file_table ≡ some t
    → is_update t seek ≡ false
    → is_deletion t seek ≡ false
    → compare_node myip seek l ≡ ok l
unfolding compare_node compare_found
compare_again myip seek t l e no_up no_del = rw (e, compare_node) (ground (arith, no_up, no_del))

-- compareNode returns and leaves the entries of all other names as they were.
pub find_node-compare_node :
    (myip n : CString) (seek : Node) (l : Local)
    → str_eq seek.name n ≡ false
    → (l' : Local) × (compare_node myip seek l ≡ ok l')
      × (find_node n l'.file_table ≡ find_node n l.file_table)
find_node-compare_node myip n seek l other =
    let (l', e, how) = compare_node-Compared myip seek l in (l', e, same l' how)
  where
    same :
        (l' : Local)
        → Compared myip seek l l'
        → find_node n l'.file_table ≡ find_node n l.file_table
    same l' (kept _) = refl
    same l' (updated current _ _ _) =
        rw
          (
            find_node-change n seek.name (modified (request seek.name seek)) l.file_table
                (λ t. refl),
            other,
          )
          refl
    same l' (deleted current _ _ _ _) =
        unfold delete in
        rw
          (
            find_node-change n seek.name (λ t. record t { type = file_delete }) l.file_table
                (λ t. refl),
            other,
          )
          refl
    same l' (fresh none_there _) =
        unfold add in
        find_node-append_other n l.file_table (added myip (request seek.name seek))
          (unfold request in other)

-- Unless a deleted file is new to the peer, comparing with the same entry again changes nothing
-- and starts no second download.
pub compare_node_twice :
    (myip : CString) (seek : Node) (l : Local)
    → (find_node seek.name l.file_table ≢ none) ⊎ (seek.type ≢ file_delete)
    → (l' : Local) × (compare_node myip seek l ≡ ok l') × (compare_node myip seek l' ≡ ok l')
compare_node_twice myip seek l known =
    let (l', e, how) = compare_node-Compared myip seek l in (l', e, again l' how e)
  where
    again :
        (l' : Local)
        → Compared myip seek l l'
        → compare_node myip seek l ≡ ok l'
        → compare_node myip seek l' ≡ ok l'
    again l' (kept _) e = e
    again l' (updated current found _ up) e =
        compare_again myip seek (modified (request seek.name seek) current) l'
          (found_after_update seek current l found) (ground (arith, up)) (ground (arith, up))
    again l' (deleted current found _ older del) e =
        compare_again myip seek (record current { type = file_delete }) l'
          (found_after_delete seek current l found) (ground (arith, del)) (ground (arith, del))
    again l' (fresh none_there _) e =
        compare_again myip seek (added myip (request seek.name seek)) l'
          (found_after_add myip seek l none_there) (ground arith) (not_deleted known)
      where
        not_deleted :
            (find_node seek.name l.file_table ≢ none) ⊎ (seek.type ≢ file_delete)
            → is_deletion (added myip (request seek.name seek)) seek ≡ false
        not_deleted (inl there) = absurd (there none_there)
        not_deleted (inr live) = ground arith
