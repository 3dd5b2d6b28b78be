-- ===== src/Peer/Sync/Growth.antt =====
-- `compareNode` and versions: the peer never falls back, and catches up with the tracker.
use dart_sync.Base.{◌<◌, ◌≡◌, refl, ◌≢◌, inl, inr, some, CString, arith, ok}
use dart_sync.Table.{Node, file_delete, file_downloading}
use dart_sync.Tracker.Merge.Versions.{version, ◌⊑◌}
use dart_sync.Peer.Sync.{Local, find_node, request, added, modified, compare_node}
use dart_sync.Peer.Sync.Compared.{
  Compared, kept, updated, deleted, fresh, compare_node-Compared, found_after_update,
  found_after_delete, found_after_add,
}

pub Compared-grows :
    (myip : CString) (seek current : Node) (l l' : Local)
    → Compared myip seek l l'
    → find_node seek.name l.file_table ≡ some current
    → (t : Node) × (find_node seek.name l'.file_table ≡ some t) × (version current ⊑ version t)
Compared-grows myip seek current l l' (kept _) e = (current, e, inr (refl, omega arith))
Compared-grows myip seek current l l' (updated c found _ up) e = (
  modified (request seek.name seek) current,
  found_after_update seek current l e,
  unfold request in (let same : current ≡ c = cc (e, found) in rw same (ground (arith, up))),
)
Compared-grows myip seek current l l' (deleted c found _ _ _) e = (
  record current { type = file_delete },
  found_after_delete seek current l e,
  inr (refl, omega arith),
)
Compared-grows myip seek current l l' (fresh absent _) e = cc (e, absent)

-- compareNode on a file that the peer has returns, and the version in the peer's entry never goes
-- down.
pub compare_node-grows :
    (myip : CString) (seek current : Node) (l : Local)
    → find_node seek.name l.file_table ≡ some current
    → (l' : Local) × (t : Node) × (compare_node myip seek l ≡ ok l')
      × (find_node seek.name l'.file_table ≡ some t)
      × (version current ⊑ version t)
compare_node-grows myip seek current l e =
    let (l', got, how) = compare_node-Compared myip seek l in
    let (t, there, le) = Compared-grows myip seek current l l' how e in (l', t, got, there, le)

-- For a live tracker entry that is not empty, and unless the peer is already downloading the file,
-- compareNode returns and leaves the peer with an entry of the tracker's version or a newer one.
pub compare_node-catches_up :
    (myip : CString) (seek : Node) (l : Local)
    → 0 < seek.size
    → seek.type ≢ file_delete
    → ((current : Node)
        → find_node seek.name l.file_table ≡ some current
        → current.type ≢ file_downloading)
    → (l' : Local) × (t : Node) × (compare_node myip seek l ≡ ok l')
      × (find_node seek.name l'.file_table ≡ some t)
      × (version seek ⊑ version t)
compare_node-catches_up myip seek l large live settled =
    let (l', got, how) = compare_node-Compared myip seek l in
    let (t, there, le) = after l' how in (l', t, got, there, le)
  where
    after :
        (l' : Local)
        → Compared myip seek l l'
        → (t : Node) × (find_node seek.name l'.file_table ≡ some t) × (version seek ⊑ version t)
    after l' (kept (inl (_, small))) = absurd (ground (arith, small))
    after l' (kept (inr (current, found, inl newer))) = (current, found, ground (arith, newer))
    after l' (kept (inr (current, found, inr no_up))) =
        (current, found, ground (arith, no_up, settled current found))
    after l' (updated current found _ up) = (
      modified (request seek.name seek) current,
      found_after_update seek current l found,
      unfold request in inr (refl, omega arith),
    )
    after l' (deleted current found _ _ del) = absurd (ground (arith, del, live))
    after l' (fresh absent _) = (
      added myip (request seek.name seek),
      found_after_add myip seek l absent,
      unfold request in inr (refl, omega arith),
    )
