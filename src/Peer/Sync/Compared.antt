-- ===== src/Peer/Sync/Compared.antt =====
-- What one call of `compareNode` can do to the peer's table.
use dart_sync.Base.{
  ◌≡◌, refl, ◌<◌, true, false, none, some, List, ◌∷◌, CString, str_eq_iff, str_eq_refl, ltb, leb,
  arith, ok, Option-cases, Bool-cases, inl, inr, ◌⊎◌,
}
use dart_sync.Table.{Node, file_delete}
use dart_sync.Peer.Sync.Find.{find_node-name, find_node-change, find_node-append}
use dart_sync.Peer.Sync.{
  Local, Download, find_node, change, request, add, added, modify, modified, delete, is_update,
  is_deletion, compare_found, compare_node,
}

abbrev pub after_update : Node → Local → Local
after_update seek l = record l {
  file_table = change seek.name (modified (request seek.name seek)) l.file_table;
  downloads = request seek.name seek ∷ l.downloads;
}

abbrev pub after_delete : Node → Local → Local
after_delete seek l = record l {
  file_table = delete seek.name l.file_table;
  removed = seek.name ∷ l.removed;
}

abbrev pub after_add : CString → Node → Local → Local
after_add myip seek l = record l {
  file_table = add myip (request seek.name seek) l.file_table;
  downloads = request seek.name seek ∷ l.downloads;
}

-- Nothing is to be done.
abbrev pub Quiet : Node → Local → Type 0
Quiet seek l =
    ((find_node seek.name l.file_table ≡ none) × (ltb 0 seek.size ≡ false))
    ⊎ ((current : Node) × (find_node seek.name l.file_table ≡ some current)
        × ((leb current.timestamp seek.timestamp ≡ false) ⊎ (is_update current seek ≡ false)))

-- What one call can do, with the tests that lead there.
pub data Compared (myip : CString) (seek : Node) (l : Local) : Local → Type 0 where
  kept : Quiet seek l → Compared myip seek l l
  updated :
      (current : Node)
      → find_node seek.name l.file_table ≡ some current
      → current.name ≡ seek.name
      → is_update current seek ≡ true
      → Compared myip seek l (after_update seek l)
  deleted :
      (current : Node)
      → find_node seek.name l.file_table ≡ some current
      → current.name ≡ seek.name
      → leb current.timestamp seek.timestamp ≡ true
      → is_deletion current seek ≡ true
      → Compared myip seek l (after_delete seek l)
  fresh :
      find_node seek.name l.file_table ≡ none
      → 0 < seek.size
      → Compared myip seek l (after_add myip seek l)

modify-found :
    (d : Download) (table : List Node) (t : Node)
    → find_node d.filename table ≡ some t
    → modify d table ≡ ok (change d.filename (modified d) table)
unfolding modify
modify-found d table t e = rw (e, modify) refl

pub filename-request : (n : CString) (seek : Node) → (request n seek).filename ≡ n
unfolding request
filename-request n seek = refl

compare_found-Compared :
    (myip : CString) (seek current : Node) (l : Local)
    → find_node seek.name l.file_table ≡ some current
    → current.name ≡ seek.name
    → (l' : Local) × (compare_found seek l current ≡ ok l') × Compared myip seek l l'
unfolding compare_found
compare_found-Compared myip seek current l e same =
    elim (Bool-cases (leb current.timestamp seek.timestamp)) [
      | inl older ↦ elim (Bool-cases (is_update current seek)) [
        | inl up ↦ (
          after_update seek l,
          rw
              (
                older,
                up,
                same,
                modify-found (request seek.name seek) l.file_table current
                    (rw (filename-request seek.name seek) e),
                filename-request seek.name seek,
              )
              refl,
          updated current e same up,
        )
        | inr no_up ↦ elim (Bool-cases (is_deletion current seek)) [
          | inl del ↦ (
            after_delete seek l,
            rw (older, no_up, del, same) refl,
            deleted current e same older del,
          )
          | inr no_del ↦ (l, rw (older, no_up, no_del) refl, kept (inr (current, e, inr no_up)))
        ]
      ]
      | inr newer ↦ (l, rw newer refl, kept (inr (current, e, inl newer)))
    ]

-- `compareNode` returns, by one of the four ways.
pub compare_node-Compared :
    (myip : CString) (seek : Node) (l : Local)
    → (l' : Local) × (compare_node myip seek l ≡ ok l') × Compared myip seek l l'
unfolding compare_node
compare_node-Compared myip seek l = elim (Option-cases (find_node seek.name l.file_table)) [
  | inl e ↦ elim (Bool-cases (ltb 0 seek.size)) [
    | inl large ↦ (after_add myip seek l, rw (e, compare_node, large) refl, fresh e (ground arith))
    | inr small ↦ (l, rw (e, compare_node, small) refl, kept (inl (e, small)))
  ]
  | inr (current, e) ↦
      rw (e, compare_node)
        (compare_found-Compared myip seek current l e
          ((str_eq_iff current.name seek.name).0 (find_node-name seek.name l.file_table current e)))
]

-- Where `compareNode` leaves its file after an update, a deletion or an addition.
pub found_after_update :
    (seek current : Node) (l : Local)
    → find_node seek.name l.file_table ≡ some current
    → find_node seek.name (after_update seek l).file_table
      ≡ some (modified (request seek.name seek) current)
found_after_update seek current l e =
    rw
      (
        find_node-change seek.name seek.name (modified (request seek.name seek)) l.file_table
            (λ t. refl),
        str_eq_refl seek.name,
        e,
      )
      refl

pub found_after_delete :
    (seek current : Node) (l : Local)
    → find_node seek.name l.file_table ≡ some current
    → find_node seek.name (after_delete seek l).file_table
      ≡ some (record current { type = file_delete })
unfolding delete
found_after_delete seek current l e =
    rw
      (
        find_node-change seek.name seek.name (λ t. record t { type = file_delete }) l.file_table
            (λ t. refl),
        str_eq_refl seek.name,
        e,
      )
      refl

pub found_after_add :
    (myip : CString) (seek : Node) (l : Local)
    → find_node seek.name l.file_table ≡ none
    → find_node seek.name (after_add myip seek l).file_table
      ≡ some (added myip (request seek.name seek))
unfolding add
found_after_add myip seek l e =
    rw
      (
        find_node-append seek.name l.file_table (added myip (request seek.name seek)) e,
        filename-request seek.name seek,
        str_eq_refl seek.name,
      )
      refl
