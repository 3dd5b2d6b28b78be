-- ===== src/Peer/Folders/Stale.antt =====
-- Pointers of `folderArray` that no longer lead to a path: directories that were deleted, and
-- directories that were created while the monitor runs.
use mathlib.Core.List.{append_assoc}
use dart_sync.Base.{
  ℕ, zero, suc, ◌-◌, ◌≡◌, ◌<◌, refl, sym, subst, arith, Bool, true, false, List, [], ◌∷◌, ◌++◌,
  CString, ltb, length, get_or, set, replicate, ok, fault, >>=-ok_inv, Bool-cases, inl, inr,
}
use dart_sync.Peer.Monitor.{Change, Stat}
use dart_sync.Peer.Folders.{
  max_subdir_num, DirNode, DirTree, contains, delete_dir_node, Folder, nowhere, in_abspath, Folders,
  add_folder, add_dir_node, folder_path, dir_created, release, dir_deleted, Monitor, notify_step,
}
use dart_sync.Peer.Folders.Bounds.{folders_of, watching}
use dart_sync.Peer.Folders.Nodes.{
  Apart, any_contains, cut, unlink_dir-cut, unlink_dir-none, node_path-absent, node_path-here,
  absent-append, AwayFrom, joins_front,
}

-- The walk of `release` from a node on: it comes to the one that was freed, or changes nothing.
module _ (path : CString) (tail : List Folder) where
  release-freed :
      (front rest : List DirNode)
      → Apart rest
      → AwayFrom front rest
      → any_contains path rest ≡ true
      → release path (front ++ cut path rest) (folders_of rest ++ tail) ≡ fault
  unfolding release
  release-freed front [] u k h = cc h
  release-freed front (node ∷ rest) u k h = elim (Bool-cases (contains node.dirpath path)) [
    | inl hit ↦
        rw
          (
            hit,
            node_path-absent node.addr (front ++ rest) (absent-append node.addr front rest k.0 u.0),
          )
          refl
    | inr miss ↦
        let further : release path (front ++ node ∷ cut path rest) (folders_of rest ++ tail)
            ≡ fault =
          subst (λ ns. release path ns (folders_of rest ++ tail) ≡ fault)
            (append_assoc front (node ∷ []) (cut path rest))
            (release-freed (front ++ node ∷ []) rest u.1 (joins_front front rest node u.0 k.1)
              (rw miss at h)) in
        let cutting : cut path (node ∷ rest) ≡ node ∷ cut path rest = rw miss refl in
        subst (λ ns. release path (front ++ ns) (folders_of (node ∷ rest) ++ tail) ≡ fault)
          (sym cutting) (rw (node_path-here front (cut path rest) node k.0, miss, further) refl)
  ]

  release-kept :
      (front rest : List DirNode)
      → Apart rest
      → AwayFrom front rest
      → any_contains path rest ≡ false
      → release path (front ++ rest) tail ≡ ok tail
      → release path (front ++ rest) (folders_of rest ++ tail) ≡ ok (folders_of rest ++ tail)
  unfolding release
  release-kept front [] u k h e = e
  release-kept front (node ∷ rest) u k h e = elim (Bool-cases (contains node.dirpath path)) [
    | inl hit ↦ cc (rw hit at h)
    | inr miss ↦
        let further : release path (front ++ node ∷ rest) (folders_of rest ++ tail)
            ≡ ok (folders_of rest ++ tail) =
          subst (λ ns. release path ns (folders_of rest ++ tail) ≡ ok (folders_of rest ++ tail))
            (append_assoc front (node ∷ []) rest)
            (release-kept (front ++ node ∷ []) rest u.1 (joins_front front rest node u.0 k.1)
              (rw miss at h)
              (subst (λ ns. release path ns tail ≡ ok tail)
                (sym (append_assoc front (node ∷ []) rest)) e)) in
        rw (node_path-here front rest node k.0, miss, further) refl
  ]

release-nowhere :
    (path : CString) (nodes : List DirNode) (k : ℕ)
    → release path nodes (replicate k nowhere) ≡ ok (replicate k nowhere)
unfolding release
release-nowhere path nodes zero = refl
release-nowhere path nodes (suc k) = rw (release-nowhere path nodes k) refl

away-nil : (nodes : List DirNode) → AwayFrom [] nodes
away-nil [] = tt
away-nil (node ∷ rest) = (refl, away-nil rest)

get_or-set :
    (folders : List Folder) (i : ℕ) (a b : Folder)
    → i < length folders
    → get_or (set folders i a) i b ≡ a
get_or-set [] i a b h = absurd (omega arith)
get_or-set (c ∷ folders) zero a b h = refl
get_or-set (c ∷ folders) (suc i) a b h = get_or-set folders i a b (omega arith)

-- With distinct nodes in the list, when no event has come since notify started, the deletion of a
-- directory whose path stands in the path of a watched one faults, and the deletion of any other
-- changes nothing.
pub dir_deleted-watching :
    (path : CString) (t : DirTree)
    → Apart t.nodes
    → (any_contains path t.nodes ≡ true → dir_deleted path (watching t) ≡ fault)
      × (any_contains path t.nodes ≡ false → dir_deleted path (watching t) ≡ ok (watching t))
unfolding dir_deleted delete_dir_node
dir_deleted-watching path t u = by_nodes t.nodes t.dir_num u
  where
    by_nodes :
        (nodes : List DirNode) (n : ℕ)
        → Apart nodes
        → (any_contains path nodes ≡ true
            → dir_deleted path (watching (record { nodes = nodes; dir_num = n })) ≡ fault)
          × (any_contains path nodes ≡ false
              → dir_deleted path (watching (record { nodes = nodes; dir_num = n }))
                ≡ ok (watching (record { nodes = nodes; dir_num = n })))
    by_nodes [] n u = (λ h. cc h, λ h. refl)
    by_nodes (node ∷ rest) n u = (
      λ h. elim (Bool-cases (contains node.dirpath path)) [
        | inl hit ↦ rw hit refl
        | inr miss ↦
            let cutting : cut path (node ∷ rest) ≡ node ∷ cut path rest = rw miss refl in
            let later : any_contains path rest ≡ true = rw miss at h in
            let tail : List Folder = replicate (max_subdir_num - length (node ∷ rest)) nowhere in
            let freed : release path (node ∷ cut path rest) (folders_of (node ∷ rest) ++ tail)
                ≡ fault =
              subst (λ ns. release path ns (folders_of (node ∷ rest) ++ tail) ≡ fault) cutting
                (release-freed path tail [] (node ∷ rest) u (away-nil (node ∷ rest)) h) in
            rw (miss, unlink_dir-cut path rest later, freed) refl
      ],
      λ h. elim (Bool-cases (contains node.dirpath path)) [
        | inl hit ↦ cc (rw hit at h)
        | inr miss ↦
            let later : any_contains path rest ≡ false = rw miss at h in
            let j : ℕ = max_subdir_num - length (node ∷ rest) in
            let kept =
              release-kept path (replicate j nowhere) [] (node ∷ rest) u (away-nil (node ∷ rest)) h
                (release-nowhere path (node ∷ rest) j) in
            rw (miss, unlink_dir-none path rest later, kept) refl
      ],
    )

-- After a directory was created while the monitor runs every event in it faults, since folderArray
-- leads to abspath itself.
pub dir_created-notify_step :
    (fresh : ℕ) (abspath : CString) (f f' : Folders)
    → length f.folder_array ≡ max_subdir_num
    → dir_created fresh abspath f ≡ ok f'
    → (kind : Change) (is_dir : Bool) (name : CString) (before stat : Stat) (now fresh' : ℕ)
      (m : Monitor)
    → notify_step kind is_dir f.count name before stat now fresh' (record m { folders = f' })
      ≡ fault
unfolding dir_created add_folder notify_step
dir_created-notify_step fresh abspath f f' full e kind is_dir name before stat now fresh' m =
    let (t, _, after) = >>=-ok_inv (add_dir_node fresh abspath f.tree) _ f' e in
    elim (Bool-cases (ltb f.count max_subdir_num)) [
      | inl room ↦
          let made : Folders = record {
            tree = t;
            folder_array = set f.folder_array f.count in_abspath;
            count = suc f.count;
          } in
          let same : made ≡ f' = cc (rw room at after) in
          let stale : get_or (set f.folder_array f.count in_abspath) f.count nowhere ≡ in_abspath =
            get_or-set f.folder_array f.count in_abspath nowhere (ground (arith, room, full)) in
          let lost : folder_path made f.count ≡ fault = rw (folder_path, stale) refl in
          rw (subst (λ g. folder_path g f.count ≡ fault) same lost) refl
      | inr over ↦ cc (rw over at after)
    ]
