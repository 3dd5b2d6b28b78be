-- ===== src/Peer/Folders/Walk.antt =====
-- The list of directories that the walk of `nftw` leaves, and what `notify` makes of it.
use mathlib.Core.List.{append_assoc, append-nil}
use dart_sync.Base.{
  ℕ, suc, ◌≡◌, ◌<◌, ◌≤◌, refl, ap, ◌∙◌, arith, Bool, true, false, List, [], ◌∷◌, ◌++◌, CString, ltb,
  ◌==◌, if◌then◌else◌, length, length-append, ok, fault, ◌>>=◌, All,
}
use dart_sync.Table.{file_name_len}
use dart_sync.Peer.Folders.{
  max_subdir_num, DirNode, DirTree, add_dir_node, print_entries, print_directory_tree, notify_start,
}
use dart_sync.Peer.Folders.Bounds.{watching, notify_start_bounds}

-- A path of the walk that fits into a node with its `/`.
abbrev pub Short : ℕ × CString × Bool → Type 0
Short (fresh, filepath, is_dir) = suc (length filepath) < file_name_len

abbrev pub node_of : ℕ → CString → DirNode
node_of fresh filepath = record { addr = fresh; dirpath = filepath ++ 47 ∷ [] }

-- The nodes for the directories of a walk.
abbrev pub dirs_of : List (ℕ × CString × Bool) → List DirNode
dirs_of [] = []
dirs_of ((fresh, filepath, is_dir) ∷ entries) =
    if is_dir then node_of fresh filepath ∷ dirs_of entries else dirs_of entries

-- A list with its number of nodes.
abbrev pub counted : List DirNode → DirTree
counted nodes = record { nodes = nodes; dir_num = length nodes }

pub add_dir_node-counted :
    (fresh : ℕ) (dirpath : CString) (nodes : List DirNode)
    → suc (length dirpath) < file_name_len
    → add_dir_node fresh dirpath (counted nodes)
      ≡ ok (counted (nodes ++ node_of fresh dirpath ∷ []))
unfolding add_dir_node
add_dir_node-counted fresh dirpath [] h =
    let fits : ltb (suc (length dirpath)) file_name_len ≡ true = ground arith in rw fits refl
add_dir_node-counted fresh dirpath (node ∷ rest) h =
    let fits : ltb (suc (length dirpath)) file_name_len ≡ true = ground arith in
    let more : (suc (length rest) == 0) ≡ false = ground arith in
    let n : suc (suc (length rest)) ≡ length (node ∷ (rest ++ node_of fresh dirpath ∷ [])) =
      omega (arith, length-append rest (node_of fresh dirpath ∷ [])) in
    rw (fits, more, n) refl

print_entries-counted :
    (entries : List (ℕ × CString × Bool)) (nodes : List DirNode)
    → All Short entries
    → print_entries entries (counted nodes) ≡ ok (counted (nodes ++ dirs_of entries))
unfolding print_entries
print_entries-counted [] nodes h = ap (λ ns. ok (counted ns)) (rw append-nil refl)
print_entries-counted ((fresh, filepath, true) ∷ entries) nodes h =
    rw (add_dir_node-counted fresh filepath nodes h.0) (
      print_entries-counted entries (nodes ++ node_of fresh filepath ∷ []) h.1
      ∙ rw append_assoc refl)
print_entries-counted ((fresh, filepath, false) ∷ entries) nodes h =
    print_entries-counted entries nodes h.1

-- When the paths of the walk fit into a node, notify starts with a watch for each directory, in
-- order and in a place of its own, up to MAX_SUBDIR_NUM directories, and faults with more.
pub notify_start-print_directory_tree :
    (entries : List (ℕ × CString × Bool))
    → All Short entries
    → (length (dirs_of entries) ≤ max_subdir_num
        → (print_directory_tree entries >>= notify_start)
          ≡ ok (watching (counted (dirs_of entries))))
      × (max_subdir_num < length (dirs_of entries)
          → (print_directory_tree entries >>= notify_start) ≡ fault)
notify_start-print_directory_tree entries h =
    let walked = print_entries-counted entries [] h in
    let (room, full) = notify_start_bounds (counted (dirs_of entries)) in
    (λ few. rw walked (room few), λ many. rw walked (full many))
