-- ===== src/Peer/Folders/Bounds.antt =====
-- The fixed places of `notify`: what becomes of the directories that the walk found.
use mathlib.Core.List.{append_assoc}
use dart_sync.Base.{
  ℕ, zero, suc, ◌+◌, ◌-◌, ◌≡◌, ◌<◌, ◌≤◌, refl, ap, ◌∙◌, arith, true, false, List, [], ◌∷◌, ◌++◌,
  ltb, length, length-append, set, replicate, ok, fault,
}
use dart_sync.Peer.Folders.{
  max_subdir_num, DirNode, DirTree, Folder, nowhere, in_node, Folders, add_folder, watch_nodes,
  notify_start,
}

-- Pointers to the paths of the nodes.
abbrev pub folders_of : List DirNode → List Folder
folders_of [] = []
folders_of (node ∷ rest) = in_node node.addr ∷ folders_of rest

set-append :
    (front rest : List Folder) (a b : Folder)
    → set (front ++ a ∷ rest) (length front) b ≡ (front ++ b ∷ []) ++ rest
set-append [] rest a b = refl
set-append (c ∷ front) rest a b = ap (◌∷◌ c) (set-append front rest a b)

length-snoc : (front : List Folder) (b : Folder) → length (front ++ b ∷ []) ≡ suc (length front)
length-snoc front b = omega (arith, length-append front (b ∷ []))

watch_nodes-room :
    (nodes : List DirNode) (front : List Folder) (k : ℕ)
    → length front + k ≡ max_subdir_num
    → length nodes ≤ k
    → watch_nodes nodes (length front, front ++ replicate k nowhere)
      ≡ ok (
        length front + length nodes,
        front ++ (folders_of nodes ++ replicate (k - length nodes) nowhere),
      )
unfolding watch_nodes add_folder
watch_nodes-room [] front k e h =
    let n : length front ≡ length front + 0 = omega arith in
    let j : k ≡ k - 0 = omega arith in
    ap (λ m. ok (m, front ++ replicate k nowhere)) n
    ∙ ap (λ m. ok (length front + 0, front ++ replicate m nowhere)) j
watch_nodes-room (node ∷ rest) front zero e h = absurd (omega arith)
watch_nodes-room (node ∷ rest) front (suc k) e h =
    let room : ltb (length front) max_subdir_num ≡ true = ground (arith, e) in
    let front' : List Folder = front ++ in_node node.addr ∷ [] in
    let n : suc (length front) ≡ length front' =
      omega (arith, length-snoc front (in_node node.addr)) in
    let m : length front' + length rest ≡ length front + length (node ∷ rest) = omega (arith, n) in
    let j : k - length rest ≡ suc k - length (node ∷ rest) = omega arith in
    rw (room, set-append front (replicate k nowhere) nowhere (in_node node.addr), n)
      (watch_nodes-room rest front' k (omega (arith, n, e)) (omega (arith, h))
        ∙ rw (m, j, append_assoc) refl)

watch_nodes-full :
    (nodes : List DirNode) (front : List Folder) (k : ℕ)
    → length front + k ≡ max_subdir_num
    → k < length nodes
    → watch_nodes nodes (length front, front ++ replicate k nowhere) ≡ fault
unfolding watch_nodes add_folder
watch_nodes-full [] front k e h = absurd (omega arith)
watch_nodes-full (node ∷ rest) front zero e h =
    let full : ltb (length front) max_subdir_num ≡ false = ground (arith, e) in rw full refl
watch_nodes-full (node ∷ rest) front (suc k) e h =
    let room : ltb (length front) max_subdir_num ≡ true = ground (arith, e) in
    let front' : List Folder = front ++ in_node node.addr ∷ [] in
    let n : suc (length front) ≡ length front' =
      omega (arith, length-snoc front (in_node node.addr)) in
    rw (room, set-append front (replicate k nowhere) nowhere (in_node node.addr), n)
      (watch_nodes-full rest front' k (omega (arith, n, e)) (omega (arith, h)))

-- The monitor as it starts to wait for events: every directory is watched, the others are NULL.
abbrev pub watching : DirTree → Folders
watching t = record {
  tree = t;
  folder_array = folders_of t.nodes ++ replicate (max_subdir_num - length t.nodes) nowhere;
  count = length t.nodes;
}

pub notify_start_bounds :
    (t : DirTree)
    → (length t.nodes ≤ max_subdir_num → notify_start t ≡ ok (watching t))
      × (max_subdir_num < length t.nodes → notify_start t ≡ fault)
unfolding notify_start
notify_start_bounds t = (
  λ h.
      let n : 0 + length t.nodes ≡ length t.nodes = omega arith in
      rw (watch_nodes-room t.nodes [] max_subdir_num refl h, n) refl,
  λ h. rw (watch_nodes-full t.nodes [] max_subdir_num refl h) refl,
)
