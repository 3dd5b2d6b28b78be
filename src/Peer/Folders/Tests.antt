-- ===== src/Peer/Folders/Tests.antt =====
-- peer/monitor.c, directories: a sync folder `s` with one directory `d` and one file in it.
use dart_sync.Base.{
  ℕ, ◌≡◌, ◌<◌, ◌≤◌, refl, arith, Bool, true, false, List, [], ◌∷◌, CString, ok, fault, ◌>>=◌,
}
use dart_sync.Peer.Folders.{
  max_subdir_num, DirTree, contains, print_directory_tree, notify_start, dir_deleted,
}
use dart_sync.Peer.Folders.Bounds.{watching}
use dart_sync.Peer.Folders.Walk.{dirs_of, counted, notify_start-print_directory_tree}
use dart_sync.Peer.Folders.Stale.{dir_deleted-watching}

abbrev root : CString
root = 115 ∷ []

abbrev inner : CString
inner = 115 ∷ 47 ∷ 100 ∷ []

abbrev walk : List (ℕ × CString × Bool)
walk = (16, root, true) ∷ (32, inner, true) ∷ (48, 115 ∷ 47 ∷ 102 ∷ [], false) ∷ []

abbrev two_dirs : DirTree
two_dirs = counted (dirs_of walk)

notify_start-print_directory_tree_example :
    (2 ≤ max_subdir_num → (print_directory_tree walk >>= notify_start) ≡ ok (watching two_dirs))
    × (max_subdir_num < 2 → (print_directory_tree walk >>= notify_start) ≡ fault)
notify_start-print_directory_tree_example =
    notify_start-print_directory_tree walk (omega arith, (omega arith, (omega arith, tt)))

dir_deleted-watching_example :
    (true ≡ true → dir_deleted inner (watching two_dirs) ≡ fault)
    × (true ≡ false → dir_deleted inner (watching two_dirs) ≡ ok (watching two_dirs))
unfolding contains
dir_deleted-watching_example = dir_deleted-watching inner two_dirs (refl, (refl, tt))
