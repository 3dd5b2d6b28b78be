-- ===== src/Peer/Folders.antt =====
-- peer/monitor.c: the directories that the monitor watches, the list `dir_tree` of them and the arrays
-- of `notify`. Nodes of the list have addresses, since `folderArray` points into them. The walk of
-- `nftw` is an argument, the list of the entries that it visits.
pub mod Walk
pub mod Bounds
pub mod Nodes
pub mod Stale
pub mod Reads
mod Tests
use dart_sync.Base.{
  ℕ, zero, suc, ◌+◌, ◌-◌, Bool, true, false, ◌||◌, ◌&&◌, Option, none, some, List, [], ◌∷◌, ◌++◌,
  CString, ltb, ◌==◌, if◌then◌else◌, length, set, replicate, Outcome, ok, fault, ◌>>=◌, get_or,
}
use dart_sync.Table.{file_name_len}
use dart_sync.Peer.Monitor.{
  Change, in_create, in_open, in_delete, in_modify, is_watched, Stat, Watch, notify_event,
}

abbrev pub max_subdir_num : ℕ
max_subdir_num = 50

pub record DirNode : Type 0 where
  pub addr : ℕ
  pub dirpath : CString

-- The list from its head to its tail, and `dirNum`.
pub record DirTree : Type 0 where
  pub nodes : List DirNode
  pub dir_num : ℕ

abbrev pub empty_tree : DirTree
empty_tree = record { nodes = []; dir_num = 0 }

-- `strstr(whole, part) != NULL`
abbrev pub starts_with : CString → CString → Bool
starts_with whole [] = true
starts_with [] (b ∷ part) = false
starts_with (a ∷ whole) (b ∷ part) = (a == b) && starts_with whole part

unfoldable pub contains : CString → CString → Bool
contains [] part = starts_with [] part
contains (a ∷ whole) part = starts_with (a ∷ whole) part || contains whole part

-- Behind the tail, or as the head when `dirNum` is 0; `fresh` is what `calloc` returns. A path that
-- does not fit into `char[FILE_NAME_LEN]` with its `/` is a fault, and so is a tail that is NULL.
pub add_dir_node : ℕ → CString → DirTree → Outcome DirTree
add_dir_node fresh dirpath t =
    if ltb (suc (length dirpath)) file_name_len
    then (let node : DirNode = record { addr = fresh; dirpath = dirpath ++ 47 ∷ [] } in
        if t.dir_num == 0 then ok (record { nodes = node ∷ []; dir_num = 1 }) else elim t.nodes [
          | [] ↦ fault
          | head ∷ rest ↦
              ok (record { nodes = head ∷ (rest ++ node ∷ []); dir_num = suc t.dir_num })
        ])
    else fault

-- The list without its first node that has the path in its own, if there is one.
pub unlink_dir : CString → List DirNode → Option (List DirNode)
unlink_dir dirpath [] = none
unlink_dir dirpath (node ∷ rest) =
    if contains node.dirpath dirpath
    then some rest
    else elim (unlink_dir dirpath rest) [ none ↦ none | some rest' ↦ some (node ∷ rest') ]

-- The flag is true for 0 and false for -1. At the head `prev` is NULL.
pub delete_dir_node : CString → DirTree → Outcome (Bool × DirTree)
unfolding unlink_dir
delete_dir_node dirpath t = elim t.nodes [
  | [] ↦ ok (false, t)
  | head ∷ rest ↦ if contains head.dirpath dirpath then fault else elim (unlink_dir dirpath rest) [
    | none ↦ ok (false, t)
    | some rest' ↦ ok (true, record { nodes = head ∷ rest'; dir_num = t.dir_num - 1 })
  ]
]

-- One call of `print_entry`: the new address, the path, and whether it is a directory.
abbrev pub print_entry : ℕ × CString × Bool → DirTree → Outcome DirTree
print_entry (fresh, filepath, is_dir) t = if is_dir then add_dir_node fresh filepath t else ok t

pub print_entries : List (ℕ × CString × Bool) → DirTree → Outcome DirTree
print_entries [] t = ok t
print_entries (entry ∷ entries) t = do t' ← print_entry entry t; print_entries entries t'

abbrev pub print_directory_tree : List (ℕ × CString × Bool) → Outcome DirTree
print_directory_tree entries = print_entries entries empty_tree

-- What `folderArray[i]` is: NULL, a pointer into the node at an address, or a pointer to `abspath`.
pub data Folder : Type 0 where
  nowhere : Folder
  in_node : ℕ → Folder
  in_abspath : Folder

-- The list, `folderArray` and `count`.
pub record Folders : Type 0 where
  pub tree : DirTree
  pub folder_array : List Folder
  pub count : ℕ

-- `folderArray[count++] = folder`, beside the watch of the same number.
pub add_folder : Folder → ℕ × List Folder → Outcome (ℕ × List Folder)
add_folder folder (count, folders) =
    if ltb count max_subdir_num then ok (suc count, set folders count folder) else fault

pub watch_nodes : List DirNode → ℕ × List Folder → Outcome (ℕ × List Folder)
unfolding add_folder
watch_nodes [] a = ok a
watch_nodes (node ∷ rest) a = do a' ← add_folder (in_node node.addr) a; watch_nodes rest a'

-- `notify` up to its endless loop.
pub notify_start : DirTree → Outcome Folders
unfolding watch_nodes
notify_start t = do
  (count, folders) ← watch_nodes t.nodes (0, replicate max_subdir_num nowhere)
  ok (record { tree = t; folder_array = folders; count = count })

-- The path in the node at an address: a fault once the node is freed.
pub node_path : ℕ → List DirNode → Outcome CString
node_path a [] = fault
node_path a (node ∷ rest) = if a == node.addr then ok node.dirpath else node_path a rest

-- `folderArray[wd - 1]` as the first string of `sprintf(abspath, "%s%s", ...)`, with `i` for `wd - 1`.
-- NULL is a fault, and so is `abspath` itself, which `sprintf` must not read while it writes it.
pub folder_path : Folders → ℕ → Outcome CString
unfolding node_path
folder_path f i = elim (get_or f.folder_array i nowhere) [
  | nowhere ↦ fault
  | in_abspath ↦ fault
  | in_node a ↦ node_path a f.tree.nodes
]

pub dir_created : ℕ → CString → Folders → Outcome Folders
unfolding add_dir_node add_folder
dir_created fresh abspath f = do
  t ← add_dir_node fresh abspath f.tree
  (count, folders) ← add_folder in_abspath (f.count, f.folder_array)
  ok (record { tree = t; folder_array = folders; count = count })

-- The loop over `folderArray` that drops the first folder with the path in its own.
pub release : CString → List DirNode → List Folder → Outcome (List Folder)
unfolding node_path
release abspath nodes [] = ok []
release abspath nodes (folder ∷ rest) =
    let further = (do rest' ← release abspath nodes rest; ok (folder ∷ rest')) in
    elim folder [
      | nowhere ↦ further
      | in_abspath ↦ ok (nowhere ∷ rest)
      | in_node a ↦ do
        path ← node_path a nodes
        if contains path abspath then ok (nowhere ∷ rest) else further
    ]

pub dir_deleted : CString → Folders → Outcome Folders
unfolding delete_dir_node release
dir_deleted abspath f = do
  (_, t) ← delete_dir_node abspath f.tree
  folders ← release abspath t.nodes f.folder_array
  ok (record f { tree = t; folder_array = folders })

-- What `notify` does on a directory.
abbrev pub dir_event : Change → ℕ → CString → Folders → Outcome Folders
dir_event Change.in_create fresh abspath f = dir_created fresh abspath f
dir_event Change.in_open fresh abspath f = ok f
dir_event Change.in_delete fresh abspath f = dir_deleted abspath f
dir_event Change.in_modify fresh abspath f = ok f

-- The globals and locals of the monitor.
pub record Monitor : Type 0 where
  pub watch : Watch
  pub folders : Folders

-- One event of `notify`. A path that does not fit into `abspath` is a fault.
pub notify_step : Change → Bool → ℕ → CString → Stat → Stat → ℕ → ℕ → Monitor → Outcome Monitor
unfolding folder_path dir_created dir_deleted
notify_step kind is_dir i name before stat now fresh m = do
  folder ← folder_path m.folders i
  if ltb (length folder + length name) file_name_len
      then (if is_dir
          then (if is_watched kind name
              then (do
                f ← dir_event kind fresh (folder ++ name) m.folders
                ok (record m { folders = f }))
              else ok m)
          else (do
            w ← notify_event kind before stat now folder name m.watch
            ok (record m { watch = w })))
      else fault
