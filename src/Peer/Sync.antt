-- ===== src/Peer/Sync.antt =====
-- peer/peer.c: the peer's file table and `compareNode`, which compares it with one entry of the
-- tracker's table. Starting a download thread and removing a file from the sync folder are effects
-- outside the table; they are logged.
pub mod Find
pub mod Names
pub mod Compared
pub mod Steady
pub mod Growth
pub mod Deleted
pub mod Fetch
pub mod Whole
mod Tests
use dart_sync.Base.{
  ℕ, zero, suc, Bool, true, false, ◌&&◌, ◌||◌, not, Option, none, some, List, [], ◌∷◌, ◌++◌,
  CString, str_eq, is_empty, ltb, leb, ◌==◌, if◌then◌else◌, set, length, Outcome, ok, fault, ◌>>=◌,
}
use dart_sync.Table.{Node, blank, no_peers, file_downloading, file_delete}

-- `download_arg_t`, with the addresses as they stand in the entry.
pub record Download : Type 0 where
  pub filename : CString
  pub size : ℕ
  pub timestamp : ℕ
  pub addr_list : List CString

-- `download_arg->peerNum`
abbrev pub peer_num : Download → ℕ
peer_num d = length d.addr_list

-- The globals, the downloads that were started and the files that were removed, the latest first.
pub record Local : Type 0 where
  pub file_table : List Node
  pub downloads : List Download
  pub removed : List CString

unfoldable pub find_node : CString → List Node → Option Node
find_node name [] = none
find_node name (t ∷ rest) = if str_eq t.name name then some t else find_node name rest

-- A change of the first entry with the name.
unfoldable pub change : CString → (Node → Node) → List Node → List Node
change name f [] = []
change name f (t ∷ rest) = if str_eq t.name name then f t ∷ rest else t ∷ change name f rest

-- `setNodeType`
unfoldable pub set_node_type : CString → ℕ → ℕ → List Node → List Node
unfolding change
set_node_type name type size = change name λ t. record t { type = type; size = size }

-- `for (i = 0; strlen(newpeerip[i]) != 0 && i < MAX_PEER_NUM; i++)` over the five places. With all
-- five in use the test reads behind the array and then stops at `i < MAX_PEER_NUM`.
unfoldable pub addresses : List CString → List CString
addresses [] = []
addresses (s ∷ rest) = if is_empty s then [] else s ∷ addresses rest

unfoldable pub request : CString → Node → Download
unfolding addresses
request name seek = record {
  filename = name;
  size = seek.size;
  timestamp = seek.timestamp;
  addr_list = addresses seek.newpeerip;
}

-- The entry that `add` appends; `myip` is what `getmyip` returns.
abbrev pub added : CString → Download → Node
added myip d = record blank {
  type = file_downloading;
  size = d.size;
  name = d.filename;
  timestamp = d.timestamp;
  newpeerip = set no_peers 0 myip;
}

unfoldable pub add : CString → Download → List Node → List Node
add myip d table = table ++ added myip d ∷ []

abbrev pub modified : Download → Node → Node
modified d t = record t { size = d.size; timestamp = d.timestamp; type = file_downloading }

-- `modify` walks off the end of the table if no entry has the name.
pub modify : Download → List Node → Outcome (List Node)
modify d table = elim (find_node d.filename table) [
  | none ↦ fault
  | some _ ↦ ok (change d.filename (modified d) table)
]

-- `delete` on the entry that was found.
unfoldable pub delete : CString → List Node → List Node
delete name = change name λ t. record t { type = file_delete }

-- The two tests of `compareNode` on an entry that was found.
abbrev pub is_update : Node → Node → Bool
is_update current seek =
    ltb 0 seek.size
    && not (current.type == file_downloading)
    && not (seek.type == file_delete)
    && (ltb current.timestamp seek.timestamp
        || (current.timestamp == seek.timestamp && ltb current.size seek.size))

abbrev pub is_deletion : Node → Node → Bool
is_deletion current seek = seek.type == file_delete && not (current.type == file_delete)

pub compare_found : Node → Local → Node → Outcome Local
compare_found seek l current =
    if leb current.timestamp seek.timestamp
    then (if is_update current seek
        then (do
          table ← modify (request current.name seek) l.file_table
          ok (record l { file_table = table; downloads = request current.name seek ∷ l.downloads }))
        else if is_deletion current seek
        then ok (record l {
          file_table = delete current.name l.file_table;
          removed = current.name ∷ l.removed;
        })
        else ok l)
    else ok l

unfoldable pub compare_node : CString → Node → Local → Outcome Local
compare_node myip seek l = elim (find_node seek.name l.file_table) [
  | some current ↦ compare_found seek l current
  | none ↦
      if ltb 0 seek.size
      then ok (record l {
        file_table = add myip (request seek.name seek) l.file_table;
        downloads = request seek.name seek ∷ l.downloads;
      })
      else ok l
]

-- The loop of `main` over a received table.
unfoldable pub compare_nodes : CString → List Node → Local → Outcome Local
compare_nodes myip [] l = ok l
compare_nodes myip (seek ∷ seeks) l = do l' ← compare_node myip seek l; compare_nodes myip seeks l'
