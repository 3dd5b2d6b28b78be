-- ===== src/Tracker/Merge.antt =====
-- tracker/tracker.c: `update_filetable` and `display_filetable`. The global `ft` is `none` while it is
-- NULL. An entry found by name is brought up to date in place, a new one is appended.
pub mod Versions
pub mod Newest
pub mod Invariant
pub mod Sources
pub mod Origin
pub mod Tests
use dart_sync.Base.{
  ℕ, zero, suc, Bool, true, false, ◌&&◌, ◌||◌, Option, none, some, List, [], ◌∷◌, ◌++◌, CString,
  str_eq, ltb, ◌==◌, if◌then◌else◌, get_or, set, Outcome, ok, fault, ◌>>=◌,
}
use dart_sync.Table.{Node, blank, max_peer_num, no_peers, file_delete}
use dart_sync.Tracker.Slots.{add_slot}

-- `for (index = 1; index < MAX_PEER_NUM; index++) memset(newpeerip[index], 0, IP_LEN + 1)`
pub clear_slots : ℕ → List CString → ℕ → List CString
clear_slots zero ips index = ips
clear_slots (suc rounds) ips index = clear_slots rounds (set ips index []) (suc index)

-- The announcing peer's address, `peer_ftemp->newpeerip[0]`.
abbrev pub announcer : Node → CString
announcer p = get_or p.newpeerip 0 []

-- The tracker's entry and the peer's entry of one name: `UPDATE_FILE_PEERS`, `UPDATE_FILE_VERSION`,
-- or nothing when the tracker's version is the newer one.
pub update_entry : Node → Node → Node
unfolding clear_slots
update_entry t p =
    if t.timestamp == p.timestamp && t.size == p.size
    then record t { newpeerip = add_slot (announcer p) t.newpeerip }
    else if (t.timestamp == p.timestamp && ltb t.size p.size) || ltb t.timestamp p.timestamp
    then record t {
      size = p.size;
      timestamp = p.timestamp;
      type = p.type;
      status = p.status;
      newpeerip = clear_slots 4 (set t.newpeerip 0 (announcer p)) 1;
    }
    else t

-- `ADD_FILE`: a zeroed entry with the peer's data.
pub new_entry : Node → Node
new_entry p = record blank {
  name = p.name;
  newpeerip = set no_peers 0 (announcer p);
  size = p.size;
  timestamp = p.timestamp;
  type = p.type;
  status = p.status;
}

-- The walk over the tracker's table: the table with the first entry of that name brought up to date,
-- and `file_found`.
pub find_update : Node → List Node → List Node × Bool
find_update p [] = ([], false)
find_update p (t ∷ rest) =
    let (rest', found) = find_update p rest in
    if str_eq t.name p.name then (update_entry t p ∷ rest, true) else (t ∷ rest', found)

pub add_unless : Node → List Node × Bool → List Node
unfolding new_entry
add_unless p (table, true) = table
add_unless p (table, false) = table ++ new_entry p ∷ []

-- One round of the outer loop, from the table that `ft` holds (empty while it is NULL).
pub merge_file : List Node → Node → List Node
unfolding find_update add_unless
merge_file table p = add_unless p (find_update p table)

-- The outer loop. A round leaves `ft` allocated.
pub merge_files : Option (List Node) → List Node → Option (List Node)
merge_files ft [] = ft
merge_files none (p ∷ peer_ft) = merge_files (some (merge_file [] p)) peer_ft
merge_files (some table) (p ∷ peer_ft) = merge_files (some (merge_file table p)) peer_ft

-- It prints, and reads `ft->head`.
pub display_filetable : Option (List Node) → Outcome (Unit {0})
display_filetable none = fault
display_filetable (some table) = ok tt

pub update_filetable : Option (List Node) → List Node → Outcome (Option (List Node))
unfolding merge_files display_filetable
update_filetable ft peer_ft = do let ft' = merge_files ft peer_ft; _ ← display_filetable ft'; ok ft'
