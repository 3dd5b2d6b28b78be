-- ===== src/Peer/Monitor.antt =====
-- peer/monitor.c: what the monitor does on a change in the sync folder, for files. The kernel's
-- `stat` is a parameter, which gives size and modification time of the files that exist, and so
-- are the time and the own address. The monitor shares the file table with peer/peer.c.
pub mod Effect
pub mod Reports
pub mod Echo
pub mod Edit
pub mod Again
mod Tests
use dart_sync.Base.{
  ℕ, zero, suc, Bool, true, false, ◌&&◌, ◌||◌, not, Option, none, some, List, [], ◌∷◌, ◌++◌,
  CString, str_eq, is_empty, ltb, leb, ◌-◌, ◌==◌, if◌then◌else◌, set, get_or, drop, length, Outcome,
  ok, fault, codes,
}
use dart_sync.Table.{
  Node, blank, no_peers, is_file, file_create, file_modify, file_delete, file_download,
  file_downloading, file_update,
}
use dart_sync.Packet.{Net, PeerPkt, peer_sendpkt}
use dart_sync.Peer.Sync.{find_node, change}

pub record FileInfo : Type 0 where
  pub filepath : CString
  pub size : ℕ
  pub last_modify_time : ℕ

-- The globals `sync_dir`, `conn` and `filetable`, the own address, and the connection's network.
pub record Watch : Type 0 where
  pub sync_dir : CString
  pub conn : ℕ
  pub myip : CString
  pub filetable : List Node
  pub net : Net PeerPkt

-- `&filepath[strlen(sync_dir)]`
abbrev pub inner_path : Watch → CString → CString
inner_path w filepath = drop (length w.sync_dir) filepath

-- What `stat` gives, size and modification time.
abbrev pub Stat : Type 0
Stat = CString → Option (ℕ × ℕ)

unfoldable pub get_file_info : Stat → Watch → CString → Option FileInfo
get_file_info stat w filepath = if is_empty filepath then none else elim (stat filepath) [
  | none ↦ none
  | some (size, mtime) ↦
      some (record { filepath = inner_path w filepath; size = size; last_modify_time = mtime })
]

-- The changed table, and the packets that `peer_sendpkt(conn, filetable, FILE_UPDATE)` sends of it.
-- Its result is ignored.
pub report : Watch → List Node → Watch
report w table = record w {
  filetable = table;
  net = (peer_sendpkt w.conn w.myip table file_update w.net).1;
}

-- The new entry of `fileAdded`.
abbrev pub created : CString → FileInfo → Node
created myip info = record blank {
  status = is_file;
  name = info.filepath;
  type = file_create;
  size = info.size;
  timestamp = info.last_modify_time;
  newpeerip = set no_peers 0 myip;
}

abbrev pub rewritten : ℕ → FileInfo → Node → Node
rewritten type info t = record t {
  type = type;
  size = info.size;
  timestamp = info.last_modify_time;
}

-- A downloaded file becomes an ordinary one, in the version that was downloaded.
abbrev pub settled : Node → Node
settled t = record t { type = file_modify }

-- The loop stops at the first entry with the name, whatever its type. Without file information
-- the name is read through a null pointer.
unfoldable pub file_added : Stat → CString → Watch → Outcome Watch
file_added stat filepath w = elim (get_file_info stat w filepath) [
  | none ↦ fault
  | some info ↦ elim (find_node info.filepath w.filetable) [
    | some node ↦
        if not (node.type == file_delete)
        then (if node.type == file_downloading
            then ok w
            else if node.type == file_download
            then ok (report w (change info.filepath settled w.filetable))
            else ok w)
        else ok (report w (change info.filepath (rewritten file_create info) w.filetable))
    | none ↦ ok (report w (w.filetable ++ created w.myip info ∷ []))
  ]
]

-- The flag is true for 0 and false for -1; `now` is `time(0)`.
pub file_deleted : ℕ → CString → Watch → Bool × Watch
file_deleted now filepath w = elim (find_node (inner_path w filepath) w.filetable) [
  | some node ↦ (
    true,
    report w (
        change (inner_path w filepath) (λ t. record t { timestamp = now; type = file_delete })
          w.filetable),
  )
  | none ↦ (false, w)
]

-- `fileModified` with `fileInfo` NULL: the loop reads through it, unless the table is empty.
abbrev pub without_info : Watch → List Node → Outcome (Bool × Watch)
without_info w [] = ok (false, w)
without_info w (_ ∷ _) = fault

pub file_modified : Stat → CString → Watch → Outcome (Bool × Watch)
file_modified stat filepath w = elim (get_file_info stat w filepath) [
  | none ↦ without_info w w.filetable
  | some info ↦ elim (find_node info.filepath w.filetable) [
    | some node ↦
        if node.type == file_downloading
        then ok (true, w)
        else if node.type == file_download
        then ok (true, report w (change info.filepath settled w.filetable))
        else ok (true, report w (change info.filepath (rewritten file_modify info) w.filetable))
    | none ↦ ok (false, w)
  ]
]

-- The first bit that `notify` finds set in `event->mask`.
pub data Change : Type 0 where
  in_create : Change
  in_open : Change
  in_delete : Change
  in_modify : Change

-- `eventName[0] == '.'`
abbrev pub is_hidden : CString → Bool
is_hidden name = get_or name 0 0 == 46

-- `eventName[strlen(eventName) - 1] == '~'`, for a name that is not empty.
abbrev pub is_backup : CString → Bool
is_backup name = get_or name (length name - 1) 0 == 126

-- The file that vim creates to try the directory.
abbrev pub is_probe : CString → Bool
is_probe name = str_eq name (52 ∷ 57 ∷ 49 ∷ 51 ∷ [])

-- Which of the names each kind of event is about.
abbrev pub is_watched : Change → CString → Bool
is_watched Change.in_create name = not (is_probe name) && not (is_hidden name)
is_watched Change.in_open name = false
is_watched Change.in_delete name =
    not (is_backup name) && not (is_probe name) && not (is_hidden name)
is_watched Change.in_modify name = not (is_backup name) && not (is_hidden name)

abbrev pub exists : Option (ℕ × ℕ) → Bool
exists none = false
exists (some _) = true

abbrev pub dropping_flag : Outcome (Bool × Watch) → Outcome Watch
dropping_flag (ok (_, w)) = ok w
dropping_flag fault = fault
dropping_flag Outcome.out_of_fuel = Outcome.out_of_fuel

abbrev pub dispatch : Change → Stat → ℕ → CString → Watch → Outcome Watch
dispatch Change.in_create stat now abspath w = file_added stat abspath w
dispatch Change.in_open stat now abspath w = ok w
dispatch Change.in_delete stat now abspath w = ok (file_deleted now abspath w).1
dispatch Change.in_modify stat now abspath w = dropping_flag (file_modified stat abspath w)

-- `IN_DELETE` is the one kind for which `notify` does not ask `stat` before it acts.
abbrev pub is_delete : Change → Bool
is_delete Change.in_delete = true
is_delete _ = false

-- One event of `notify` for a file: `folder` is `folderArray[event->wd - 1]`. The path is asked for
-- with `stat` first, as it was at that moment (`before`), and again in `getFileInfo`.
unfoldable pub notify_event : Change → Stat → Stat → ℕ → CString → CString → Watch → Outcome Watch
notify_event kind before stat now folder name w =
    if is_watched kind name && (is_delete kind || exists (before (folder ++ name)))
    then dispatch kind stat now (folder ++ name) w
    else ok w
