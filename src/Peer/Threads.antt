-- ===== src/Peer/Threads.antt =====
-- peer/peer.c: the running peer, whose `main`, monitor, `keep_alive` and `ptp_download` threads work
-- on one file table. An action is one turn of one thread: a table received or one entry compared by
-- `main`, one event of the monitor, one packet of `keep_alive`, or the end of a `ptp_download`. Turns
-- come in any order; the source takes no lock, so finer interleavings than these exist too.
pub mod Launch
pub mod Turns
pub mod Unique
pub mod InStep
pub mod Busy
pub mod Fetched
pub mod Twice
pub mod Alone
mod Tests
use dart_sync.Base.{
  ℕ, Bool, true, false, List, [], ◌∷◌, ◌++◌, CString, is_empty, if◌then◌else◌, take, drop, Outcome,
  ok, fault, ◌>>=◌,
}
use dart_sync.Table.{Node, file_download}
use dart_sync.Packet.{PeerPkt, Net, Received}
use dart_sync.Peer.Sync.{Local, Download, compare_node, set_node_type}
use dart_sync.Peer.Monitor.{Watch, Stat, Change, notify_event}
use dart_sync.Peer.Main.{filetable_create, keep_alive_round}

-- What stays as it is while the peer runs: `sync_dir`, `tracker_conn`, and the result of `getmyip`.
pub record Place : Type 0 where
  pub sync_dir : CString
  pub tracker_conn : ℕ
  pub myip : CString

-- The globals. `downloads` of `local` are those whose threads have not ended; `pending` are the
-- entries of the received table that `main` has still to compare.
pub record Running : Type 0 where
  pub local : Local
  pub pending : List Node
  pub net : Net PeerPkt

pub data Action : Type 0 where
  received : Received → Action
  compared : Action
  noticed : Change → Stat → Stat → ℕ → CString → CString → Action
  alive : Action
  downloaded : ℕ → Action

-- `main` when its threads have started: no file yet, and the table that came with `ACCEPT`.
abbrev pub launched : List Node → Net PeerPkt → Running
launched table net = record { local = filetable_create; pending = table; net = net }

-- `watchDirectory`: the monitor's `filetable` and `conn` are the peer's.
abbrev pub watch_directory : Place → Running → Watch
watch_directory p s = record {
  sync_dir = p.sync_dir;
  conn = p.tracker_conn;
  myip = p.myip;
  filetable = s.local.file_table;
  net = s.net;
}

abbrev pub with_table : Running → List Node → Running
with_table s table = record s { local = record s.local { file_table = table } }

-- `calloc` and `peer_recvpkt` of the loop of `main`, which is at this place when nothing is pending.
abbrev pub receive : Received → List Node → Running → Outcome Running
receive r [] s = if r.is_closed then ok (record s { pending = r.nodes }) else fault
receive r (_ ∷ _) s = ok s

abbrev pub compare_next : Place → List Node → Running → Outcome Running
compare_next p [] s = ok s
compare_next p (seek ∷ rest) s = do
  l ← compare_node p.myip seek s.local
  ok (record s { local = l; pending = rest })

-- `event->len` is 0 for an event without a name.
unfoldable pub notice :
    Place → Change → Stat → Stat → ℕ → CString → CString → Running → Outcome Running
notice p kind before stat now folder name s = if is_empty name then ok s else do
  w ← notify_event kind before stat now folder name (watch_directory p s)
  ok (record (with_table s w.filetable) { net = w.net })

-- The end of the thread at this place: `setNodeType` and the exit.
abbrev pub end_download : List Download → List Download → Running → Running
end_download before [] s = s
end_download before (d ∷ after) s = record s {
  local = record s.local {
    file_table = set_node_type d.filename file_download d.size s.local.file_table;
    downloads = before ++ after;
  };
}

-- A thread that has nothing to do leaves everything as it is.
unfoldable pub perform : Place → Action → Running → Outcome Running
perform p (received r) s = receive r s.pending s
perform p compared s = compare_next p s.pending s
perform p (noticed kind before stat now folder name) s = notice p kind before stat now folder name s
perform p alive s =
    ok (record s { net = keep_alive_round p.tracker_conn p.myip s.local.file_table s.net })
perform p (downloaded i) s =
    ok (end_download (take i s.local.downloads) (drop i s.local.downloads) s)

-- Turns of the threads in the order of the list.
pub run : Place → List Action → Running → Outcome Running
run p [] s = ok s
run p (a ∷ actions) s = do s' ← perform p a s; run p actions s'
