-- ===== src/Peer/Monitor/Edit.antt =====
-- A changed file that the monitor has in its table: what `notify` reports.
use dart_sync.Base.{
  ℕ, ◌≡◌, ◌≢◌, refl, true, false, some, List, [], ◌∷◌, CString, ◌++◌, arith, ok, ◌==◌, str_eq_refl,
}
use dart_sync.Packet.{peer_header, peer_pkts, wires}
use dart_sync.Packet.RoundTrip.{delivered}
use dart_sync.Packet.Served.{served, peer_sendpkt-delivered}
use dart_sync.Table.{Node, file_update, file_modify, file_download, file_downloading}
use dart_sync.Peer.Sync.{find_node, change}
use dart_sync.Peer.Sync.Find.{find_node-change}
use dart_sync.Peer.Monitor.{
  Watch, Stat, inner_path, report, rewritten, file_modified, in_modify, is_watched, exists,
  notify_event,
}
use dart_sync.Peer.Monitor.Effect.{info_of, get_file_info-some, append-not_nil}

-- The table with the entry of the file brought up to date.
abbrev pub edited : Watch → CString → ℕ × ℕ → List Node
edited w path s = change (inner_path w path) (rewritten file_modify (info_of w path s)) w.filetable

file_modified-edited :
    (stat : Stat) (path : CString) (w : Watch) (s : ℕ × ℕ) (node : Node)
    → path ≢ []
    → stat path ≡ some s
    → find_node (inner_path w path) w.filetable ≡ some node
    → node.type ≢ file_downloading
    → node.type ≢ file_download
    → file_modified stat path w ≡ ok (true, report w (edited w path s))
unfolding file_modified
file_modified-edited stat path w s node full e found idle plain =
    let busy : (node.type == file_downloading) ≡ false = ground (arith, idle) in
    let done : (node.type == file_download) ≡ false = ground (arith, plain) in
    rw (get_file_info-some stat w path s full e, file_modified, found, busy, done) refl

pub notify_event-edited :
    (before stat : Stat) (now : ℕ) (folder name : CString) (w : Watch) (s : ℕ × ℕ) (node : Node)
    → name ≢ []
    → is_watched in_modify name ≡ true
    → exists (before (folder ++ name)) ≡ true
    → stat (folder ++ name) ≡ some s
    → find_node (inner_path w (folder ++ name)) w.filetable ≡ some node
    → node.type ≢ file_downloading
    → node.type ≢ file_download
    → notify_event in_modify before stat now folder name w
      ≡ ok (report w (edited w (folder ++ name) s))
unfolding notify_event
notify_event-edited before stat now folder name w s node full watched there e found idle plain =
    rw
      (
        watched,
        there,
        file_modified-edited stat (folder ++ name) w s node (append-not_nil folder name full) e
            found idle plain,
      )
      refl

pub find_node-edited :
    (w : Watch) (path : CString) (s : ℕ × ℕ) (node : Node)
    → find_node (inner_path w path) w.filetable ≡ some node
    → find_node (inner_path w path) (edited w path s)
      ≡ some (rewritten file_modify (info_of w path s) node)
find_node-edited w path s node found =
    rw
      (
        find_node-change (inner_path w path) (inner_path w path)
            (rewritten file_modify (info_of w path s)) w.filetable (λ t. refl),
        str_eq_refl (inner_path w path),
        found,
      )
      refl

-- A monitor whose connection to the tracker takes everything and has nothing under way.
abbrev pub connected : CString → ℕ → CString → List Node → Watch
connected sync_dir conn myip filetable = record {
  sync_dir = sync_dir;
  conn = conn;
  myip = myip;
  filetable = filetable;
  net = served [] [];
}

-- The packets of its report are an announcement.
pub report-delivered :
    (sync_dir : CString) (conn : ℕ) (myip : CString) (filetable files : List Node)
    → delivered conn (report (connected sync_dir conn myip filetable) files).net.sent
      ≡ peer_header file_update myip files ∷ peer_pkts file_update myip (wires files)
unfolding report
report-delivered sync_dir conn myip filetable files = peer_sendpkt-delivered conn myip files [] []
