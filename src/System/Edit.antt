-- ===== src/System/Edit.antt =====
-- One edit through the whole system: the event of the monitor (peer/monitor.c), the packets of the
-- peer (common/pkt.c), the tracker's thread and its broadcast (tracker/tracker.c), and the table of
-- another peer (peer/peer.c).
use dart_sync.Base.{
  ℕ, ◌<◌, ◌≡◌, ◌≢◌, sym, ◌∙◌, subst, true, Option, some, List, [], ◌∷◌, ◌++◌, CString, length, ok,
  CString,
}
use dart_sync.Table.{Node, file_modify, file_delete, file_download, file_downloading}
use dart_sync.Packet.{peer_recvpkt, TrackerPkt}
use dart_sync.Packet.RoundTrip.{delivered}
use dart_sync.Tracker.Merge.{update_filetable}
use dart_sync.Tracker.Merge.Versions.{version, ◌⊑◌, join, join_comm, newest}
use dart_sync.Tracker.Merge.Newest.{entries, newest-update_filetable}
use dart_sync.Tracker.Merge.Invariant.{IsTable}
use dart_sync.Tracker.Peers.{Peers}
use dart_sync.Tracker.Peers.Chain.{Cell, IsPeers}
use dart_sync.Tracker.Session.{PeerFt, freed, handshake_steps}
use dart_sync.Tracker.Session.Update.{stamp, idle}
use dart_sync.Tracker.Session.Broadcast.{calm, count_sock}
use dart_sync.Tracker.History.{AtMost, AtMost-trans, AtMost-join}
use dart_sync.System.Newest.{AtMost-find_node, newest-Elem}
use dart_sync.Peer.Sync.{Local, find_node, compare_nodes}
use dart_sync.Peer.Sync.Whole.{Elem}
use dart_sync.Peer.Sync.Fetch.{Gets, Gets-reached}
use dart_sync.Peer.Monitor.{
  Watch, Stat, in_modify, inner_path, is_watched, exists, report, rewritten, notify_event,
}
use dart_sync.Peer.Monitor.Effect.{info_of}
use dart_sync.Peer.Monitor.Edit.{
  edited, connected, notify_event-edited, find_node-edited, report-delivered,
}
use dart_sync.System.{world_of, updated-IsTable, handshake_steps-compare_nodes}

-- An entry that an update announces is at most the table's entry of that name.
announced_version :
    (ft : Option (List Node)) (files table : List Node) (t seek : Node)
    → IsTable table
    → find_node seek.name files ≡ some t
    → update_filetable ft files ≡ ok (some table)
    → Elem seek table
    → version t ⊑ version seek
announced_version ft [] table t seek w found got i = unfold find_node in cc found
announced_version ft (p ∷ files) table t seek w found got i =
    let n : CString = seek.name in
    let (table', got', newer) = newest-update_filetable ft p files in
    let same : table' ≡ table = cc (got, got') in
    let all : newest n table ≡ join (newest n (entries ft)) (newest n (p ∷ files)) =
      subst (λ ts. newest n ts ≡ join (newest n (entries ft)) (newest n (p ∷ files))) same
        (newer n) in
    let up : AtMost (newest n (p ∷ files)) (newest n table) =
      subst (AtMost (newest n (p ∷ files)))
        (join_comm (newest n (p ∷ files)) (newest n (entries ft)) ∙ sym all)
        (AtMost-join (newest n (p ∷ files)) (newest n (entries ft))) in
    subst (AtMost (some (version t))) (newest-Elem seek table w.unique i) (
      AtMost-trans (some (version t)) (newest n (p ∷ files)) (newest n table)
        (AtMost-find_node n (p ∷ files) t found) up)

-- Where every send succeeds, on a well-formed tracker and with enough rounds, when a file of the
-- peer's table whose modification notify watches (its name does not start with . or end in ~),
-- which it has not just downloaded and is not downloading, is modified and stays there, the event
-- of the monitor leads to packets that the tracker's thread takes as an announcement, and where
-- update_filetable makes of the announced table one with a live entry of that file that is not
-- empty, another peer, which is listed once, has nothing under way and is not downloading the
-- file, reads the tracker's table; the version of that entry is the one that stat gave or a newer
-- one, and after compareNode on all entries that other peer, if it had no entry of the file or an
-- older one, has started a download of the entry's version and its own entry is FILE_DOWNLOADING
-- in that version, and otherwise its own entry, alive or deleted, was in that version or a newer
-- one and stays as it was.
pub notify_event-compare_nodes :
    (rounds conn now : ℕ) (clock : ℕ → ℕ) (before stat : Stat) (folder name : CString)
    (size mtime : ℕ) (sync_dir : CString) (own : ℕ) (ip : CString) (filetable : List Node)
    (node : Node) (peer_ft : PeerFt) (ft : Option (List Node)) (table : List Node) (ps : Peers)
    (xs : List Cell) (sent : List (ℕ × TrackerPkt)) (closed : List ℕ) (sock : ℕ) (myip : CString)
    (l : Local) (seek : Node)
    → name ≢ []
    → is_watched in_modify name ≡ true
    → exists (before (folder ++ name)) ≡ true
    → stat (folder ++ name) ≡ some (size, mtime)
    → find_node seek.name filetable ≡ some node
    → seek.name ≡ inner_path (connected sync_dir own ip filetable) (folder ++ name)
    → node.type ≢ file_downloading
    → node.type ≢ file_download
    → IsTable (entries ft)
    → IsPeers ps xs
    → length xs < rounds
    → update_filetable ft
        (edited (connected sync_dir own ip filetable) (folder ++ name) (size, mtime))
      ≡ ok (some table)
    → count_sock sock xs ≡ 1
    → delivered sock sent ≡ []
    → Elem seek table
    → 0 < seek.size
    → seek.type ≢ file_delete
    → ((current : Node)
        → find_node seek.name l.file_table ≡ some current
        → current.type ≢ file_downloading)
    → (w' : Watch) × (sent' : List (ℕ × TrackerPkt)) × (l' : Local) × (t : Node) × (notify_event
          in_modify before stat now folder name
          (connected sync_dir own ip filetable)
        ≡ ok w')
      × (handshake_steps rounds conn
            (world_of ft ps sent closed)
            (idle peer_ft)
            (stamp clock 0 (delivered own w'.net.sent))
          ≡ ok (calm table ps sent' closed, idle freed))
      × (peer_recvpkt (delivered sock sent')
          ≡ some (record { nodes = table; is_closed = true }, []))
      × (compare_nodes myip table l ≡ ok l')
      × Gets seek l l' t
      × (record { timestamp = mtime; size = size } ⊑ version seek)
      × (record { timestamp = mtime; size = size } ⊑ version t)
notify_event-compare_nodes rounds conn now clock before stat folder name size mtime sync_dir own ip
      filetable node peer_ft ft table ps xs sent closed sock myip l seek full watched there stated
      found named busy done w chain h got once quiet i large live settled =
    let watch : Watch = connected sync_dir own ip filetable in
    let path : CString = folder ++ name in
    let files : List Node = edited watch path (size, mtime) in
    let found' : find_node (inner_path watch path) filetable ≡ some node =
      subst (λ n. find_node n filetable ≡ some node) named found in
    let announced_entry : Node = rewritten file_modify (info_of watch path (size, mtime)) node in
    let announced : find_node (inner_path watch path) files ≡ some announced_entry =
      find_node-edited watch path (size, mtime) node found' in
    let (sent', l', t, did, arrives, compared, gets) =
      handshake_steps-compare_nodes rounds conn clock ip peer_ft ft files table ps xs sent closed
        sock myip l seek w chain h got once quiet i large live settled in
    let newer =
      announced_version ft files table announced_entry seek (updated-IsTable ft files table w got)
        (subst (λ n. find_node n files ≡ some announced_entry) (sym named) announced) got i in
    (
      report watch files,
      sent',
      l',
      t,
      notify_event-edited before stat now folder name watch (size, mtime) node full watched there
          stated found' busy done,
      subst
          (λ pkts.
            handshake_steps rounds conn (world_of ft ps sent closed) (idle peer_ft)
              (stamp clock 0 pkts)
            ≡ ok (calm table ps sent' closed, idle freed))
          (sym (report-delivered sync_dir own ip filetable files)) did,
      arrives,
      compared,
      gets,
      newer,
      AtMost-trans (some (record { timestamp = mtime; size = size })) (some (version seek))
          (some (version t)) newer (Gets-reached seek l l' t gets).1,
    )
