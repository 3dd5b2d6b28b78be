-- ===== src/System/Join.antt =====
-- A peer that starts: its REGISTER packet (peer/peer.c), the tracker's answer (tracker/tracker.c), and
-- the peer's table after it.
use dart_sync.Base.{
  inl, inr, ℕ, suc, ◌<◌, ◌≡◌, ◌≢◌, refl, sym, ◌∙◌, subst, some, List, [], CString, ok,
}
use dart_sync.Table.{Node, register, file_delete}
use dart_sync.Packet.{TrackerPkt, PeerPkt, Net, peer_header}
use dart_sync.Packet.RoundTrip.{delivered, ==_refl}
use dart_sync.Packet.Served.{logged, table_pkts, delivered-logged}
use dart_sync.Tracker.Merge.Versions.{version, ◌⊑◌}
use dart_sync.Tracker.Merge.Invariant.{Unique}
use dart_sync.Tracker.Peers.{Peers}
use dart_sync.Tracker.Session.{Session, handshake_step}
use dart_sync.Tracker.Session.Reply.{handshake_step-register}
use dart_sync.Tracker.Session.Broadcast.{calm}
use dart_sync.Peer.Sync.{Local, find_node}
use dart_sync.Peer.Sync.Whole.{Elem, compare_nodes-Gets}
use dart_sync.Peer.Sync.Fetch.{Fetches, Gets, Gets-reached}
use dart_sync.Peer.Main.{filetable_create, main}
use dart_sync.Peer.Main.Start.{main-served}

-- A peer without files fetches what it gets.
Gets-nothing :
    (seek : Node) (l l' : Local) (t : Node)
    → l.file_table ≡ []
    → Gets seek l l' t
    → Fetches seek l l' t
unfolding find_node
Gets-nothing seek l l' t blank (inl f) = f
Gets-nothing seek l l' t blank (inr h) = cc (rw blank at h.before)

-- Where every send succeeds, the connection has nothing under way and the tracker's table has one
-- entry to a name, the answer to the REGISTER packet of a peer that starts leaves the tracker as
-- it was, and main of that peer, which reads this answer up to the end of the connection in one
-- round of its loop or more, returns with a download started, and an entry FILE_DOWNLOADING in
-- that version, for every live entry that is not empty.
pub handshake_step-main :
    (rounds conn now k sockfd : ℕ) (myip : CString) (table : List Node) (ps : Peers)
    (sent : List (ℕ × TrackerPkt)) (closed : List ℕ) (s : Session) (seek : Node) (net : Net PeerPkt)
    → delivered conn sent ≡ []
    → Unique table
    → Elem seek table
    → 0 < seek.size
    → seek.type ≢ file_delete
    → net.outcomes ≡ []
    → (sent' : List (ℕ × TrackerPkt)) × (l' : Local) × (t : Node) × (handshake_step rounds conn now
          (calm table ps sent closed)
          s
          (peer_header register myip [])
        ≡ ok (calm table ps sent' closed, s))
      × (main (suc k) (some sockfd) myip net (delivered conn sent') ≡ ok (some l'))
      × (find_node seek.name l'.file_table ≡ some t)
      × (version seek ⊑ version t)
      × Fetches seek filetable_create l' t
handshake_step-main rounds conn now k sockfd myip table ps sent closed s seek net quiet u i large
      live calm_net =
    let (l', t, compared, gets) =
      compare_nodes-Gets myip table seek filetable_create u i large live
        (λ current e. unfold find_node in cc e) in
    let fetches = Gets-nothing seek filetable_create l' t refl gets in
    let arrives : delivered conn (logged conn (table_pkts table) sent) ≡ table_pkts table =
      delivered-logged conn conn (table_pkts table) sent ∙ rw (==_refl conn, quiet) refl in
    (
      logged conn (table_pkts table) sent,
      l',
      t,
      handshake_step-register rounds conn now table ps sent closed s myip,
      subst (λ pkts. main (suc k) (some sockfd) myip net pkts ≡ ok (some l')) (sym arrives)
          (main-served k sockfd myip table net l' calm_net compared),
      (Gets-reached seek filetable_create l' t gets).0,
      (Gets-reached seek filetable_create l' t gets).1,
      fetches,
    )
