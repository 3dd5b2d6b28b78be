-- ===== src/System.antt =====
-- One announcement through the whole system: the peer's packets (common/pkt.c), the tracker's thread
-- and its broadcast (tracker/tracker.c), and the table as another peer takes it in (peer/peer.c).
pub mod Join
pub mod Agreement
pub mod Alive
pub mod Beats
pub mod Newest
pub mod Edit
mod Tests
use mathlib.Core.List.{append-nil}
use dart_sync.Base.{
  ℕ, ◌<◌, ◌≡◌, ◌≢◌, refl, ◌∙◌, Option, none, some, true, subst, List, [], ◌∷◌, CString, arith,
  length, Outcome, ok, fault, ◌>>=◌, inl, inr,
}
use dart_sync.Table.{Node, file_update, file_delete, file_downloading}
use dart_sync.Packet.{TrackerPkt, PeerPkt, wires, peer_pkts, peer_header, Received, peer_recvpkt}
use dart_sync.Packet.RoundTrip.{delivered}
use dart_sync.Packet.Served.{served}
use dart_sync.Tracker.Merge.{update_filetable}
use dart_sync.Tracker.Merge.Versions.{version, ◌⊑◌, join, newest}
use dart_sync.Tracker.Merge.Newest.{entries, newest-update_filetable}
use dart_sync.Tracker.Merge.Invariant.{IsTable, update_filetable-IsTable}
use dart_sync.Tracker.Peers.{Peers}
use dart_sync.Tracker.Peers.Chain.{Cell, IsPeers}
use dart_sync.Tracker.State.{Tracker}
use dart_sync.Tracker.Session.{World, PeerFt, freed, Session, broadcast_filetable, handshake_steps}
use dart_sync.Tracker.Session.Update.{stamp, idle, announce, announce-ok, handshake_steps-announce}
use dart_sync.Tracker.Session.Broadcast.{calm, count_sock, broadcast_filetable-peer_recvpkt}
use dart_sync.Peer.Sync.{Local, find_node, compare_nodes}
use dart_sync.Peer.Sync.Whole.{Elem, compare_nodes-Gets}
use dart_sync.Peer.Sync.Fetch.{Gets}

-- A tracker with this table and these peers, on a network where every `send` succeeds.
abbrev pub world_of : Option (List Node) → Peers → List (ℕ × TrackerPkt) → List ℕ → World
world_of ft ps sent closed = record {
  tracker = record { ft = ft; peers = ps };
  net = served sent closed;
}

-- The announced packets, as the tracker's thread receives them.
abbrev pub announcement : (ℕ → ℕ) → CString → List Node → List (ℕ × PeerPkt)
announcement clock ip table =
    stamp clock 0 (peer_header file_update ip table ∷ peer_pkts file_update ip (wires table))

pub updated-IsTable :
    (ft : Option (List Node)) (announced table : List Node)
    → IsTable (entries ft)
    → update_filetable ft announced ≡ ok (some table)
    → IsTable table
updated-IsTable ft announced table w got = elim (update_filetable-IsTable ft announced w) [
  | inl e ↦ cc (e, got)
  | inr (ft', e, w') ↦
      subst (λ f. IsTable (entries f)) (let same : ft' ≡ some table = cc (e, got) in same) w'
]

-- On a well-formed tracker whose sends all succeed, with enough rounds, and where update_filetable
-- turns the announced table into one with a live file that is not empty, the packets of the
-- announcement leave a session that expects no entry and a tracker with that table, which a peer
-- that is listed once and has nothing under way reads; after compareNode on all its entries that
-- peer, unless it was downloading the file, has started a download of the table's version, with
-- its entry FILE_DOWNLOADING in that version, if it had no entry of the file or an older one, and
-- otherwise its entry, alive or deleted, was in that version or a newer one and stays as it was.
pub handshake_steps-compare_nodes :
    (rounds conn : ℕ) (clock : ℕ → ℕ) (ip : CString) (peer_ft : PeerFt) (ft : Option (List Node))
    (files table : List Node) (ps : Peers) (xs : List Cell) (sent : List (ℕ × TrackerPkt))
    (closed : List ℕ) (sock : ℕ) (myip : CString) (l : Local) (seek : Node)
    → IsTable (entries ft)
    → IsPeers ps xs
    → length xs < rounds
    → update_filetable ft files ≡ ok (some table)
    → count_sock sock xs ≡ 1
    → delivered sock sent ≡ []
    → Elem seek table
    → 0 < seek.size
    → seek.type ≢ file_delete
    → ((current : Node)
        → find_node seek.name l.file_table ≡ some current
        → current.type ≢ file_downloading)
    → (sent' : List (ℕ × TrackerPkt)) × (l' : Local) × (t : Node) × (handshake_steps rounds conn
          (world_of ft ps sent closed)
          (idle peer_ft)
          (announcement clock ip files)
        ≡ ok (calm table ps sent' closed, idle freed))
      × (peer_recvpkt (delivered sock sent')
          ≡ some (record { nodes = table; is_closed = true }, []))
      × (compare_nodes myip table l ≡ ok l')
      × Gets seek l l' t
handshake_steps-compare_nodes rounds conn clock ip peer_ft ft files table ps xs sent closed sock
      myip l seek w chain h got once quiet i large live settled =
    let w' : IsTable table = updated-IsTable ft files table w got in
    let (sent', did, arrives) =
      broadcast_filetable-peer_recvpkt rounds sock table ps xs sent closed chain h once quiet in
    let (l', t, compared, gets) =
      compare_nodes-Gets myip table seek l w'.unique i large live settled in
    (
      sent',
      l',
      t,
      handshake_steps-announce rounds conn clock (world_of ft ps sent closed) ip 0 peer_ft files
          ∙ announce-ok rounds (world_of ft ps sent closed) (calm table ps sent' closed) files
              (some table) true got did,
      arrives,
      compared,
      gets,
    )
