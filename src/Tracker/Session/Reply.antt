-- ===== src/Tracker/Session/Reply.antt =====
-- `handshake` on the packets that change nothing but one peer's state: REGISTER and KEEP_ALIVE.
use dart_sync.Base.{ℕ, ◌≡◌, refl, List, [], CString, Bool, ok}
use dart_sync.Table.{Node, register, keep_alive}
use dart_sync.Packet.{TrackerPkt, peer_header}
use dart_sync.Packet.Served.{logged, table_pkts, tracker_sendpkt-served}
use dart_sync.Tracker.Peers.{Peers, heard_peer}
use dart_sync.Tracker.Session.{World, Session, handshake_step}
use dart_sync.Tracker.Session.Broadcast.{calm}

-- The answer to a REGISTER packet on a network where every `send` succeeds.
pub handshake_step-register :
    (rounds conn now : ℕ) (table : List Node) (ps : Peers) (sent : List (ℕ × TrackerPkt))
    (closed : List ℕ) (s : Session) (ip : CString)
    → handshake_step rounds conn now (calm table ps sent closed) s (peer_header register ip [])
      ≡ ok (calm table ps (logged conn (table_pkts table) sent) closed, s)
unfolding handshake_step
handshake_step-register rounds conn now table ps sent closed s ip = rw tracker_sendpkt-served refl

pub handshake_step-keep_alive :
    (rounds conn now : ℕ) (w : World) (s : Session) (ip : CString) (table : List Node) (b : Bool)
    (ps' : Peers)
    → heard_peer rounds now w.tracker.peers conn ≡ ok (b, ps')
    → handshake_step rounds conn now w s (peer_header keep_alive ip table)
      ≡ ok (record w { tracker = record w.tracker { peers = ps' } }, s)
unfolding handshake_step
handshake_step-keep_alive rounds conn now w s ip table b ps' e = rw e refl
