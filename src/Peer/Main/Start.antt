-- ===== src/Peer/Main/Start.antt =====
-- The peer's `main` when the tracker answers with its table and then closes the connection.
use mathlib.Core.List.{append-nil}
use dart_sync.Base.{ℕ, suc, ◌≡◌, refl, true, some, List, [], CString, ok}
use dart_sync.Table.{Node}
use dart_sync.Packet.{TrackerPkt, PeerPkt, Net, Received, peer_recvpkt}
use dart_sync.Packet.RoundTrip.{peer_recvpkt_sent, peer_recvpkt-nil}
use dart_sync.Packet.Served.{table_pkts, peer_sendpkt-register}
use dart_sync.Peer.Sync.{Local, compare_nodes}
use dart_sync.Peer.Main.{connect_to_tracker, compare_table, filetable_create, main}
use dart_sync.Peer.Main.Loop.{main_loop-end}

connect_to_tracker-some :
    (sockfd : ℕ) (myip : CString) (net : Net PeerPkt) (pkts rest : List TrackerPkt) (r : Received)
    → net.outcomes ≡ []
    → peer_recvpkt pkts ≡ some (r, rest)
    → (connect_to_tracker (some sockfd) myip [] net pkts).0
      ≡ some (record { sockfd = sockfd; table = r; rest = rest })
unfolding connect_to_tracker
connect_to_tracker-some sockfd myip net pkts rest r calm_net read =
    rw (peer_sendpkt-register sockfd myip net calm_net, read) refl

pub main-served :
    (k sockfd : ℕ) (myip : CString) (table : List Node) (net : Net PeerPkt) (l' : Local)
    → net.outcomes ≡ []
    → compare_nodes myip table filetable_create ≡ ok l'
    → main (suc k) (some sockfd) myip net (table_pkts table) ≡ ok (some l')
unfolding main compare_table
main-served k sockfd myip table net l' calm_net compared =
    let read : peer_recvpkt (table_pkts table)
        ≡ some (record { nodes = table; is_closed = true }, []) =
      rw append-nil at (peer_recvpkt_sent table []) in
    rw
      (
        connect_to_tracker-some sockfd myip net (table_pkts table) [] _ calm_net read,
        main,
        compared,
        main_loop-end k myip [] l' peer_recvpkt-nil,
      )
      refl
