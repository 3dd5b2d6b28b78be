-- ===== src/Peer/Main.antt =====
-- peer/peer.c: `connect_to_tracker` and `main` of the peer, on the packets that the tracker sends until
-- the connection ends. Sockets are the kernel's: an argument says whether one was opened and connected.
-- The threads of the peer work on the same table; here `main` runs alone.
pub mod Loop
pub mod Start
mod Tests
use dart_sync.Base.{
  ℕ, zero, suc, Bool, true, false, Option, none, some, List, [], CString, if◌then◌else◌, Outcome,
  ok, fault, out_of_fuel, ◌>>=◌,
}
use dart_sync.Table.{Node, register, keep_alive}
use dart_sync.Packet.{PeerPkt, TrackerPkt, Net, Received, peer_sendpkt, peer_recvpkt}
use dart_sync.Peer.Sync.{Local, compare_nodes}

-- The result of `connect_to_tracker` when it is a socket: with the tracker's table and the packets
-- behind it.
pub record Joined : Type 0 where
  pub sockfd : ℕ
  pub table : Received
  pub rest : List TrackerPkt

-- `none` for -1.
pub connect_to_tracker :
    Option ℕ → CString → List Node → Net PeerPkt → List TrackerPkt → Option Joined × Net PeerPkt
connect_to_tracker none myip file_table net pkts = (none, net)
connect_to_tracker (some sockfd) myip file_table net pkts =
    let (done, net') = peer_sendpkt sockfd myip file_table register net in
    (
      if done
          then elim (peer_recvpkt pkts) [
            | none ↦ none
            | some (table, rest) ↦ some (record { sockfd = sockfd; table = table; rest = rest })
          ]
          else none,
      net',
    )

-- One round of `keep_alive`.
abbrev pub keep_alive_round : ℕ → CString → List Node → Net PeerPkt → Net PeerPkt
keep_alive_round tracker_conn myip file_table net =
    (peer_sendpkt tracker_conn myip file_table keep_alive net).1

-- `compareNode` on every entry; a table whose last `pNext` is not NULL leads into wild memory.
unfoldable pub compare_table : CString → Received → Local → Outcome Local
compare_table myip r l = if r.is_closed then compare_nodes myip r.nodes l else fault

-- The endless loop of `main`, in at most so many rounds; it ends with the connection.
unfoldable pub main_loop : ℕ → CString → List TrackerPkt → Local → Outcome Local
main_loop zero myip pkts l = out_of_fuel
main_loop (suc k) myip pkts l = elim (peer_recvpkt pkts) [
  | none ↦ ok l
  | some (table, rest) ↦ do l' ← compare_table myip table l; main_loop k myip rest l'
]

-- `filetable_create`, and no download or removal yet.
abbrev pub filetable_create : Local
filetable_create = record { file_table = []; downloads = []; removed = [] }

-- `none` when `connect_to_tracker` fails.
unfoldable pub main :
    ℕ → Option ℕ → CString → Net PeerPkt → List TrackerPkt → Outcome (Option Local)
unfolding main_loop compare_table connect_to_tracker
main k opened myip net pkts =
    elim (connect_to_tracker opened myip filetable_create.file_table net pkts).0 [
      | none ↦ ok none
      | some joined ↦ do
        l ← compare_table myip joined.table filetable_create
        l' ← main_loop k myip joined.rest l
        ok (some l')
    ]
