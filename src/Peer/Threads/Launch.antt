-- ===== src/Peer/Threads/Launch.antt =====
-- peer/peer.c: `main` up to the start of its threads, with `ptp_listen_thread_init`.
use dart_sync.Base.{ℕ, Option, none, some, List, CString, Outcome, ok, fault, if◌then◌else◌}
use dart_sync.Table.{p2p_port, max_peer_num}
use dart_sync.Packet.{PeerPkt, TrackerPkt, Net}
use dart_sync.Socket.{Kernel, open_listener}
use dart_sync.Peer.Main.{filetable_create, connect_to_tracker}
use dart_sync.Peer.Threads.{Running, launched}

-- `none` stands for `exit(1)`.
unfoldable pub ptp_listen_thread_init : Kernel → Option ℕ
ptp_listen_thread_init = open_listener p2p_port max_peer_num

-- How `main` starts: it returns -1, the process ends in `ptp_listen_thread_init`, or the threads run,
-- with the socket to the tracker, the socket of `ptp_listening`, and the packets behind the first
-- table.
pub data Launch : Type 0 where
  refused : Launch
  exited : Launch
  running : ℕ → ℕ → Running → List TrackerPkt → Launch

-- A table whose last `pNext` is not NULL leads `main` into wild memory.
unfoldable pub launch : Kernel → Option ℕ → CString → Net PeerPkt → List TrackerPkt → Outcome Launch
unfolding ptp_listen_thread_init
launch k opened myip net pkts =
    let (joined, net') = connect_to_tracker opened myip filetable_create.file_table net pkts in
    elim joined [
      | none ↦ ok refused
      | some j ↦ elim (ptp_listen_thread_init k) [
        | none ↦ ok exited
        | some ptp_listen_fd ↦
            if j.table.is_closed
            then ok (running j.sockfd ptp_listen_fd (launched j.table.nodes net') j.rest)
            else fault
      ]
    ]
