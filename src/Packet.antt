-- ===== src/Packet.antt =====
-- common/pkt.h and common/pkt.c: the packets between peers and tracker. `send` is the kernel's: its
-- results come from a list of outcomes, and what it takes is logged with its socket. Entries travel
-- with the sender's `pNext`, of which only matters whether it is NULL.
pub mod RoundTrip
pub mod Served
pub mod Bytes
mod Tests
use dart_sync.Base.{
  ℕ, zero, suc, Bool, true, false, Option, none, some, List, [], ◌∷◌, ◌++◌, CString, if◌then◌else◌,
  ◌==◌, ltb, length, ℤ, pos, minus_one, int_lt,
}
use dart_sync.Table.{Node, blank, register, keep_alive, file_update}

-- A copied `Node`: its data, and whether its `pNext` is NULL.
pub record Wire : Type 0 where
  pub entry : Node
  pub is_last : Bool

abbrev pub no_file : Wire
no_file = record { entry = blank; is_last = true }

-- `ptp_peer_t`, less the fields that nobody reads: `reserved` and `port`.
pub record PeerPkt : Type 0 where
  pub type : ℕ
  pub peer_ip : CString
  pub file_table_size : ℤ
  pub file : Wire

-- `ptp_tracker_t`
pub record TrackerPkt : Type 0 where
  pub file_table_size : ℤ
  pub file : Wire

-- What the kernel will answer to each `send`, what it has taken, the latest first, and the sockets
-- that a failed `send` has closed.
pub record Net (A : Type 0) : Type 0 where
  pub outcomes : List Bool
  pub sent : List (ℕ × A)
  pub closed : List ℕ

-- Past the end of the list every `send` succeeds.
abbrev pub next_outcome : List Bool → Bool × List Bool
next_outcome [] = (true, [])
next_outcome (b ∷ bs) = (b, bs)

module _ {A : Type 0} where
  -- `send(conn, pkt, sizeof(*pkt), 0) >= 0`
  pub send : ℕ → A → Net A → Bool × Net A
  send conn pkt net =
      let (done, rest) = next_outcome net.outcomes in
      if done
      then (true, record net { outcomes = rest; sent = (conn, pkt) ∷ net.sent })
      else (false, record net { outcomes = rest })

  -- The loop that sends one packet for each element; it stops at the first failure.
  pub send_all : ℕ → List A → Net A → Bool × Net A
  unfolding send
  send_all conn [] net = (true, net)
  send_all conn (pkt ∷ pkts) net =
      let (done, net') = send conn pkt net in
      let rest = send_all conn pkts net' in if done then rest else (false, net')

-- The entries of a table as they are copied into packets.
unfoldable pub wires : List Node → List Wire
wires [] = []
wires (t ∷ []) = record { entry = t; is_last = true } ∷ []
wires (t ∷ u ∷ rest) = record { entry = t; is_last = false } ∷ wires (u ∷ rest)

abbrev pub to_peer : Wire → TrackerPkt
to_peer w = record { file_table_size = minus_one; file = w }

abbrev pub to_tracker : ℕ → CString → Wire → PeerPkt
to_tracker type ip w = record { type = type; peer_ip = ip; file_table_size = minus_one; file = w }

pub tracker_pkts : List Wire → List TrackerPkt
tracker_pkts [] = []
tracker_pkts (w ∷ ws) = to_peer w ∷ tracker_pkts ws

unfoldable pub peer_pkts : ℕ → CString → List Wire → List PeerPkt
peer_pkts type ip [] = []
peer_pkts type ip (w ∷ ws) = to_tracker type ip w ∷ peer_pkts type ip ws

-- The first packet carries the number of entries alone.
abbrev pub tracker_header : List Node → TrackerPkt
tracker_header table = record { file_table_size = pos (length table); file = no_file }

abbrev pub peer_header : ℕ → CString → List Node → PeerPkt
peer_header type ip table = record {
  type = type;
  peer_ip = ip;
  file_table_size = if type == file_update then pos (length table) else minus_one;
  file = no_file;
}

-- The flag is true for 1 and false for -1.
pub tracker_sendpkt : ℕ → Option (List Node) → Net TrackerPkt → Bool × Net TrackerPkt
unfolding send_all wires tracker_pkts
tracker_sendpkt conn none net = send conn (tracker_header []) net
tracker_sendpkt conn (some table) net =
    let (done, net') = send conn (tracker_header table) net in
    let rest = send_all conn (tracker_pkts (wires table)) net' in
    if done then rest else (false, net')

-- A failed `send` of a peer closes the connection.
abbrev pub or_close : ℕ → Bool × Net PeerPkt → Bool × Net PeerPkt
or_close conn (true, net) = (true, net)
or_close conn (false, net) = (false, record net { closed = conn ∷ net.closed })

-- `ip` is what `getmyip` returns.
pub peer_sendpkt : ℕ → CString → List Node → ℕ → Net PeerPkt → Bool × Net PeerPkt
unfolding send_all wires peer_pkts
peer_sendpkt conn ip table type net =
    let (done, net') = send conn (peer_header type ip table) net in
    let rest = send_all conn (peer_pkts type ip (wires table)) net' in
    or_close conn
      (if done then (if type == file_update then rest else (true, net')) else (false, net'))

-- A table built from received entries. Its last `pNext` is the sender's: if that is not NULL,
-- `is_closed` is false and a walk over the table runs into a wild pointer.
pub record Received : Type 0 where
  pub nodes : List Node
  pub is_closed : Bool

abbrev pub empty_table : Received
empty_table = record { nodes = []; is_closed = true }

-- `temp->pNext = calloc(...); *temp->pNext = pkt->file; temp = temp->pNext`, or the head.
unfoldable pub attach : Received → Wire → Received
attach ft w = record { nodes = ft.nodes ++ w.entry ∷ []; is_closed = w.is_last }

-- The loop of `peer_recvpkt` over the packets that still arrive, `none` where the connection ends;
-- it hands back the packets behind the table.
pub recv_files : ℕ → List TrackerPkt → Received → Option (Received × List TrackerPkt)
unfolding attach
recv_files zero pkts ft = some (ft, pkts)
recv_files (suc n) [] ft = none
recv_files (suc n) (pkt ∷ pkts) ft = recv_files n pkts (attach ft pkt.file)

-- The number of rounds of `for (counter = 0; counter < file_table_size; counter++)`.
abbrev pub rounds_of : ℤ → ℕ
rounds_of (pos n) = n
rounds_of (ℤ.negsuc n) = 0

pub peer_recvpkt : List TrackerPkt → Option (Received × List TrackerPkt)
unfolding recv_files
peer_recvpkt [] = none
peer_recvpkt (pkt ∷ pkts) = recv_files (rounds_of pkt.file_table_size) pkts empty_table
