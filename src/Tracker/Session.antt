-- ===== src/Tracker/Session.antt =====
-- tracker/tracker.c: `handshake`, the thread that serves one peer, and `broadcast_filetable`. The
-- thread's locals are the record `Session`; the globals and the network are the record `World`.
pub mod Update
pub mod Stray
pub mod Broadcast
pub mod Stream
pub mod Evolution
pub mod Place
pub mod Reply
pub mod Tests
use dart_sync.Base.{
  ℕ, zero, suc, Bool, true, false, ◌&&◌, not, Option, none, some, List, [], ◌∷◌, ◌++◌, CString,
  ◌==◌, if◌then◌else◌, Outcome, ok, fault, out_of_fuel, ◌>>=◌, ℤ, minus_one, int_eq, int_lt,
  increment,
}
use dart_sync.Table.{Node, register, keep_alive, file_update}
use dart_sync.Packet.{
  Wire, PeerPkt, TrackerPkt, Net, Received, empty_table, attach, tracker_sendpkt,
}
use dart_sync.Tracker.Merge.{update_filetable}
use dart_sync.Tracker.Peers.{Ptr, null, load, heard_peer}
use dart_sync.Tracker.State.{Tracker, delete_peer}

pub record World : Type 0 where
  pub tracker : Tracker
  pub net : Net TrackerPkt

-- `peer_ft`: not set yet, a table that is being received, or a freed pointer.
pub data PeerFt : Type 0 where
  unset : PeerFt
  live : Received → PeerFt
  freed : PeerFt

pub record Session : Type 0 where
  pub counter : ℤ
  pub file_table_size : ℤ
  pub peer_ft : PeerFt

-- The locals as `handshake` sets them first.
abbrev pub fresh_session : Session
fresh_session = record { counter = minus_one; file_table_size = minus_one; peer_ft = unset }

-- The loop of `broadcast_filetable` from `temp` on; the flag is true for 1 and false for -1.
pub broadcast_loop : ℕ → ℕ → World → Ptr → Outcome (Bool × World)
broadcast_loop zero rounds w temp = out_of_fuel
broadcast_loop (suc k) rounds w temp = if temp == null then ok (true, w) else do
  n ← load w.tracker.peers.heap temp
  let (done, net') = tracker_sendpkt n.sockfd w.tracker.ft w.net
  let further = broadcast_loop k rounds (record w { net = net' }) n.next
  if done then further else do
    tr' ← delete_peer rounds w.tracker n.sockfd n.ip
    ok (false, record { tracker = tr'; net = net' })

pub broadcast_filetable : ℕ → World → Outcome (Bool × World)
unfolding broadcast_loop
broadcast_filetable rounds w = broadcast_loop rounds rounds w w.tracker.peers.peer_head

-- A received entry goes to the end of the table, or becomes its head while `counter` is 0.
pub take_file : Session → Wire → Outcome PeerFt
unfolding attach
take_file s file = elim s.peer_ft [
  | unset ↦ fault
  | freed ↦ fault
  | live r ↦ ok (live (attach (if int_eq s.counter (ℤ.pos 0) then empty_table else r) file))
]

-- The first packet of an update, an entry of it, or a packet that is out of place.
pub collect : Session → PeerPkt → Outcome Session
unfolding take_file
collect s pkt =
    if int_eq s.counter minus_one && not (int_eq pkt.file_table_size minus_one)
    then ok (record {
      counter = increment s.counter;
      file_table_size = pkt.file_table_size;
      peer_ft = live empty_table;
    })
    else if int_lt s.counter s.file_table_size && int_eq pkt.file_table_size minus_one
    then (do
      ft ← take_file s pkt.file
      ok (record s { counter = increment s.counter; peer_ft = ft }))
    else ok s

-- The table that `update_filetable` walks over: a fault unless it is live and ends in NULL.
pub readable : PeerFt → Outcome (List Node)
readable unset = fault
readable freed = fault
readable (live r) = if r.is_closed then ok r.nodes else fault

-- All entries are there: update the tracker's table, send it to every peer, and start again.
pub finish : ℕ → World → Session → Outcome (World × Session)
unfolding readable
finish rounds w s = do
  peer_ft ← readable s.peer_ft
  ft' ← update_filetable w.tracker.ft peer_ft
  (_, w') ← broadcast_filetable rounds (record w { tracker = record w.tracker { ft = ft' } })
  ok (w', record { counter = minus_one; file_table_size = minus_one; peer_ft = freed })

pub file_update_step : ℕ → World → Session → PeerPkt → Outcome (World × Session)
unfolding collect finish
file_update_step rounds w s pkt = do
  s' ← collect s pkt
  if int_eq s'.counter s'.file_table_size then finish rounds w s' else ok (w, s')

-- The body of the loop of `handshake`, at the time `now`.
pub handshake_step : ℕ → ℕ → ℕ → World → Session → PeerPkt → Outcome (World × Session)
unfolding file_update_step
handshake_step rounds conn now w s pkt =
    if pkt.type == register
    then (let (done, net') = tracker_sendpkt conn w.tracker.ft w.net in
        if done then ok (record w { net = net' }, s) else do
          tr' ← delete_peer rounds w.tracker conn pkt.peer_ip
          ok (record { tracker = tr'; net = net' }, s))
    else if pkt.type == file_update
    then file_update_step rounds w s pkt
    else if pkt.type == keep_alive
    then (do
      (_, peers') ← heard_peer rounds now w.tracker.peers conn
      ok (record w { tracker = record w.tracker { peers = peers' } }, s))
    else ok (w, s)

-- The packets that the thread receives, each with the time.
pub handshake_steps : ℕ → ℕ → World → Session → List (ℕ × PeerPkt) → Outcome (World × Session)
handshake_steps rounds conn w s [] = ok (w, s)
handshake_steps rounds conn w s ((now, pkt) ∷ pkts) = do
  (w', s') ← handshake_step rounds conn now w s pkt
  handshake_steps rounds conn w' s' pkts

-- The address in the last packet, which the thread gives to `delete_peer` at its end.
pub last_ip : List (ℕ × PeerPkt) → CString → CString
last_ip [] ip = ip
last_ip ((now, pkt) ∷ pkts) ip = last_ip pkts pkt.peer_ip

pub handshake : ℕ → ℕ → World → List (ℕ × PeerPkt) → Outcome World
unfolding handshake_steps last_ip
handshake rounds conn w pkts = do
  (w', s') ← handshake_steps rounds conn w fresh_session pkts
  tr' ← delete_peer rounds w'.tracker conn (last_ip pkts [])
  ok (record w' { tracker = tr' })
