-- ===== src/Tracker/State.antt =====
-- tracker/tracker.c: the globals of the tracker, and what works on both: `delete_peer`, `heartbeat`.
pub mod Departure
pub mod Heartbeat
pub mod Evolution
pub mod Origin
mod Tests
use dart_sync.Base.{
  ℕ, zero, suc, ◌+◌, ◌-◌, ◌%◌, ◌^◌, Bool, Option, none, some, List, [], ◌∷◌, CString, ltb, ◌==◌,
  if◌then◌else◌, Outcome, ok, out_of_fuel, ◌>>=◌,
}
use dart_sync.Table.{Node, heartbeat_timeout}
use dart_sync.Tracker.Slots.{prune}
use dart_sync.Tracker.Peers.{Ptr, null, Peer, Peers, load, delete_from_list}

pub record Tracker : Type 0 where
  pub ft : Option (List Node)
  pub peers : Peers

-- The first loop of `delete_peer`: the peer is taken out of every entry.
pub prune_table : CString → List Node → List Node
prune_table ip [] = []
prune_table ip (t ∷ rest) = record t { newpeerip = prune ip t.newpeerip } ∷ prune_table ip rest

pub prune_ft : CString → Option (List Node) → Option (List Node)
unfolding prune_table
prune_ft ip none = none
prune_ft ip (some table) = some (prune_table ip table)

pub delete_peer : ℕ → Tracker → ℕ → CString → Outcome Tracker
unfolding prune_ft
delete_peer rounds tr sock ip = do
  peers' ← delete_from_list rounds tr.peers sock
  ok (record tr { ft = prune_ft ip tr.ft; peers = peers' })

-- `(unsigned long) time(NULL) - temp->last_time_stamp > HEARTBEAT_TIMEOUT`
abbrev pub expired : ℕ → ℕ → Bool
expired now last = ltb heartbeat_timeout ((now + 2 ^ 64 - last) % 2 ^ 64)

-- One pass of `heartbeat` over the list, from `temp` on.
pub heartbeat_pass : ℕ → ℕ → ℕ → Tracker → Ptr → Outcome Tracker
heartbeat_pass zero rounds now tr temp = out_of_fuel
heartbeat_pass (suc k) rounds now tr temp = if temp == null then ok tr else do
  n ← load tr.peers.heap temp
  tr' ← if expired now n.last_time_stamp then delete_peer rounds tr n.sockfd n.ip else ok tr
  m ← load tr'.peers.heap temp
  heartbeat_pass k rounds now tr' m.next
