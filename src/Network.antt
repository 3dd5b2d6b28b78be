-- ===== src/Network.antt =====
-- The whole of DartSync: one tracker and any number of peers. A step is a turn of a thread of a peer
-- (peer/peer.c, peer/monitor.c), a peer that reads a table, or the tracker (tracker/tracker.c) that
-- learns an announced table or forgets a peer. A table under way may come late, twice, out of order or
-- not at all, to anybody, and mixed with the entries of others, as when two threads send on one socket:
-- Tracker.Session and Packet say which packets carry it, and here more deliveries are allowed than the
-- connections make.
pub mod Origin
mod Tests
use dart_sync.Base.{ℕ, ◌≡◌, true, Option, none, some, List, [], ◌∷◌, ◌++◌, CString, ok, ◌⊎◌, All}
use dart_sync.Peer.Sync.Whole.{Elem}
use dart_sync.Table.{Node}
use dart_sync.Packet.{PeerPkt, Net, Received}
use dart_sync.Tracker.Merge.{update_filetable}
use dart_sync.Tracker.Merge.Newest.{entries}
use dart_sync.Tracker.State.{prune_ft}
use dart_sync.Peer.Monitor.Effect.{Times}
use dart_sync.Peer.Threads.{
  Place, Running, Action, received, compared, noticed, alive, downloaded, launched, perform,
}
use dart_sync.Peer.Threads.Turns.{event_path}

-- A peer, with what stays as it is and its globals.
pub record Member : Type 0 where
  pub place : Place
  pub state : Running

-- The tracker's table, the peers, and every table that was announced or broadcast.
pub record Network : Type 0 where
  pub ft : Option (List Node)
  pub members : List Member
  pub under_way : List (List Node)

-- One of the tables has this entry.
abbrev pub UnderWay : Node → List (List Node) → Type 0
UnderWay node [] = ⊥
UnderWay node (table ∷ rest) = Elem node table ⊎ UnderWay node rest

abbrev pub deserted : Network
deserted = record { ft = none; members = []; under_way = [] }

-- Which files and times the events of the monitors are about: the time of a deletion, and the one that
-- `stat` gives.
abbrev pub Sees : (CString → ℕ → Type 0) → Place → Action → Type 0
Sees Seen p (noticed kind before stat now folder name) =
    (time : ℕ) → Times kind stat now (folder ++ name) time → Seen (event_path p folder name) time
Sees Seen p (received r) = ⊥
Sees Seen p other = Unit

abbrev pub closed_table : List Node → Received
closed_table table = record { nodes = table; is_closed = true }

-- A thread of the tracker has collected a table, from packets of whichever tables, or ends.
pub data TrackerStep (s : Network) : Network → Type 0 where
  learn :
      (table : List Node) (ft : Option (List Node))
      → All (λ node. UnderWay node s.under_way) table
      → update_filetable s.ft table ≡ ok ft
      → TrackerStep s (record s { ft = ft; under_way = entries ft ∷ s.under_way })
  forget : (ip : CString) → TrackerStep s (record s { ft = prune_ft ip s.ft })

pub data NetworkStep (Seen : CString → ℕ → Type 0) (s : Network) : Network → Type 0 where
  turn :
      (before after : List Member) (m : Member) (a : Action) (state : Running)
      → s.members ≡ before ++ m ∷ after
      → Sees Seen m.place a
      → perform m.place a m.state ≡ ok state
      → NetworkStep Seen s (record s {
        members = before ++ record m { state = state } ∷ after;
        under_way = state.local.file_table ∷ s.under_way;
      })
  read :
      (before after : List Member) (m : Member) (state : Running) (table : List Node)
      → s.members ≡ before ++ m ∷ after
      → All (λ node. UnderWay node s.under_way) table
      → perform m.place (received (closed_table table)) m.state ≡ ok state
      → NetworkStep Seen s (record s { members = before ++ record m { state = state } ∷ after })
  join :
      (place : Place) (net : Net PeerPkt)
      → NetworkStep Seen s (record s {
        members = record { place = place; state = launched (entries s.ft) net } ∷ s.members;
      })
  tracked : {s' : Network} → TrackerStep s s' → NetworkStep Seen s s'

pub data NetworkReach (Seen : CString → ℕ → Type 0) (s : Network) : Network → Type 0 where
  here : NetworkReach Seen s s
  further : {u v : Network} → NetworkReach Seen s u → NetworkStep Seen u v → NetworkReach Seen s v
