-- ===== src/Examples.antt =====
-- A small network for the tests: two files, and a tracker with up to three peers on its heap.
use dart_sync.Base.{
  ℕ, Option, none, some, List, [], ◌∷◌, CString, str_eq, ◌==◌, if◌then◌else◌, arith, refl,
}
use dart_sync.Table.{Node, is_file, file_create, file_modify}
use dart_sync.Table.Memory
use dart_sync.Table.Memory.{Memory, Stored}
use dart_sync.Tracker.Slots.Wf.{IsSlots}
use dart_sync.Tracker.Merge.Invariant.{IsTable}
use dart_sync.Tracker.Peers.{null, Peers, write}
use dart_sync.Tracker.Peers.Chain.{Cell, stored, IsPeers}
use dart_sync.Tracker.State.{Tracker}

abbrev pub alice : CString
alice = 97 ∷ []

abbrev pub bob : CString
bob = 98 ∷ []

abbrev pub notes : CString
notes = 110 ∷ 111 ∷ []

abbrev pub todo : CString
todo = 116 ∷ []

abbrev pub only : CString → List CString
only ip = ip ∷ [] ∷ [] ∷ [] ∷ [] ∷ []

abbrev pub file_entry : CString → ℕ → ℕ → CString → Node
file_entry name size time ip = record {
  status = is_file;
  size = size;
  name = name;
  timestamp = time;
  type = file_create;
  newpeerip = only ip;
}

abbrev pub old_notes : Node
old_notes = file_entry notes 10 5 alice

abbrev pub new_notes : Node
new_notes = file_entry notes 12 7 bob

abbrev pub todo_list : Node
todo_list = file_entry todo 3 4 alice

-- The first file after it was changed on the first peer.
abbrev pub edited_notes : Node
edited_notes = record old_notes { size = 12; timestamp = 7; type = file_modify }

pub only-alice-IsSlots : IsSlots (only alice)
only-alice-IsSlots = record {
  places = refl;
  packed = (refl, (refl, (refl, tt)));
  distinct = (refl, tt);
}

abbrev pub two_files : List Node
two_files = old_notes ∷ todo_list ∷ []

abbrev pub old_table : Option (List Node)
old_table = some two_files

pub two_files-IsTable : IsTable two_files
unfolding str_eq
two_files-IsTable = record {
  unique = (refl, (refl, tt));
  slots = (only-alice-IsSlots, (only-alice-IsSlots, tt));
}

abbrev pub cell_a : Cell
cell_a = record { addr = 16; ip = alice; last = 100; sock = 4 }

abbrev pub cell_b : Cell
cell_b = record { addr = 32; ip = bob; last = 200; sock = 5 }

abbrev pub one_peer : Peers
one_peer = record {
  heap = λ a. if a == 16 then some (stored cell_a null) else none;
  peer_head = 16;
  closed = [];
}

pub one_peer-IsPeers : IsPeers one_peer (cell_a ∷ [])
one_peer-IsPeers = record { head = refl; chain = (omega arith, refl, refl, tt) }

abbrev pub two_peers : Peers
two_peers = record {
  heap = λ a.
      if a == 16
      then some (stored cell_a 32)
      else if a == 32
      then some (stored cell_b null)
      else none;
  peer_head = 16;
  closed = [];
}

pub two_peers-IsPeers : IsPeers two_peers (cell_a ∷ cell_b ∷ [])
two_peers-IsPeers = record {
  head = refl;
  chain = (omega arith, refl, refl, (omega arith, refl, refl, tt));
}

abbrev pub no_peer : Peers
no_peer = record { heap = λ a. none; peer_head = null; closed = [] }

pub no_peer-IsPeers : IsPeers no_peer []
no_peer-IsPeers = record { head = refl; chain = tt }

abbrev pub tracker_of_two : Tracker
tracker_of_two = record { ft = old_table; peers = two_peers }

abbrev pub cell_alice : Cell
cell_alice = record { addr = 16; ip = alice; last = 100; sock = 4 }

-- The list after the first peer has connected.
abbrev pub alice_only : Peers
alice_only = record {
  heap = write (λ p. none) 16 (some (stored cell_alice null));
  peer_head = 16;
  closed = [];
}

-- A table at 8 of two nodes, at 16 and 32.
abbrev pub two_nodes : Memory
two_nodes = record {
  nodes = λ q. if q == 16 then some 32 else if q == 32 then some Memory.null else none;
  tables = λ q. if q == 8 then some 16 else none;
}

pub two_nodes-Stored : Stored two_nodes 8 (16 ∷ 32 ∷ [])
two_nodes-Stored = record {
  there = omega arith;
  head = 16;
  leads = refl;
  chain = (32, refl, omega arith, refl, (Memory.null, refl, omega arith, refl, refl));
  distinct = (refl, (refl, tt));
}
