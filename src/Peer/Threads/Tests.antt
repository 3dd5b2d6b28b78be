-- ===== src/Peer/Threads/Tests.antt =====
-- peer/peer.c: a peer that fetches a file, and one whose file is deleted while it is completed.
use dart_sync.Base.{ok, ◌≡◌, refl, ◌≢◌, true, [], ◌∷◌, arith, some, none, str_eq}
use dart_sync.Table.{Node, file_download, file_downloading}
use dart_sync.Examples.{alice, notes, new_notes}
use dart_sync.Socket.{Kernel, open_listener}
use dart_sync.Packet.{Net, PeerPkt}
use dart_sync.Peer.Main.{filetable_create}
use dart_sync.Peer.Threads.Launch.{ptp_listen_thread_init}
use dart_sync.Tracker.Merge.Invariant.{Unique}
use dart_sync.Tracker.Merge.Versions.{version, ◌⊑◌}
use dart_sync.Peer.Sync.{
  request, added, addresses, add, find_node, change, compare_node, compare_nodes, set_node_type,
}
use dart_sync.Peer.Monitor.{in_delete}
use dart_sync.Peer.Threads.{
  Place, Running, received, compared, noticed, downloaded, launched, perform, run,
}
use dart_sync.Peer.Threads.InStep.{InStepAt, downloads_of}
use dart_sync.Peer.Threads.Unique.{run-Unique}
use dart_sync.Peer.Threads.Busy.{run-InStepAt}
use dart_sync.Peer.Threads.Fetched.{run-catches_up}
use dart_sync.Peer.Threads.Twice.{run-twice}

abbrev place : Place
place = record { sync_dir = 115 ∷ 47 ∷ []; tracker_conn = 4; myip = alice }

abbrev quiet : Net PeerPkt
quiet = record { outcomes = []; sent = []; closed = [] }

-- The peer has started its only download.
abbrev fetching : Running
fetching = record {
  local = record {
    file_table = added alice (request notes new_notes) ∷ [];
    downloads = request notes new_notes ∷ [];
    removed = [];
  };
  pending = [];
  net = quiet;
}

abbrev completed : Running
completed = record {
  local = record {
    file_table = record (added alice (request notes new_notes)) { type = file_download } ∷ [];
    downloads = [];
    removed = [];
  };
  pending = [];
  net = quiet;
}

fetching-run : run place (compared ∷ []) (launched (new_notes ∷ []) quiet) ≡ ok fetching
unfolding run perform compare_node find_node add request addresses str_eq
fetching-run = refl

completed-run :
    run place (compared ∷ downloaded 0 ∷ []) (launched (new_notes ∷ []) quiet) ≡ ok completed
unfolding run perform compare_node find_node add request addresses set_node_type change str_eq
completed-run = refl

run-Unique_example : Unique completed.local.file_table
run-Unique_example =
    run-Unique place (new_notes ∷ []) quiet (compared ∷ downloaded 0 ∷ []) completed completed-run

run-InStepAt_example : InStepAt notes fetching.local
run-InStepAt_example =
    run-InStepAt notes place (new_notes ∷ []) quiet (compared ∷ []) fetching ((λ _. refl), tt)
      (tt, tt) fetching-run

run-catches_up_example :
    (t : Node) × (find_node notes completed.local.file_table ≡ some t)
    × (version new_notes ⊑ version t)
    × (downloads_of notes completed.local.downloads ≡ [] → t.type ≢ file_downloading)
unfolding run find_node
run-catches_up_example =
    run-catches_up place (new_notes ∷ []) quiet [] (downloaded 0 ∷ []) new_notes []
      (launched (new_notes ∷ []) quiet) completed ((λ _. refl), tt) tt refl refl (omega arith)
      (λ current e. cc e) (tt, tt) completed-run

-- The file comes back in a newer version after it was deleted.
abbrev newer_notes : Node
newer_notes = record new_notes { timestamp = 20 }

run-twice_example :
    (s1 s2 : Running) × (u : Node) × (run place
        (noticed in_delete (λ _. none) (λ _. none) 10 place.sync_dir notes
          ∷ received (record { nodes = newer_notes ∷ []; is_closed = true })
          ∷ compared
          ∷ [])
        fetching
      ≡ ok s1)
    × (s1.local.downloads ≡ request notes newer_notes ∷ request notes new_notes ∷ [])
    × (run place (downloaded 1 ∷ []) s1 ≡ ok s2)
    × (s2.local.downloads ≡ request notes newer_notes ∷ [])
    × (find_node notes s2.local.file_table ≡ some u)
    × (u.type ≡ file_download)
    × (u.size ≡ 12)
    × (u.timestamp ≡ 20)
unfolding request str_eq find_node addresses
run-twice_example =
    run-twice place fetching (λ _. none) (λ _. none) 10 place.sync_dir notes
      (added alice (request notes new_notes)) newer_notes (request notes new_notes) [] refl
      (λ e. cc e) refl refl refl refl refl (omega arith) (omega arith) (omega arith)

-- A kernel that grants everything.
abbrev granting : Kernel
granting = record { socket = some 5; bind = λ s port. true; listen = λ s queue. true }

listens : ptp_listen_thread_init granting ≡ some 5
unfolding ptp_listen_thread_init open_listener
listens = refl

compared-all : compare_nodes alice (new_notes ∷ []) filetable_create ≡ ok fetching.local
unfolding compare_nodes compare_node find_node add request addresses str_eq
compared-all = refl
