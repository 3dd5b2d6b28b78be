-- ===== src/Tracker/State/Tests.antt =====
-- tracker/tracker.c, `delete_peer` and `heartbeat`: runs on a tracker with two peers.
use dart_sync.Base.{◌≡◌, refl, arith, [], ◌∷◌, ok, fault}
use dart_sync.Examples.{
  bob, old_notes, todo_list, two_files-IsTable, cell_a, cell_b, two_peers-IsPeers, tracker_of_two,
}
use dart_sync.Tracker.Merge.Newest.{entries}
use dart_sync.Tracker.Merge.Invariant.{IsTable}
use dart_sync.Tracker.Peers.Chain.{IsPeers}
use dart_sync.Tracker.Peers.Leave.{without, closing}
use dart_sync.Tracker.State.{Tracker, delete_peer, heartbeat_pass}
use dart_sync.Tracker.State.Departure.{Forgets, delete_peer_lem}
use dart_sync.Tracker.State.Heartbeat.{heartbeat_pass-faults}

delete_peer_lem_example :
    (tr' : Tracker) × (delete_peer 2 tracker_of_two 5 bob ≡ ok tr')
    × IsPeers tr'.peers (cell_a ∷ without 5 (cell_b ∷ []))
    × (tr'.peers.closed ≡ closing 5 (cell_b ∷ []) [])
    × IsTable (entries tr'.ft)
    × Forgets bob (old_notes ∷ todo_list ∷ []) (entries tr'.ft)
delete_peer_lem_example =
    delete_peer_lem 2 5 bob tracker_of_two cell_a (cell_b ∷ []) two_files-IsTable two_peers-IsPeers
      (omega arith) refl

heartbeat_pass-faults_example : heartbeat_pass 3 3 341 tracker_of_two 16 ≡ fault
heartbeat_pass-faults_example =
    heartbeat_pass-faults 3 3 341 tracker_of_two cell_a [] (cell_b ∷ []) two_peers-IsPeers
      (omega arith) (omega arith) (omega arith) tt refl refl
