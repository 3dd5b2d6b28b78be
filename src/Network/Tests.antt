-- ===== src/Network/Tests.antt =====
-- A peer that joins, the creation of its first file, and the tracker that learns it.
use dart_sync.Base.{ℕ, ◌≡◌, refl, inl, inr, some, [], ◌∷◌, CString, str_eq, ok}
use dart_sync.Table.{Node}
use dart_sync.Examples.{alice, notes}
use dart_sync.Packet.{Net, PeerPkt}
use dart_sync.Peer.Sync.{find_node}
use dart_sync.Peer.Monitor.{
  Watch, Stat, in_create, created, report, get_file_info, file_added, notify_event,
}
use dart_sync.Peer.Monitor.Effect.{info_of, filetable-report}
use dart_sync.Tracker.Merge.{new_entry}
use dart_sync.Tracker.Merge.Origin.{update_filetable-first}
use dart_sync.Peer.Threads.{
  Place, Running, Action, noticed, launched, watch_directory, with_table, perform, notice,
}
use dart_sync.Network.{
  Network, deserted, Sees, turn, join, tracked, learn, NetworkReach, here, further,
}
use dart_sync.Network.Origin.{NetworkSeen, NetworkReach-NetworkSeen}

abbrev place : Place
place = record { sync_dir = 115 ∷ 47 ∷ []; tracker_conn = 4; myip = alice }

abbrev quiet : Net PeerPkt
quiet = record { outcomes = []; sent = []; closed = [] }

abbrev there : Stat
there path = some (20, 9)

-- The only event is about this file, with this time.
abbrev Seen : CString → ℕ → Type 0
Seen name time = (name ≡ notes) × (time ≡ 9)

abbrev first_file : Node
first_file =
    created alice (info_of (watch_directory place (launched [] quiet)) (115 ∷ 47 ∷ notes) (20, 9))

abbrev reported : Watch
reported = report (watch_directory place (launched [] quiet)) (first_file ∷ [])

abbrev announcing : Running
announcing = record (with_table (launched [] quiet) reported.filetable) { net = reported.net }

abbrev creation : Action
creation = noticed in_create there there 9 place.sync_dir notes

creation-Sees : Sees Seen place creation
creation-Sees time (inl (d, e)) = cc
creation-Sees time (inr (s, e, same)) = (refl, cc (e, same))

perform-creation : perform place creation (launched [] quiet) ≡ ok announcing
unfolding perform notice notify_event file_added get_file_info find_node str_eq
perform-creation = refl

abbrev known : Network
known = record {
  ft = some (new_entry first_file ∷ []);
  members = record { place = place; state = announcing } ∷ [];
  under_way = (new_entry first_file ∷ []) ∷ announcing.local.file_table ∷ [];
}

known-NetworkReach : NetworkReach Seen deserted known
known-NetworkReach =
    further
      (further (further here (join place quiet)) (
        turn [] [] (record { place = place; state = launched [] quiet }) creation announcing refl
          creation-Sees perform-creation))
      (tracked (
        learn announcing.local.file_table (some (new_entry first_file ∷ []))
          (rw filetable-report (inl (inl refl), tt))
          (rw filetable-report (update_filetable-first first_file))))

NetworkReach-NetworkSeen_example : NetworkSeen Seen known
NetworkReach-NetworkSeen_example = NetworkReach-NetworkSeen Seen known-NetworkReach
