-- ===== src/Tracker/Server/Tests.antt =====
-- tracker/tracker.c, `main`: a peer connects and announces its only file.
use dart_sync.Base.{arith, ok, ◌≡◌, refl, true, [], ◌∷◌}
use dart_sync.Table.{file_update}
use dart_sync.Examples.{alice, notes, alice_only, new_notes}
use dart_sync.Packet.{peer_header, to_tracker}
use dart_sync.Tracker.Merge.Invariant.{IsTable}
use dart_sync.Tracker.Merge.Versions.{newest}
use dart_sync.Tracker.History.{AtMost}
use dart_sync.Tracker.Peers.Tests.{add_peer-alice_only}
use dart_sync.Tracker.Session.{freed, Session, collect}
use dart_sync.Tracker.Session.Update.{idle}
use dart_sync.Tracker.Session.Tests.{
  one_waits, one_file, one_served, counting, handshake_step-header, handshake_step-last,
}
use dart_sync.Tracker.Server.{
  Server, started, new_thread, Step, accept, start, packet, Reach, here, further,
}
use dart_sync.Tracker.Server.Sessions.{Reach-collect}
use dart_sync.Tracker.Server.Safety.{Reach-IsTable, Reach-newest}

abbrev waiting : Server
waiting = record { world = one_waits; connection = 4; starting = 0; threads = new_thread 4 ∷ [] }

abbrev expecting : Server
expecting = record waiting {
  threads = record { connection = 4; peer_ip = alice; session = counting } ∷ [];
}

abbrev informed : Server
informed = record waiting {
  world = one_served;
  threads = record { connection = 4; peer_ip = alice; session = idle freed } ∷ [];
}

expecting-run : Reach 2 (started []) expecting
expecting-run =
    further
      (further
        (further here (accept 16 100 4 alice true alice_only (omega arith) add_peer-alice_only))
        (start 0 refl))
      (packet [] [] (new_thread 4) 101 (peer_header file_update alice one_file) one_waits counting
        refl handshake_step-header)

informed-Step : Step 2 expecting informed
informed-Step =
    packet [] [] (record { connection = 4; peer_ip = alice; session = counting }) 102
      (to_tracker file_update alice (record { entry = new_notes; is_last = true })) one_served
      (idle freed) refl handshake_step-last

Reach-IsTable_example : IsTable one_file
Reach-IsTable_example = Reach-IsTable 2 [] (further expecting-run informed-Step)

Reach-newest_example : AtMost (newest notes []) (newest notes one_file)
Reach-newest_example = Reach-newest 2 notes (further expecting-run informed-Step)

Reach-collect_example :
    (session' : Session) × (collect counting
        (to_tracker file_update alice (record { entry = new_notes; is_last = true }))
      ≡ ok session')
Reach-collect_example =
    Reach-collect 2 [] [] [] (record { connection = 4; peer_ip = alice; session = counting })
      (to_tracker file_update alice (record { entry = new_notes; is_last = true })) expecting-run
      refl
