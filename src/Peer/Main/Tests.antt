-- ===== src/Peer/Main/Tests.antt =====
-- peer/peer.c, `main`: one table of one file, and the end of the connection.
use dart_sync.Base.{◌≡◌, ◌⊎◌, true, arith, List, [], ◌∷◌, pos, ok, fault}
use dart_sync.Examples.{alice, new_notes}
use dart_sync.Packet.{TrackerPkt, no_file, to_peer}
use dart_sync.Peer.Sync.{Local}
use dart_sync.Peer.Main.{filetable_create, main_loop}
use dart_sync.Peer.Main.Loop.{main_loop_terminates}

abbrev one_table : List TrackerPkt
one_table =
    record { file_table_size = pos 1; file = no_file }
    ∷ to_peer (record { entry = new_notes; is_last = true })
    ∷ []

main_loop_terminates_example :
    (main_loop 3 alice one_table filetable_create ≡ fault)
    ⊎ ((l' : Local) × (main_loop 3 alice one_table filetable_create ≡ ok l'))
main_loop_terminates_example = main_loop_terminates 3 alice one_table filetable_create (omega arith)
