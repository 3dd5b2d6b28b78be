-- ===== src/Tracker/Session/Tests.antt =====
-- tracker/tracker.c, `handshake`: runs on the packets of one announcement.
use dart_sync.Base.{
  ◌+◌, ◌++◌, ◌==◌, if◌then◌else◌, ◌>>=◌, ℤ, none, ℕ, ◌≡◌, refl, inl, arith, true, List, [], ◌∷◌, ok,
  fault,
}
use dart_sync.Table.{Node, file_update}
use dart_sync.Examples.{alice_only, cell_alice, alice, new_notes, tracker_of_two}
use dart_sync.Tracker.Merge.Tests.{update_filetable-first}
use dart_sync.Packet.Bytes.{Layout}
use dart_sync.Packet.Bytes.Framing.{stream_of}
use dart_sync.Tracker.State.{delete_peer}
use dart_sync.Tracker.Session.Stream.{handshake_stream, handshake_stream-announcement}
use dart_sync.Packet.{
  PeerPkt, empty_table, attach, wires, peer_header, peer_pkts, to_tracker, no_file,
}
use dart_sync.Tracker.Peers.{write}
use dart_sync.Tracker.Session.{
  World, Session, fresh_session, live, freed, collect, take_file, finish, readable, unset,
  broadcast_filetable, handshake_step,
}
use dart_sync.Tracker.Session.Broadcast.{calm, all_logged, broadcast_loop-calm}
use dart_sync.Tracker.Session.Update.{idle, announce}
use dart_sync.Tracker.Session.Stray.{handshake_step-stray}

abbrev world : World
world = record { tracker = tracker_of_two; net = record { outcomes = []; sent = []; closed = [] } }

handshake_step-stray_example :
    handshake_step 3 4 300 world (idle unset) (to_tracker file_update alice no_file) ≡ fault
handshake_step-stray_example = handshake_step-stray 3 4 300 world unset alice no_file (inl refl)

-- A tracker that has no table yet, and one peer.
abbrev pub one_waits : World
one_waits = record {
  tracker = record { ft = none; peers = alice_only };
  net = record { outcomes = []; sent = []; closed = [] };
}

abbrev pub one_file : List Node
one_file = new_notes ∷ []

abbrev pub counting : Session
counting = record { counter = ℤ.pos 0; file_table_size = ℤ.pos 1; peer_ft = live empty_table }

pub handshake_step-header :
    handshake_step 2 4 101 one_waits fresh_session (peer_header file_update alice one_file)
    ≡ ok (one_waits, counting)
unfolding handshake_step collect
handshake_step-header = refl

-- The table after the last entry, which every peer has been sent.
abbrev pub one_served : World
one_served = calm one_file alice_only (all_logged one_file (cell_alice ∷ []) []) []

pub handshake_step-last :
    handshake_step 2 4 102 one_waits counting
      (to_tracker file_update alice (record { entry = new_notes; is_last = true }))
    ≡ ok (one_served, idle freed)
unfolding handshake_step collect take_file finish readable broadcast_filetable attach write
handshake_step-last =
    rw
      (
        update_filetable-first,
        broadcast_loop-calm 2 2 one_file alice_only (cell_alice ∷ []) [] [] (omega arith)
            (omega arith, refl, refl, tt),
      )
      refl

-- The two packets of this announcement in two bytes each.
abbrev entry_pkt : PeerPkt
entry_pkt = to_tracker file_update alice (record { entry = new_notes; is_last = true })

abbrev bytes_of : ℤ → List ℕ
bytes_of (ℤ.pos n) = 7 ∷ n ∷ []
bytes_of (ℤ.negsuc n) = 8 ∷ n ∷ []

abbrev packet_in : List ℕ → PeerPkt
packet_in [] = entry_pkt
packet_in (b ∷ bytes) = if b == 7 then peer_header file_update alice one_file else entry_pkt

abbrev two_bytes : Layout PeerPkt
two_bytes = record { encode = λ p. bytes_of p.file_table_size; decode = packet_in; size = 2 }

handshake_stream-announcement_example :
    handshake_stream two_bytes
      (λ i. 100 + i)
      2
      4
      one_waits
      (stream_of two_bytes
          (peer_header file_update alice one_file ∷ peer_pkts file_update alice (wires one_file))
        ++ 7 ∷ [])
    ≡ (announce 2 one_waits one_file >>= (λ done.
        delete_peer 2 done.0.tracker 4 alice >>= (λ tr'. ok (record done.0 { tracker = tr' }))))
unfolding peer_pkts wires
handshake_stream-announcement_example =
    handshake_stream-announcement two_bytes (λ i. 100 + i) 2 4 one_waits alice one_file (7 ∷ [])
      (omega arith)
      (record { restores = refl; fills = refl }, (record { restores = refl; fills = refl }, tt))
      (omega arith)
