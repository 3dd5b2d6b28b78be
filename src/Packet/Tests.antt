-- ===== src/Packet/Tests.antt =====
-- common/pkt.c: a table of two entries over a socket.
use dart_sync.Base.{◌≡◌, refl, true, some, [], ◌∷◌}
use dart_sync.Examples.{old_notes, todo_list}
use dart_sync.Packet.{
  TrackerPkt, Net, send, send_all, wires, tracker_pkts, tracker_sendpkt, peer_recvpkt,
}
use dart_sync.Packet.RoundTrip.{delivered, tracker_sendpkt-peer_recvpkt}

abbrev quiet_net : Net TrackerPkt
quiet_net = record { outcomes = []; sent = []; closed = [] }

tracker_sendpkt-peer_recvpkt_example :
    peer_recvpkt
      (delivered 4 (tracker_sendpkt 4 (some (old_notes ∷ todo_list ∷ [])) quiet_net).1.sent)
    ≡ some (record { nodes = old_notes ∷ todo_list ∷ []; is_closed = true }, [])
unfolding tracker_sendpkt send send_all wires tracker_pkts
tracker_sendpkt-peer_recvpkt_example =
    tracker_sendpkt-peer_recvpkt 4 (old_notes ∷ todo_list ∷ []) quiet_net refl refl
