-- ===== src/System/Tests.antt =====
-- One announcement to a tracker with two peers, and what the second one makes of it.
use dart_sync.Base.{ℕ, ◌≡◌, refl, arith, inl, true, some, List, [], ◌∷◌, CString, str_eq, ok}
use dart_sync.Table.{Node, register}
use dart_sync.Examples.{
  alice, bob, notes, edited_notes, old_notes, new_notes, todo_list, old_table, two_files-IsTable,
  cell_a, cell_b, two_peers, two_peers-IsPeers, two_files,
}
use dart_sync.Packet.{Net, PeerPkt, peer_header, TrackerPkt, peer_recvpkt}
use dart_sync.Packet.RoundTrip.{delivered}
use dart_sync.Tracker.Merge.Tests.{update_filetable-new_notes, update_filetable-edited_notes}
use dart_sync.Tracker.Merge.Versions.{version, ◌⊑◌}
use dart_sync.Tracker.Session.{
  broadcast_filetable, World, unset, freed, handshake_step, handshake_steps,
}
use dart_sync.Tracker.Session.Update.{stamp, idle}
use dart_sync.Tracker.Session.Broadcast.{calm}
use dart_sync.System.Agreement.{Arrives, broadcast_filetable-compare_nodes}
use dart_sync.Peer.Sync.Fetch.{Fetches, Gets}
use dart_sync.Peer.Sync.{change, Local, find_node, compare_nodes}
use dart_sync.Tracker.Peers.Chain.{IsPeers}
use dart_sync.Tracker.Peers.Heard.{touch}
use dart_sync.Peer.Main.{filetable_create, main}
use dart_sync.Peer.Monitor.{Watch, Stat, in_modify, notify_event}
use dart_sync.Peer.Monitor.Edit.{connected}
use dart_sync.System.Edit.{notify_event-compare_nodes}
use dart_sync.System.Join.{handshake_step-main}
use dart_sync.System.Beats.{Beat, kept, pass, beats, beats-Punctual}
use dart_sync.System.{world_of, announcement, handshake_steps-compare_nodes}

abbrev local : Local
local = record { file_table = old_notes ∷ []; downloads = []; removed = [] }

handshake_steps-compare_nodes_example :
    (sent' : List (ℕ × TrackerPkt)) × (l' : Local) × (t : Node) × (handshake_steps 3 4
        (world_of old_table two_peers [] [])
        (idle unset)
        (announcement (λ i. i) bob (new_notes ∷ []))
      ≡ ok (calm (new_notes ∷ todo_list ∷ []) two_peers sent' [], idle freed))
    × (peer_recvpkt (delivered 5 sent')
        ≡ some (record { nodes = new_notes ∷ todo_list ∷ []; is_closed = true }, []))
    × (compare_nodes alice (new_notes ∷ todo_list ∷ []) local ≡ ok l')
    × Gets new_notes local l' t
unfolding str_eq find_node
handshake_steps-compare_nodes_example =
    handshake_steps-compare_nodes 3 4 (λ i. i) bob unset old_table (new_notes ∷ [])
      (new_notes ∷ todo_list ∷ []) two_peers (cell_a ∷ cell_b ∷ []) [] [] 5 alice local new_notes
      two_files-IsTable two_peers-IsPeers (omega arith) update_filetable-new_notes refl refl
      (inl refl) (omega arith) (omega arith) (λ current e. ground arith)

abbrev no_net : Net PeerPkt
no_net = record { outcomes = []; sent = []; closed = [] }

handshake_step-main_example :
    (sent' : List (ℕ × TrackerPkt)) × (l' : Local) × (t : Node) × (handshake_step 3 5 300
        (calm two_files two_peers [] [])
        (idle unset)
        (peer_header register bob [])
      ≡ ok (calm two_files two_peers sent' [], idle unset))
    × (main 1 (some 7) bob no_net (delivered 5 sent') ≡ ok (some l'))
    × (find_node notes l'.file_table ≡ some t)
    × (version old_notes ⊑ version t)
    × Fetches old_notes filetable_create l' t
unfolding str_eq
handshake_step-main_example =
    handshake_step-main 3 5 300 0 7 bob two_files two_peers [] [] (idle unset) old_notes no_net refl
      two_files-IsTable.unique (inl refl) (omega arith) (omega arith) refl

abbrev schedule : List Beat
schedule = pass 300 ∷ kept 4 310 7 alice two_files ∷ pass 430 ∷ []

beats-Punctual_example :
    (w' : World) × (beats 3 (λ conn. idle unset) schedule (calm two_files two_peers [] []) ≡ ok w')
    × IsPeers w'.tracker.peers (touch 4 310 (cell_a ∷ cell_b ∷ []))
    × (w'.tracker.ft ≡ some two_files)
    × (w'.tracker.peers.closed ≡ [])
    × (w'.net ≡ (calm two_files two_peers [] []).net)
beats-Punctual_example =
    beats-Punctual 3 (λ conn. idle unset) schedule (calm two_files two_peers [] [])
      (cell_a ∷ cell_b ∷ []) two_peers-IsPeers (omega arith)
      (
        omega arith,
        (
          record { past = omega arith; soon = omega arith },
          (record { past = omega arith; soon = omega arith }, tt),
        ),
        (
          omega arith,
          (
            record { past = omega arith; soon = omega arith },
            (record { past = omega arith; soon = omega arith }, tt),
          ),
          tt,
        ),
      )

-- The folder `s/` and its file.
abbrev folder : CString
folder = 115 ∷ 47 ∷ []

abbrev stat : Stat
stat path = some (12, 7)

notify_event-compare_nodes_example :
    (w' : Watch) × (sent' : List (ℕ × TrackerPkt)) × (l' : Local) × (t : Node) × (notify_event
        in_modify stat stat 8 folder notes
        (connected folder 7 alice (old_notes ∷ []))
      ≡ ok w')
    × (handshake_steps 3 4
          (world_of old_table two_peers [] [])
          (idle unset)
          (stamp (λ i. i) 0 (delivered 7 w'.net.sent))
        ≡ ok (calm (edited_notes ∷ todo_list ∷ []) two_peers sent' [], idle freed))
    × (peer_recvpkt (delivered 5 sent')
        ≡ some (record { nodes = edited_notes ∷ todo_list ∷ []; is_closed = true }, []))
    × (compare_nodes bob (edited_notes ∷ todo_list ∷ []) local ≡ ok l')
    × Gets edited_notes local l' t
    × (record { timestamp = 7; size = 12 } ⊑ version edited_notes)
    × (record { timestamp = 7; size = 12 } ⊑ version t)
unfolding str_eq find_node change
notify_event-compare_nodes_example =
    notify_event-compare_nodes 3 4 8 (λ i. i) stat stat folder notes 12 7 folder 7 alice
      (old_notes ∷ []) old_notes unset old_table (edited_notes ∷ todo_list ∷ []) two_peers
      (cell_a ∷ cell_b ∷ []) [] [] 5 bob local edited_notes (λ e. cc e) refl refl refl refl refl
      (omega arith) (omega arith) two_files-IsTable two_peers-IsPeers (omega arith)
      update_filetable-edited_notes refl refl (inl refl) (omega arith) (omega arith)
      (λ current e. ground arith)

abbrev blank_local : Local
blank_local = record { file_table = []; downloads = []; removed = [] }

broadcast_filetable-compare_nodes_example :
    (sent' : List (ℕ × TrackerPkt)) × (t : Node) × (u : Node) × (broadcast_filetable 3
        (calm (new_notes ∷ todo_list ∷ []) two_peers [] [])
      ≡ ok (true, calm (new_notes ∷ todo_list ∷ []) two_peers sent' []))
    × Arrives 4 alice (new_notes ∷ todo_list ∷ []) sent' new_notes local t
    × Arrives 5 bob (new_notes ∷ todo_list ∷ []) sent' new_notes blank_local u
unfolding str_eq find_node
broadcast_filetable-compare_nodes_example =
    broadcast_filetable-compare_nodes 3 (new_notes ∷ todo_list ∷ []) two_peers
      (cell_a ∷ cell_b ∷ []) [] [] 4 5 alice bob local blank_local new_notes two_peers-IsPeers
      (omega arith) refl refl refl refl (refl, (refl, tt)) (inl refl) (omega arith) (omega arith)
      (λ current e. (ground arith, ground arith, λ dead same. ground arith))
      (λ current e. absurd (cc e))
