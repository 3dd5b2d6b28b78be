-- ===== src/System/Agreement.antt =====
-- What a broadcast is for: two peers that take in the same table hold the same version of a file.
use dart_sync.Base.{
  inl, inr, arith, ℕ, ◌<◌, ◌≡◌, ◌≢◌, subst, true, some, List, [], length, CString, ok,
}
use dart_sync.Table.{Node, file_delete, file_downloading}
use dart_sync.Packet.{TrackerPkt, peer_recvpkt}
use dart_sync.Packet.RoundTrip.{delivered}
use dart_sync.Tracker.Merge.Versions.{version, ◌⊑◌, Version-antisymm}
use dart_sync.Tracker.Merge.Invariant.{Unique}
use dart_sync.Tracker.Peers.{Peers}
use dart_sync.Tracker.Peers.Chain.{Cell, IsPeers}
use dart_sync.Tracker.Session.{broadcast_filetable}
use dart_sync.Tracker.Session.Broadcast.{calm, count_sock, broadcast_filetable-peer_recvpkt}
use dart_sync.Peer.Sync.{Local, find_node, compare_nodes}
use dart_sync.Peer.Sync.Whole.{Elem, compare_nodes-Gets}
use dart_sync.Peer.Sync.Fetch.{Gets}

-- The peer is not ahead of the entry, is not downloading its file and does not have its version as
-- deleted.
abbrev pub Behind : Node → Local → Type 0
Behind seek l =
    (current : Node)
    → find_node seek.name l.file_table ≡ some current
    → (current.type ≢ file_downloading)
      × (version current ⊑ version seek)
      × (current.type ≡ file_delete → version current ≢ version seek)

-- The peer at the socket receives the table and gets the entry's version: `t` is what it has of the
-- file, alive.
abbrev pub Arrives : ℕ → CString → List Node → List (ℕ × TrackerPkt) → Node → Local → Node → Type 0
Arrives sock myip table sent seek l t =
    (peer_recvpkt (delivered sock sent) ≡ some (record { nodes = table; is_closed = true }, []))
    × (l' : Local) × (compare_nodes myip table l ≡ ok l')
    × Gets seek l l' t
    × (version t ≡ version seek)
    × (t.type ≢ file_delete)

Gets-Behind :
    (seek : Node) (l l' : Local) (t : Node)
    → Behind seek l
    → Gets seek l l' t
    → (version t ≡ version seek) × (t.type ≢ file_delete)
Gets-Behind seek l l' t behind (inl f) = (f.same, rw (f.busy) (omega arith))
Gets-Behind seek l l' t behind (inr h) =
    let (idle, le, other) = behind t h.before in
    let same = Version-antisymm (version t) (version seek) le h.reached in
    (same, λ dead. other dead same)

-- What one peer makes of the broadcast table.
Arrives-Behind :
    (sock : ℕ) (myip : CString) (table : List Node) (sent : List (ℕ × TrackerPkt)) (seek : Node)
    (l : Local)
    → Unique table
    → Elem seek table
    → 0 < seek.size
    → seek.type ≢ file_delete
    → Behind seek l
    → peer_recvpkt (delivered sock sent) ≡ some (record { nodes = table; is_closed = true }, [])
    → (t : Node) × Arrives sock myip table sent seek l t
Arrives-Behind sock myip table sent seek l unique i large live behind arrives =
    let (l', t, compared, gets) =
      compare_nodes-Gets myip table seek l unique i large live (λ c e. (behind c e).0) in
    let (equal, alive) = Gets-Behind seek l l' t behind gets in
    (t, (arrives, l', compared, gets, equal, alive))

-- On a well-formed tracker with one entry to a name whose sends all succeed, with enough rounds,
-- two peers that are listed once, have nothing under way and are neither ahead of a live entry
-- that is not empty nor downloading its file, and have not deleted the file in just its version,
-- both read the broadcast table, and after compareNode on all entries both have an entry of the
-- file in its version that is not FILE_DELETE: each that had none or an older one has started a
-- download of that version and is FILE_DOWNLOADING, and the other keeps what it had.
pub broadcast_filetable-compare_nodes :
    (rounds : ℕ) (table : List Node) (ps : Peers) (xs : List Cell) (sent : List (ℕ × TrackerPkt))
    (closed : List ℕ) (sock sock' : ℕ) (myip myip' : CString) (l m : Local) (seek : Node)
    → IsPeers ps xs
    → length xs < rounds
    → count_sock sock xs ≡ 1
    → count_sock sock' xs ≡ 1
    → delivered sock sent ≡ []
    → delivered sock' sent ≡ []
    → Unique table
    → Elem seek table
    → 0 < seek.size
    → seek.type ≢ file_delete
    → Behind seek l
    → Behind seek m
    → (sent' : List (ℕ × TrackerPkt)) × (t : Node) × (u : Node) × (broadcast_filetable rounds
          (calm table ps sent closed)
        ≡ ok (true, calm table ps sent' closed))
      × Arrives sock myip table sent' seek l t
      × Arrives sock' myip' table sent' seek m u
broadcast_filetable-compare_nodes rounds table ps xs sent closed sock sock' myip myip' l m seek w h
      once once' quiet quiet' unique i large live behind behind' =
    let (sent', did, arrives) =
      broadcast_filetable-peer_recvpkt rounds sock table ps xs sent closed w h once quiet in
    let (sent2, did2, arrives2) =
      broadcast_filetable-peer_recvpkt rounds sock' table ps xs sent closed w h once' quiet' in
    let same : sent2 ≡ sent' = cc (did, did2) in
    let (t, at) = Arrives-Behind sock myip table sent' seek l unique i large live behind arrives in
    let (u, at') = Arrives-Behind sock' myip' table sent' seek m unique i large live behind' (
      subst
        (λ log.
          peer_recvpkt (delivered sock' log)
          ≡ some (record { nodes = table; is_closed = true }, []))
        same arrives2) in
    (sent', t, u, did, at, at')
