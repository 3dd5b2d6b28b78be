-- ===== src/Tracker/Session/Broadcast.antt =====
-- `broadcast_filetable` where every `send` succeeds: each peer gets the whole table.
use mathlib.Core.List.{append-nil}
use dart_sync.Base.{
  ℕ, zero, suc, ◌≡◌, ◌<◌, refl, ap, ◌∙◌, sym, subst, true, false, some, List, [], ◌∷◌, ◌++◌, ◌==◌,
  if◌then◌else◌, arith, length, ok, Bool-cases, inl, inr,
}
use dart_sync.Table.{Node}
use dart_sync.Packet.{TrackerPkt, peer_recvpkt}
use dart_sync.Packet.RoundTrip.{delivered, peer_recvpkt_sent}
use dart_sync.Packet.Served.{served, logged, table_pkts, tracker_sendpkt-served, delivered-logged}
use dart_sync.Tracker.Peers.{null, Peers}
use dart_sync.Tracker.Peers.Chain.{Cell, first, Chain, IsPeers, load-ok}
use dart_sync.Tracker.Session.{World, broadcast_loop, broadcast_filetable}

-- The log after one round of sending to all peers.
abbrev pub all_logged : List Node → List Cell → List (ℕ × TrackerPkt) → List (ℕ × TrackerPkt)
all_logged table [] sent = sent
all_logged table (c ∷ xs) sent = all_logged table xs (logged c.sock (table_pkts table) sent)

-- How many peers have the socket.
abbrev pub count_sock : ℕ → List Cell → ℕ
count_sock sock [] = 0
count_sock sock (c ∷ xs) = if c.sock == sock then suc (count_sock sock xs) else count_sock sock xs

abbrev pub calm : List Node → Peers → List (ℕ × TrackerPkt) → List ℕ → World
calm table ps sent closed = record {
  tracker = record { ft = some table; peers = ps };
  net = served sent closed;
}

pub broadcast_loop-calm :
    (k rounds : ℕ) (table : List Node) (ps : Peers) (xs : List Cell) (sent : List (ℕ × TrackerPkt))
    (closed : List ℕ)
    → length xs < k
    → Chain ps.heap xs
    → broadcast_loop k rounds (calm table ps sent closed) (first xs)
      ≡ ok (true, calm table ps (all_logged table xs sent) closed)
unfolding broadcast_loop
broadcast_loop-calm zero rounds table ps xs sent closed h ch = absurd (omega arith)
broadcast_loop-calm (suc k) rounds table ps [] sent closed h ch = refl
broadcast_loop-calm (suc k) rounds table ps (c ∷ xs) sent closed h ch =
    let some_node : (c.addr == null) ≡ false = ground (arith, ch.0) in
    rw (some_node, load-ok ps.heap c.addr _ (ch.0) (ch.2), tracker_sendpkt-served)
      (broadcast_loop-calm k rounds table ps xs (logged c.sock (table_pkts table) sent) closed
        (omega arith) (ch.3))

none_logged :
    (sock : ℕ) (table : List Node) (xs : List Cell) (sent : List (ℕ × TrackerPkt))
    → count_sock sock xs ≡ 0
    → delivered sock (all_logged table xs sent) ≡ delivered sock sent
none_logged sock table [] sent h = refl
none_logged sock table (c ∷ xs) sent h = elim (Bool-cases (c.sock == sock)) [
  | inl e ↦ absurd (ground (arith, h, e))
  | inr e ↦
      none_logged sock table xs (logged c.sock (table_pkts table) sent) (ground (arith, h, e))
      ∙ delivered-logged sock c.sock (table_pkts table) sent
      ∙ rw (e, append-nil) refl
]

once_logged :
    (sock : ℕ) (table : List Node) (xs : List Cell) (sent : List (ℕ × TrackerPkt))
    → count_sock sock xs ≡ 1
    → delivered sock (all_logged table xs sent) ≡ delivered sock sent ++ table_pkts table
once_logged sock table [] sent h = absurd (omega arith)
once_logged sock table (c ∷ xs) sent h = elim (Bool-cases (c.sock == sock)) [
  | inl e ↦
      none_logged sock table xs (logged c.sock (table_pkts table) sent) (ground (arith, h, e))
      ∙ delivered-logged sock c.sock (table_pkts table) sent
      ∙ rw e refl
  | inr e ↦
      once_logged sock table xs (logged c.sock (table_pkts table) sent) (ground (arith, h, e))
      ∙ ap (λ pkts. pkts ++ table_pkts table)
          (delivered-logged sock c.sock (table_pkts table) sent ∙ rw (e, append-nil) refl)
]

-- Where every send succeeds and the loop may run often enough, broadcast_filetable returns 1 with
-- the tracker unchanged, and a peer whose socket is listed once and has nothing under way reads
-- the tracker's table, closed by NULL.
pub broadcast_filetable-peer_recvpkt :
    (rounds sock : ℕ) (table : List Node) (ps : Peers) (xs : List Cell)
    (sent : List (ℕ × TrackerPkt)) (closed : List ℕ)
    → IsPeers ps xs
    → length xs < rounds
    → count_sock sock xs ≡ 1
    → delivered sock sent ≡ []
    → (sent' : List (ℕ × TrackerPkt)) × (broadcast_filetable rounds (calm table ps sent closed)
        ≡ ok (true, calm table ps sent' closed))
      × (peer_recvpkt (delivered sock sent')
          ≡ some (record { nodes = table; is_closed = true }, []))
unfolding broadcast_filetable
broadcast_filetable-peer_recvpkt rounds sock table ps xs sent closed w h once quiet = (
  all_logged table xs sent,
  subst
      (λ p.
        broadcast_loop rounds rounds (calm table ps sent closed) p
        ≡ ok (true, calm table ps (all_logged table xs sent) closed))
      (sym w.head) (broadcast_loop-calm rounds rounds table ps xs sent closed h w.chain),
  rw (once_logged sock table xs sent once, quiet) (rw append-nil at (peer_recvpkt_sent table [])),
)
