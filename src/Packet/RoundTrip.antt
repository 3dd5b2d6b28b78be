-- ===== src/Packet/RoundTrip.antt =====
-- What `tracker_sendpkt` sends, `peer_recvpkt` reads back.
use mathlib.Core.List.{append_assoc, append-nil}
use dart_sync.Base.{
  none, zero, suc, ◌<◌, ◌≤◌, arith, subst, ℕ, ◌≡◌, refl, ◌∙◌, true, false, some, List, [], ◌∷◌,
  ◌++◌, if◌then◌else◌, length, Bool-cases, inl, inr, ◌==◌, ==_iff,
}
use dart_sync.Table.{Node}
use dart_sync.Packet.{
  TrackerPkt, Net, next_outcome, send, send_all, wires, tracker_pkts, tracker_header,
  tracker_sendpkt, Received, attach, recv_files, peer_recvpkt, empty_table, rounds_of,
}

-- What the other end of a socket receives: the packets logged for it, the earliest first.
abbrev pub delivered {ℓ} : {A : Type ℓ} → ℕ → List (ℕ × A) → List A
delivered conn [] = []
delivered conn ((c, pkt) ∷ log) =
    if c == conn then delivered conn log ++ pkt ∷ [] else delivered conn log

pub ==_refl : (n : ℕ) → (n == n) ≡ true
==_refl n = (==_iff n n).1 refl

send_all-delivered :
    {A : Type 0} (conn : ℕ) (pkts : List A) (net : Net A)
    → (send_all conn pkts net).0 ≡ true
    → delivered conn (send_all conn pkts net).1.sent ≡ delivered conn net.sent ++ pkts
unfolding send_all send
send_all-delivered conn [] net h = rw append-nil refl
send_all-delivered conn (pkt ∷ pkts) net h = elim (Bool-cases (next_outcome net.outcomes).0) [
  | inl e ↦ rw e (send_all-delivered conn pkts _ (rw e at h) ∙ rw (==_refl conn, append_assoc) refl)
  | inr e ↦ cc (rw e at h)
]

recv_files-wires :
    (table : List Node) (ft : Received) (more : List TrackerPkt)
    → recv_files (length table) (tracker_pkts (wires table) ++ more) ft
      ≡ some (
        record {
          nodes = ft.nodes ++ table;
          is_closed = elim table [ [] ↦ ft.is_closed | t ∷ rest ↦ true ];
        },
        more,
      )
unfolding recv_files attach tracker_pkts wires
recv_files-wires [] ft more = rw append-nil refl
recv_files-wires (t ∷ []) ft more = refl
recv_files-wires (t ∷ u ∷ rest) ft more =
    recv_files-wires (u ∷ rest) (attach ft (record { entry = t; is_last = false })) more
    ∙ rw append_assoc refl

-- The packets of a table, read by `peer_recvpkt`, give the table back, closed by NULL, and leave
-- what follows them.
pub peer_recvpkt_sent :
    (table : List Node) (more : List TrackerPkt)
    → peer_recvpkt (tracker_header table ∷ (tracker_pkts (wires table) ++ more))
      ≡ some (record { nodes = table; is_closed = true }, more)
unfolding peer_recvpkt
peer_recvpkt_sent [] more = unfold recv_files wires tracker_pkts in refl
peer_recvpkt_sent (t ∷ rest) more = recv_files-wires (t ∷ rest) empty_table more

-- When tracker_sendpkt returns 1 for a table on a socket with nothing under way, peer_recvpkt
-- reads that table from the delivered packets, closed by NULL, and leaves no packet over.
pub tracker_sendpkt-peer_recvpkt :
    (conn : ℕ) (table : List Node) (net : Net TrackerPkt)
    → delivered conn net.sent ≡ []
    → (tracker_sendpkt conn (some table) net).0 ≡ true
    → peer_recvpkt (delivered conn (tracker_sendpkt conn (some table) net).1.sent)
      ≡ some (record { nodes = table; is_closed = true }, [])
unfolding tracker_sendpkt send
tracker_sendpkt-peer_recvpkt conn table net quiet h =
    elim (Bool-cases (next_outcome net.outcomes).0) [
      | inl e ↦ rw e (
          rw
            (
              send_all-delivered conn (tracker_pkts (wires table)) _ (rw e at h),
              ==_refl conn,
              quiet,
            )
            (rw append-nil at (peer_recvpkt_sent table [])))
      | inr e ↦ cc (rw e at h)
    ]

recv_files_shorter :
    (n : ℕ) (pkts rest : List TrackerPkt) (ft r : Received)
    → recv_files n pkts ft ≡ some (r, rest)
    → length rest ≤ length pkts
unfolding recv_files
recv_files_shorter zero pkts rest ft r e =
    let same : pkts ≡ rest = cc e in subst (λ ps. length ps ≤ length pkts) same (omega arith)
recv_files_shorter (suc n) [] rest ft r e = cc e
recv_files_shorter (suc n) (pkt ∷ pkts) rest ft r e =
    omega (arith, recv_files_shorter n pkts rest (attach ft pkt.file) r e)

-- A table takes at least one packet.
pub peer_recvpkt_shorter :
    (pkts rest : List TrackerPkt) (r : Received)
    → peer_recvpkt pkts ≡ some (r, rest)
    → length rest < length pkts
unfolding peer_recvpkt
peer_recvpkt_shorter [] rest r e = cc e
peer_recvpkt_shorter (pkt ∷ pkts) rest r e =
    omega (arith, recv_files_shorter (rounds_of pkt.file_table_size) pkts rest empty_table r e)

pub peer_recvpkt-nil : peer_recvpkt [] ≡ none
unfolding peer_recvpkt
peer_recvpkt-nil = refl
