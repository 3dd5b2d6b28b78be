-- ===== src/Peer/Main/Loop.antt =====
-- The loop of the peer's `main` over everything that the tracker sends.
use dart_sync.Base.{
  ℕ, zero, suc, ◌≡◌, ◌<◌, refl, ◌∙◌, ◌⊎◌, inl, inr, arith, none, some, Option-cases, Bool-cases,
  List, CString, length, ok, fault, ◌>>=◌,
}
use dart_sync.Packet.{TrackerPkt, Received, peer_recvpkt}
use dart_sync.Packet.RoundTrip.{peer_recvpkt_shorter}
use dart_sync.Peer.Sync.{Local}
use dart_sync.Peer.Sync.Whole.{compare_nodes-ok}
use dart_sync.Peer.Main.{compare_table, main_loop}

compare_table_cases :
    (myip : CString) (r : Received) (l : Local)
    → (compare_table myip r l ≡ fault) ⊎ ((l' : Local) × (compare_table myip r l ≡ ok l'))
unfolding compare_table
compare_table_cases myip r l = elim (Bool-cases r.is_closed) [
  | inl closed ↦ let (l', e) = compare_nodes-ok myip r.nodes l in inr (l', rw closed e)
  | inr wild ↦ inl (rw wild refl)
]

pub main_loop-end :
    (k : ℕ) (myip : CString) (pkts : List TrackerPkt) (l : Local)
    → peer_recvpkt pkts ≡ none
    → main_loop (suc k) myip pkts l ≡ ok l
unfolding main_loop
main_loop-end k myip pkts l e = rw (e, main_loop) refl

main_loop-next :
    (k : ℕ) (myip : CString) (pkts rest : List TrackerPkt) (r : Received) (l : Local)
    → peer_recvpkt pkts ≡ some (r, rest)
    → main_loop (suc k) myip pkts l ≡ (compare_table myip r l >>= (λ l'. main_loop k myip rest l'))
unfolding main_loop
main_loop-next k myip pkts rest r l e = rw (e, main_loop) refl

main_loop-fault :
    (k : ℕ) (myip : CString) (pkts rest : List TrackerPkt) (r : Received) (l : Local)
    → peer_recvpkt pkts ≡ some (r, rest)
    → compare_table myip r l ≡ fault
    → main_loop (suc k) myip pkts l ≡ fault
main_loop-fault k myip pkts rest r l e f = main_loop-next k myip pkts rest r l e ∙ rw f refl

-- With more rounds than packets the loop of the peer's main either faults or returns when the
-- connection ends, whatever the packets are.
pub main_loop_terminates :
    (k : ℕ) (myip : CString) (pkts : List TrackerPkt) (l : Local)
    → length pkts < k
    → (main_loop k myip pkts l ≡ fault) ⊎ ((l' : Local) × (main_loop k myip pkts l ≡ ok l'))
main_loop_terminates zero myip pkts l h = absurd (omega arith)
main_loop_terminates (suc k) myip pkts l h = elim (Option-cases (peer_recvpkt pkts)) [
  | inl ends ↦ inr (l, main_loop-end k myip pkts l ends)
  | inr ((r, rest), got) ↦ elim (compare_table_cases myip r l) [
    | inl f ↦ inl (main_loop-fault k myip pkts rest r l got f)
    | inr (l1, e) ↦
        let next : main_loop (suc k) myip pkts l ≡ main_loop k myip rest l1 =
          main_loop-next k myip pkts rest r l got ∙ rw e refl in
        elim (main_loop_terminates k myip rest l1
          (omega (arith, h, peer_recvpkt_shorter pkts rest r got))) [
            | inl f ↦ inl (next ∙ f)
            | inr (l', e') ↦ inr (l', next ∙ e')
          ]
  ]
]
