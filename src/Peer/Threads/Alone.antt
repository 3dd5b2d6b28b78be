-- ===== src/Peer/Threads/Alone.antt =====
-- peer/peer.c: `main` as it runs without the other threads is a run of the threads.
use dart_sync.Base.{
  ℕ, zero, suc, ◌≡◌, refl, ◌∙◌, ap, Bool-cases, inl, inr, true, Option, none, some, List, [], ◌∷◌,
  ◌++◌, CString, length, replicate, Option-cases, ok, ◌>>=◌, >>=-ok_inv,
}
use dart_sync.Table.{Node}
use dart_sync.Packet.{PeerPkt, TrackerPkt, Net, Received, peer_recvpkt}
use dart_sync.Socket.{Kernel}
use dart_sync.Peer.Sync.{Local, compare_node, compare_nodes}
use dart_sync.Peer.Main.{connect_to_tracker, compare_table, main_loop, filetable_create, main}
use dart_sync.Peer.Threads.{Place, Running, Action, received, compared, launched, perform, run}
use dart_sync.Peer.Threads.Launch.{running, ptp_listen_thread_init, launch}

-- The turns of `main` over a table and over the packets that follow.
abbrev pub table_turns : Received → List Action
table_turns r = replicate (length r.nodes) compared

pub main_turns : ℕ → List TrackerPkt → List Action
main_turns zero pkts = []
main_turns (suc k) pkts = elim (peer_recvpkt pkts) [
  | none ↦ []
  | some (r, rest) ↦ received r ∷ table_turns r ++ main_turns k rest
]

-- `main` waits for the next table.
abbrev waiting : Local → Net PeerPkt → Running
waiting l net = record { local = l; pending = []; net = net }

abbrev busy_with : List Node → Local → Net PeerPkt → Running
busy_with seeks l net = record { local = l; pending = seeks; net = net }

run-append :
    (p : Place) (xs ys : List Action) (s s1 : Running)
    → run p xs s ≡ ok s1
    → run p (xs ++ ys) s ≡ run p ys s1
unfolding run
run-append p [] ys s s1 e = let same : s ≡ s1 = cc e in ap (run p ys) same
run-append p (x ∷ xs) ys s s1 e =
    let (s0, one, more) = >>=-ok_inv (perform p x s) (λ v. run p xs v) s1 e in
    rw one (run-append p xs ys s0 s1 more)

run-compare_nodes :
    (p : Place) (seeks : List Node) (l l' : Local) (net : Net PeerPkt)
    → compare_nodes p.myip seeks l ≡ ok l'
    → run p (replicate (length seeks) compared) (busy_with seeks l net) ≡ ok (waiting l' net)
unfolding run perform compare_nodes
run-compare_nodes p [] l l' net e = let same : l ≡ l' = cc e in rw same refl
run-compare_nodes p (seek ∷ seeks) l l' net e =
    let (l1, one, more) =
      >>=-ok_inv (compare_node p.myip seek l) (λ v. compare_nodes p.myip seeks v) l' e in
    rw one (run-compare_nodes p seeks l1 l' net more)

compare_table-ok :
    (myip : CString) (r : Received) (l l' : Local)
    → compare_table myip r l ≡ ok l'
    → (r.is_closed ≡ true) × (compare_nodes myip r.nodes l ≡ ok l')
unfolding compare_table
compare_table-ok myip r l l' e = elim (Bool-cases r.is_closed) [
  | inl closed ↦ (closed, rw closed at e)
  | inr wild ↦ cc (rw wild at e)
]

run-table :
    (p : Place) (r : Received) (l l' : Local) (net : Net PeerPkt)
    → compare_table p.myip r l ≡ ok l'
    → run p (received r ∷ table_turns r) (waiting l net) ≡ ok (waiting l' net)
unfolding run perform
run-table p r l l' net e =
    let (closed, all) = compare_table-ok p.myip r l l' e in
    rw closed (run-compare_nodes p r.nodes l l' net all)

run-main_loop :
    (p : Place) (k : ℕ) (pkts : List TrackerPkt) (l l' : Local) (net : Net PeerPkt)
    → main_loop k p.myip pkts l ≡ ok l'
    → run p (main_turns k pkts) (waiting l net) ≡ ok (waiting l' net)
unfolding main_loop main_turns run
run-main_loop p zero pkts l l' net e = cc e
run-main_loop p (suc k) pkts l l' net e = elim (Option-cases (peer_recvpkt pkts)) [
  | inl ends ↦
      let same : l ≡ l' = cc (rw (ends, main_loop) at e) in rw (ends, main_turns) (rw same refl)
  | inr ((r, rest), got) ↦
      let (l1, one, more) =
        >>=-ok_inv (compare_table p.myip r l) (λ v. main_loop k p.myip rest v) l'
          (rw (got, main_loop) at e) in
      rw (got, main_turns)
        (run-append p (received r ∷ table_turns r) (main_turns k rest) (waiting l net)
            (waiting l1 net) (run-table p r l l1 net one)
          ∙ run-main_loop p k rest l1 l' net more)
]

-- Whatever main returns when it runs alone on the tracker's packets and it can listen for peers,
-- the start with threads reaches a state from which the turns of main alone, over the first table
-- and the packets behind it, lead to the same file table, downloads and removals, with nothing
-- pending.
pub run-main :
    (p : Place) (kernel : Kernel) (k ptp_listen_fd : ℕ) (opened : Option ℕ) (net : Net PeerPkt)
    (pkts : List TrackerPkt) (l' : Local)
    → ptp_listen_thread_init kernel ≡ some ptp_listen_fd
    → main k opened p.myip net pkts ≡ ok (some l')
    → (conn : ℕ) × (s : Running) × (rest : List TrackerPkt) × (net' : Net PeerPkt) × (launch kernel
          opened p.myip net pkts
        ≡ ok (running conn ptp_listen_fd s rest))
      × (run p (replicate (length s.pending) compared ++ main_turns k rest) s
          ≡ ok (record { local = l'; pending = []; net = net' }))
unfolding main launch
run-main p kernel k ptp_listen_fd opened net pkts l' listens e =
    elim (Option-cases (connect_to_tracker opened p.myip [] net pkts).0) [
      | inl failed ↦ cc (rw (failed, main) at e)
      | inr (j, joined) ↦
          let (l, one, more) =
            >>=-ok_inv (compare_table p.myip j.table filetable_create)
              (λ v. main_loop k p.myip j.rest v >>= (λ v'. ok (some v'))) (some l')
              (rw (joined, main) at e) in
          let (l2, loop, last) =
            >>=-ok_inv (main_loop k p.myip j.rest l) (λ v'. ok (some v')) (some l') more in
          let same : l2 ≡ l' = cc last in
          let (closed, all) = compare_table-ok p.myip j.table filetable_create l one in
          let net' = (connect_to_tracker opened p.myip [] net pkts).1 in
          (
            j.sockfd,
            launched j.table.nodes net',
            j.rest,
            net',
            rw (joined, launch, listens, closed) refl,
            run-append p (table_turns j.table) (main_turns k j.rest) (launched j.table.nodes net')
                  (waiting l net') (run-compare_nodes p j.table.nodes filetable_create l net' all)
                ∙ run-main_loop p k j.rest l l' net' (rw same at loop),
          )
    ]
