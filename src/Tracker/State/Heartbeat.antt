-- ===== src/Tracker/State/Heartbeat.antt =====
-- A pass of `heartbeat`: harmless while all peers are heard, and a use of a freed node as soon as one
-- is really removed.
use dart_sync.Base.{
  ℕ, suc, zero, ◌<◌, ◌≡◌, refl, sym, subst, true, false, none, List, [], ◌∷◌, ◌++◌, ◌==◌, arith, ok,
  fault, length, length-append, All,
}
use dart_sync.Tracker.Peers.{Ptr, null, load}
use dart_sync.Tracker.Peers.Chain.{Cell, first, away, Chain, IsPeers, load-ok, has_sock}
use dart_sync.Tracker.Peers.Leave.{delete_from_list_lem, without}
use dart_sync.Tracker.Peers.Dangling.{delete_from_list_dangling}
use dart_sync.Tracker.State.{Tracker, prune_ft, delete_peer, expired, heartbeat_pass}

abbrev pub AllHeard : ℕ → List Cell → Type 0
AllHeard now = All (λ c. expired now c.last ≡ false)

heartbeat_pass_heard :
    (k rounds now : ℕ) (tr : Tracker) (xs : List Cell)
    → length xs < k
    → Chain tr.peers.heap xs
    → AllHeard now xs
    → heartbeat_pass k rounds now tr (first xs) ≡ ok tr
unfolding heartbeat_pass
heartbeat_pass_heard zero rounds now tr xs fuel ch live = absurd (omega arith)
heartbeat_pass_heard (suc k) rounds now tr [] fuel ch live = refl
heartbeat_pass_heard (suc k) rounds now tr (c ∷ xs) fuel ch live =
    let here = load-ok tr.peers.heap c.addr _ (ch.0) (ch.2) in
    let some_node : (c.addr == null) ≡ false = ground (arith, ch.0) in
    rw (some_node, here, live.0, here)
      (heartbeat_pass_heard k rounds now tr xs (omega arith) (ch.3) (live.1))

-- While every peer has been heard in time a pass of heartbeat with enough rounds changes nothing.
pub heartbeat_pass-keeps :
    (k rounds now : ℕ) (tr : Tracker) (xs : List Cell)
    → length xs < k
    → IsPeers tr.peers xs
    → AllHeard now xs
    → heartbeat_pass k rounds now tr tr.peers.peer_head ≡ ok tr
heartbeat_pass-keeps k rounds now tr xs fuel w live =
    subst (λ p. heartbeat_pass k rounds now tr p ≡ ok tr) (sym w.head)
      (heartbeat_pass_heard k rounds now tr xs fuel w.chain live)

-- The node in the middle of a list.
away-elem :
    (a : Ptr) (e : Cell) (xs ys : List Cell) → away a (xs ++ e ∷ ys) ≡ true → (a == e.addr) ≡ false
away-elem a e [] ys o = ground arith
away-elem a e (x ∷ xs) ys o = away-elem a e xs ys (ground arith)

away-middle :
    (h : Ptr → _) (e : Cell) (xs ys : List Cell)
    → Chain h (xs ++ e ∷ ys)
    → away e.addr (xs ++ ys) ≡ true
away-middle h e [] ys ch = ch.1
away-middle h e (x ∷ xs) ys ch =
    ground (arith, away-elem x.addr e xs ys (ch.1), away-middle h e xs ys (ch.3))

listed_middle : (e : Cell) (xs ys : List Cell) → away e.addr (xs ++ e ∷ ys) ≡ false
listed_middle e [] ys = ground arith
listed_middle e (x ∷ xs) ys = ground (arith, listed_middle e xs ys)

without-middle :
    (e : Cell) (xs ys : List Cell)
    → has_sock e.sock xs ≡ false
    → without e.sock (xs ++ e ∷ ys) ≡ xs ++ ys
without-middle e [] ys o = ground arith
without-middle e (x ∷ xs) ys o = ground (arith, without-middle e xs ys)

-- Removing an expired peer frees the node that the pass stands on.
delete_peer_frees :
    (rounds : ℕ) (tr : Tracker) (e : Cell) (xs ys : List Cell)
    → IsPeers tr.peers (xs ++ e ∷ ys)
    → length (xs ++ e ∷ ys) < rounds
    → 1 < length (xs ++ e ∷ ys)
    → has_sock e.sock xs ≡ false
    → (tr' : Tracker) × (delete_peer rounds tr e.sock e.ip ≡ ok tr')
      × (tr'.peers.heap e.addr ≡ none)
unfolding delete_peer
delete_peer_frees zero tr e xs ys w fuel two o = absurd (omega arith)
delete_peer_frees (suc rounds) tr e [] [] w fuel two o = absurd (omega arith)
delete_peer_frees (suc rounds) tr e [] (d ∷ ys) w fuel two o =
    let (ps', got, _, gone, _) =
      delete_from_list_dangling rounds zero zero e.sock zero tr.peers e d ys w refl in
    (record tr { ft = prune_ft e.ip tr.ft; peers = ps' }, rw got refl, gone)
delete_peer_frees (suc rounds) tr e (c ∷ xs) ys w fuel two o =
    let (ps', got, _, _, _, freed) =
      delete_from_list_lem (suc rounds) e.sock tr.peers c (xs ++ e ∷ ys) w (omega arith)
        (ground arith) in
    (
      record tr { ft = prune_ft e.ip tr.ft; peers = ps' },
      rw got refl,
      freed e.addr (listed_middle e (c ∷ xs) ys) (
          rw (without-middle e xs ys (ground arith))
            (away-middle tr.peers.heap e (c ∷ xs) ys w.chain)),
    )

heartbeat_pass_walk :
    (k rounds now : ℕ) (tr : Tracker) (e : Cell) (xs ys : List Cell)
    → length xs < k
    → Chain tr.peers.heap (xs ++ e ∷ ys)
    → AllHeard now xs
    → expired now e.last ≡ true
    → (tr' : Tracker) → delete_peer rounds tr e.sock e.ip ≡ ok tr'
    → tr'.peers.heap e.addr ≡ none
    → heartbeat_pass k rounds now tr (first (xs ++ e ∷ ys)) ≡ fault
unfolding heartbeat_pass
heartbeat_pass_walk zero rounds now tr e xs ys fuel ch live late tr' got gone = absurd (omega arith)
heartbeat_pass_walk (suc k) rounds now tr e [] ys fuel ch live late tr' got gone =
    let some_node : (e.addr == null) ≡ false = ground (arith, ch.0) in
    rw (some_node, load-ok tr.peers.heap e.addr _ (ch.0) (ch.2), late, got)
      (unfold load in rw (some_node, gone) refl)
heartbeat_pass_walk (suc k) rounds now tr e (c ∷ xs) ys fuel ch live late tr' got gone =
    let here = load-ok tr.peers.heap c.addr _ (ch.0) (ch.2) in
    let some_node : (c.addr == null) ≡ false = ground (arith, ch.0) in
    rw (some_node, here, live.0, here)
      (heartbeat_pass_walk k rounds now tr e xs ys (omega arith) (ch.3) (live.1) late tr' got gone)

-- With at least two peers and enough rounds a pass faults at the first peer not heard in time, if
-- no earlier one has its socket: it removes the peer and then reads the freed node.
pub heartbeat_pass-faults :
    (k rounds now : ℕ) (tr : Tracker) (e : Cell) (xs ys : List Cell)
    → IsPeers tr.peers (xs ++ e ∷ ys)
    → 1 < length (xs ++ e ∷ ys)
    → length (xs ++ e ∷ ys) < k
    → length (xs ++ e ∷ ys) < rounds
    → AllHeard now xs
    → expired now e.last ≡ true
    → has_sock e.sock xs ≡ false
    → heartbeat_pass k rounds now tr tr.peers.peer_head ≡ fault
heartbeat_pass-faults k rounds now tr e xs ys w two fuel fuel' live late o =
    let (tr', got, gone) = delete_peer_frees rounds tr e xs ys w fuel' two o in
    subst (λ p. heartbeat_pass k rounds now tr p ≡ fault) (sym w.head)
      (heartbeat_pass_walk k rounds now tr e xs ys (omega (arith, length-append xs (e ∷ ys)))
        w.chain live late tr' got gone)
