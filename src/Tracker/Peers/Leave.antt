-- ===== src/Tracker/Peers/Leave.antt =====
-- `delete_peer` on the list of peers, where it works: the peer that leaves is not the first one.
use dart_sync.Base.{
  ℕ, suc, zero, ◌<◌, ◌≡◌, refl, sym, subst, inl, inr, true, false, ◌&&◌, none, List, [], ◌∷◌, ◌==◌,
  if◌then◌else◌, arith, Outcome, ok, length, Bool-cases,
}
use dart_sync.Tracker.Peers.{Ptr, null, Heap, Peers, write, unlink, unlinked, delete_from_list}
use dart_sync.Tracker.Peers.Chain.{
  Cell, first, away, stored, Chain, IsPeers, load-ok, Chain-write, has_sock,
}

-- The list without its first peer with the socket.
abbrev pub without : ℕ → List Cell → List Cell
without sock [] = []
without sock (c ∷ xs) = if c.sock == sock then xs else c ∷ without sock xs

away-without :
    (a : Ptr) (sock : ℕ) (xs : List Cell) → away a xs ≡ true → away a (without sock xs) ≡ true
away-without a sock [] o = refl
away-without a sock (c ∷ xs) o = ground (arith, away-without a sock xs)

-- The sockets closed so far.
abbrev pub closing : ℕ → List Cell → List ℕ → List ℕ
closing sock xs closed = if has_sock sock xs then sock ∷ closed else closed

-- What the loop leaves when it starts at `c` with `xs` behind it.
abbrev Left : ℕ → Peers → Cell → List Cell → Outcome Peers → Type 0
Left sock ps c xs r =
    (g : Heap) × (r ≡ ok (record ps { heap = g; closed = closing sock xs ps.closed }))
    × Chain g (c ∷ without sock xs)
    × ((a : Ptr) → away a (c ∷ xs) ≡ true → g a ≡ ps.heap a)
    × ((a : Ptr) → away a (c ∷ xs) ≡ false → away a (c ∷ without sock xs) ≡ true → g a ≡ none)

unlink_lem :
    (k sock : ℕ) (ps : Peers) (c : Cell) (xs : List Cell)
    → length xs < k
    → Chain ps.heap (c ∷ xs)
    → (c.addr == ps.peer_head && c.sock == sock) ≡ false
    → away ps.peer_head xs ≡ true
    → Left sock ps c xs (unlink k ps sock c.addr)
unfolding unlink write
unlink_lem zero sock ps c xs fuel ch keep out = absurd (omega arith)
unlink_lem (suc k) sock ps c [] fuel ch keep out =
    (ps.heap, rw (load-ok ps.heap c.addr _ (ch.0) (ch.2)), ch, λ a o. refl, λ a i o. cc (i, o))
unlink_lem (suc k) sock ps c (d ∷ xs) fuel ch keep out = elim (Bool-cases (d.sock == sock)) [
  | inl hit ↦ (
    (unlinked ps c.addr (stored c d.addr) (stored d (first xs))).heap,
    rw
        (
          load-ok ps.heap c.addr _ (ch.0) (ch.2),
          some_node,
          keep,
          load-ok ps.heap d.addr _ (ch.3.0) (ch.3.2),
          hit,
        )
        (ground arith),
    rw hit (
      ch.0,
      ground (arith, ch.1),
      ground (arith, ch.1),
      Chain-write _ d.addr none xs (ch.3.1)
          (Chain-write ps.heap c.addr _ xs (ground (arith, ch.1)) (ch.3.3)),
    ),
    λ a o. ground arith,
    λ a i o. ground arith,
  )
  | inr miss ↦
      let (g, e, chain, same, freed) =
        unlink_lem k sock ps d xs (omega arith) (ch.3) (ground arith) (ground arith) in
      (
        g,
        rw
            (
              load-ok ps.heap c.addr _ (ch.0) (ch.2),
              some_node,
              keep,
              load-ok ps.heap d.addr _ (ch.3.0) (ch.3.2),
              miss,
            )
            e,
        rw miss (
          ch.0,
          ground (arith, away-without c.addr sock xs, ch.1),
          rw (same c.addr (ch.1)) (ch.2),
          chain,
        ),
        λ a o. same a (ground arith),
        λ a i o. freed a (ground arith) (ground arith),
      )
]
  where
    some_node : (d.addr == null) ≡ false
    some_node = ground (arith, ch.3.0)

-- When the first peer of the list has another socket and the loop may run often enough, the list
-- loop of delete_peer removes the first other peer with the socket, frees exactly the nodes no
-- longer listed, closes the socket exactly if it was there and changes no node outside the list.
pub delete_from_list_lem :
    (rounds sock : ℕ) (ps : Peers) (c : Cell) (xs : List Cell)
    → IsPeers ps (c ∷ xs)
    → length xs < rounds
    → (c.sock == sock) ≡ false
    → (ps' : Peers) × (delete_from_list rounds ps sock ≡ ok ps')
      × IsPeers ps' (c ∷ without sock xs)
      × (ps'.closed ≡ closing sock xs ps.closed)
      × ((a : Ptr) → away a (c ∷ xs) ≡ true → ps'.heap a ≡ ps.heap a)
      × ((a : Ptr)
          → away a (c ∷ xs) ≡ false
          → away a (c ∷ without sock xs) ≡ true
          → ps'.heap a ≡ none)
unfolding delete_from_list
delete_from_list_lem rounds sock ps c xs w fuel other =
    let (g, e, chain, same, freed) =
      unlink_lem rounds sock ps c xs fuel w.chain (ground arith)
        (subst (λ p. away p xs ≡ true) (sym w.head) (w.chain.1)) in
    (
      record ps { heap = g; closed = closing sock xs ps.closed },
      subst
          (λ p.
            unlink rounds ps sock p
            ≡ ok (record ps { heap = g; closed = closing sock xs ps.closed }))
          (sym w.head) e,
      record { head = w.head; chain = chain },
      refl,
      same,
      freed,
    )
