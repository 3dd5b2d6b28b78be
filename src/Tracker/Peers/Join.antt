-- ===== src/Tracker/Peers/Join.antt =====
-- `add_peer`
use dart_sync.Base.{
  ℕ, suc, zero, ◌<◌, ◌≡◌, refl, ◌≢◌, ◌⊎◌, inl, inr, Bool, true, false, ◌&&◌, none, some, List, [],
  ◌∷◌, ◌++◌, CString, ◌==◌, if◌then◌else◌, arith, ok, length, Bool-cases,
}
use dart_sync.Tracker.Peers.{Ptr, null, Heap, Peers, write, find_last, new_peer, add_peer}
use dart_sync.Tracker.Peers.Chain.{
  Cell, away, stored, Chain, IsPeers, load-ok, write_self, away_of_unused,
}

-- Some node but the last one has the socket.
abbrev pub in_front : ℕ → List Cell → Bool
in_front sock [] = false
in_front sock (c ∷ []) = false
in_front sock (c ∷ d ∷ xs) = if c.sock == sock then true else in_front sock (d ∷ xs)

last_of : Cell → List Cell → Cell
last_of c [] = c
last_of c (d ∷ xs) = last_of d xs

find_last_lem :
    (k : ℕ) (h : Heap) (sock : ℕ) (c : Cell) (xs : List Cell)
    → length xs < k
    → Chain h (c ∷ xs)
    → find_last k h sock c.addr
      ≡ ok (if in_front sock (c ∷ xs) then none else some (last_of c xs).addr)
unfolding find_last last_of
find_last_lem zero h sock c xs fuel ch = absurd (omega arith)
find_last_lem (suc k) h sock c [] fuel ch = rw (load-ok h c.addr _ (ch.0) (ch.2))
find_last_lem (suc k) h sock c (d ∷ xs) fuel ch =
    rw (load-ok h c.addr _ (ch.0) (ch.2))
      (ground (arith, ch.3.0, find_last_lem k h sock d xs (omega arith) (ch.3)))

last_of-stored :
    (h : Heap) (c : Cell) (xs : List Cell)
    → Chain h (c ∷ xs)
    → ((last_of c xs).addr ≢ null) × (h (last_of c xs).addr ≡ some (stored (last_of c xs) null))
unfolding last_of
last_of-stored h c [] ch = (ch.0, ch.2)
last_of-stored h c (d ∷ xs) ch = last_of-stored h d xs (ch.3)

away-last_of :
    (a : Ptr) (c : Cell) (xs : List Cell)
    → away a (c ∷ xs) ≡ true
    → (a == (last_of c xs).addr) ≡ false
unfolding last_of
away-last_of a c [] o = ground arith
away-last_of a c (d ∷ xs) o = away-last_of a d xs (ground arith)

away-append : (a : Ptr) (xs ys : List Cell) → away a (xs ++ ys) ≡ (away a xs && away a ys)
away-append a [] ys = refl
away-append a (x ∷ xs) ys = ground (arith, away-append a xs ys)

abbrev pub joined : Ptr → CString → ℕ → ℕ → Cell
joined fresh ip now sock = record { addr = fresh; ip = ip; last = now; sock = sock }

-- The heap after the last node of the list has been linked to the new one.
linked : Heap → Cell → Cell → Heap
linked h l new = write (write h l.addr (some (stored l new.addr))) new.addr (some (stored new null))

linked-Chain :
    (h : Heap) (new c : Cell) (xs : List Cell)
    → Chain h (c ∷ xs)
    → new.addr ≢ null
    → away new.addr (c ∷ xs) ≡ true
    → Chain (linked h (last_of c xs) new) ((c ∷ xs) ++ new ∷ [])
unfolding last_of linked write
linked-Chain h new c [] ch ne o = (ch.0, ground arith, ground arith, (ne, refl, ground arith, tt))
linked-Chain h new c (d ∷ xs) ch ne o = (
  ch.0,
  rw (away-append c.addr (d ∷ xs) (new ∷ [])) (ground (arith, ch.1)),
  ground (arith, ch.2, away-last_of c.addr d xs (ch.1)),
  linked-Chain h new d xs (ch.3) ne (ground arith),
)

-- With an unused fresh address and enough rounds add_peer appends the peer to the list and returns
-- 1, or returns -1 and changes nothing if a peer before the last has the socket.
pub add_peer_lem :
    (rounds fresh now sock : ℕ) (ip : CString) (ps : Peers) (xs : List Cell)
    → IsPeers ps xs
    → fresh ≢ null
    → ps.heap fresh ≡ none
    → length xs < rounds
    → (in_front sock xs ≡ true) × (add_peer rounds fresh now ps sock ip ≡ ok (false, ps))
      ⊎ (in_front sock xs ≡ false)
        × ((ps' : Peers) × (add_peer rounds fresh now ps sock ip ≡ ok (true, ps'))
            × IsPeers ps' (xs ++ joined fresh ip now sock ∷ [])
            × (ps'.closed ≡ ps.closed))
unfolding add_peer
add_peer_lem rounds fresh now sock ip ps [] w ne unused fuel = inr (
  refl,
  (
    record ps { heap = write ps.heap fresh (some (new_peer ip now sock)); peer_head = fresh },
    rw w.head,
    record { head = refl; chain = (ne, refl, write_self ps.heap fresh _, tt) },
    refl,
  ),
)
add_peer_lem rounds fresh now sock ip ps (c ∷ xs) w ne unused fuel =
    elim (Bool-cases (in_front sock (c ∷ xs))) [
      | inl e ↦ inl (e, rw (some_head, found) (rw e))
      | inr e ↦ inr (
        e,
        (
          record ps { heap = linked ps.heap (last_of c xs) (joined fresh ip now sock) },
          rw (some_head, found)
              (rw (e, load-ok ps.heap (last_of c xs).addr _ at_last.0 at_last.1)
                (unfold linked in refl)),
          record {
            head = w.head;
            chain =
                linked-Chain ps.heap (joined fresh ip now sock) c xs w.chain ne
                  (away_of_unused ps.heap fresh (c ∷ xs) unused w.chain);
          },
          refl,
        ),
      )
    ]
  where
    some_head : (ps.peer_head == null) ≡ false
    some_head = ground (arith, w.head, w.chain.0)

    found :
        find_last rounds ps.heap sock ps.peer_head
        ≡ ok (if in_front sock (c ∷ xs) then none else some (last_of c xs).addr)
    found = rw w.head (find_last_lem rounds ps.heap sock c xs (omega arith) w.chain)

    at_last :
        ((last_of c xs).addr ≢ null)
        × (ps.heap (last_of c xs).addr ≡ some (stored (last_of c xs) null))
    at_last = last_of-stored ps.heap c xs w.chain
