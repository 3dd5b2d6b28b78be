-- ===== src/Tracker/Peers/Heard.antt =====
-- `heard_peer`
use dart_sync.Base.{
  ℕ, suc, zero, ◌<◌, ◌≡◌, refl, sym, subst, inl, inr, Bool, true, false, some, List, [], ◌∷◌, ◌==◌,
  if◌then◌else◌, arith, Outcome, ok, length, Bool-cases,
}
use dart_sync.Tracker.Peers.{Ptr, null, Heap, Peers, write, find_heard, heard_peer}
use dart_sync.Tracker.Peers.Chain.{
  Cell, first, away, stored, Chain, IsPeers, load-ok, write_self, write-ne, Chain-write, has_sock,
}

-- The first peer with the socket has been heard at the time `now`.
abbrev pub touch : ℕ → ℕ → List Cell → List Cell
touch sock now [] = []
touch sock now (c ∷ xs) =
    if c.sock == sock then record c { last = now } ∷ xs else c ∷ touch sock now xs

first-touch : (sock now : ℕ) (xs : List Cell) → first (touch sock now xs) ≡ first xs
first-touch sock now [] = refl
first-touch sock now (c ∷ xs) = ground arith

away-touch : (a : Ptr) (sock now : ℕ) (xs : List Cell) → away a (touch sock now xs) ≡ away a xs
away-touch a sock now [] = refl
away-touch a sock now (c ∷ xs) = ground (arith, away-touch a sock now xs)

-- What the loop does from a node of the list on: the heap that it leaves, and where that differs.
abbrev Heard : ℕ → ℕ → Peers → List Cell → Outcome (Bool × Peers) → Type 0
Heard sock now ps xs r =
    (g : Heap) × (r ≡ ok (has_sock sock xs, record ps { heap = g }))
    × Chain g (touch sock now xs)
    × ((a : Ptr) → away a xs ≡ true → g a ≡ ps.heap a)

find_heard_lem :
    (k now sock : ℕ) (ps : Peers) (xs : List Cell)
    → length xs < k
    → Chain ps.heap xs
    → Heard sock now ps xs (find_heard k now ps sock (first xs))
unfolding find_heard
find_heard_lem zero now sock ps xs fuel ch = absurd (omega arith)
find_heard_lem (suc k) now sock ps [] fuel ch = (ps.heap, refl, tt, λ a o. refl)
find_heard_lem (suc k) now sock ps (c ∷ xs) fuel ch = elim (Bool-cases (c.sock == sock)) [
  | inl hit ↦ (
    write ps.heap c.addr (some (stored (record c { last = now }) (first xs))),
    rw (some_node, load-ok ps.heap c.addr _ (ch.0) (ch.2), hit),
    rw hit (ch.0, ch.1, write_self ps.heap c.addr _, Chain-write ps.heap c.addr _ xs (ch.1) (ch.3)),
    λ a o. write-ne ps.heap c.addr a _ (ground arith),
  )
  | inr miss ↦
      let (g, e, chain, same) = find_heard_lem k now sock ps xs (omega arith) (ch.3) in
      (
        g,
        rw (some_node, load-ok ps.heap c.addr _ (ch.0) (ch.2), miss) e,
        rw miss (
          ch.0,
          rw (away-touch c.addr sock now xs) (ch.1),
          rw (same c.addr (ch.1), first-touch sock now xs) (ch.2),
          chain,
        ),
        λ a o. same a (ground arith),
      )
]
  where
    some_node : (c.addr == null) ≡ false
    some_node = ground (arith, ch.0)

-- With enough rounds heard_peer sets the time of the first peer with the socket and of no other,
-- and returns 1 exactly when there is one.
pub heard_peer_lem :
    (rounds now sock : ℕ) (ps : Peers) (xs : List Cell)
    → IsPeers ps xs
    → length xs < rounds
    → (ps' : Peers) × (heard_peer rounds now ps sock ≡ ok (has_sock sock xs, ps'))
      × IsPeers ps' (touch sock now xs)
      × (ps'.closed ≡ ps.closed)
unfolding heard_peer
heard_peer_lem rounds now sock ps xs w fuel =
    let (g, e, chain, _) = find_heard_lem rounds now sock ps xs fuel w.chain in
    (
      record ps { heap = g },
      subst (λ p. find_heard rounds now ps sock p ≡ ok (has_sock sock xs, record ps { heap = g }))
          (sym w.head) e,
      record { head = rw (first-touch sock now xs) w.head; chain = chain },
      refl,
    )
