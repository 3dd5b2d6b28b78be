-- ===== src/Tracker/Peers/Dangling.antt =====
-- `delete_peer` on the list of peers, where it does not work: no peer, one peer, the first peer.
use dart_sync.Base.{ℕ, suc, ◌≡◌, refl, sym, subst, none, List, [], ◌∷◌, arith, ok, fault}
use dart_sync.Tracker.Peers.{
  null, Peers, write, load, unlink, delete_from_list, find_heard, heard_peer,
}
use dart_sync.Tracker.Peers.Chain.{Cell, stored, IsPeers, load-ok}

-- With an empty list delete_peer's list loop faults, in a loop of at least one round.
pub delete_from_list-nil :
    (rounds sock : ℕ) (ps : Peers) → IsPeers ps [] → delete_from_list (suc rounds) ps sock ≡ fault
unfolding delete_from_list unlink load
delete_from_list-nil rounds sock ps w = ground (arith, w.head)

-- A peer that is alone in the list stays in it, whatever socket is deleted, in a loop of at least
-- one round.
pub delete_from_list_single :
    (rounds sock : ℕ) (ps : Peers) (c : Cell)
    → IsPeers ps (c ∷ [])
    → delete_from_list (suc rounds) ps sock ≡ ok ps
unfolding delete_from_list unlink
delete_from_list_single rounds sock ps c w =
    rw
      (subst (λ p. load ps.heap p ≡ ok (stored c null)) (sym w.head)
        (load-ok ps.heap c.addr _ (w.chain.0) (w.chain.2)))
      refl

-- If the first of at least two peers leaves, in a loop of at least one round, its node is freed
-- while peer_head still leads to it, and heard_peer then faults.
pub delete_from_list_dangling :
    (rounds again now sock other : ℕ) (ps : Peers) (c d : Cell) (xs : List Cell)
    → IsPeers ps (c ∷ d ∷ xs)
    → c.sock ≡ sock
    → (ps' : Peers) × (delete_from_list (suc rounds) ps sock ≡ ok ps')
      × (ps'.peer_head ≡ c.addr)
      × (ps'.heap c.addr ≡ none)
      × (heard_peer (suc again) now ps' other ≡ fault)
unfolding delete_from_list unlink heard_peer find_heard write load
delete_from_list_dangling rounds again now sock other ps c d xs w e = (
  record ps { heap = write ps.heap c.addr none; closed = c.sock ∷ ps.closed },
  ground (arith, w.head, w.chain.0, w.chain.2, w.chain.3.0),
  w.head,
  ground arith,
  ground (arith, w.head, w.chain.0),
)
