-- ===== src/Tracker/Peers/Chain.antt =====
-- The list of peers that a heap holds.
use dart_sync.Base.{
  ℕ, ◌≡◌, refl, ◌≢◌, Bool, true, false, ◌&&◌, not, none, some, Option, List, [], ◌∷◌, CString, ◌==◌,
  if◌then◌else◌, arith, ok,
}
use dart_sync.Tracker.Peers.{Ptr, null, Peer, Heap, Peers, write, load}

-- A node of the list: its address and its data.
pub record Cell : Type 0 where
  pub addr : Ptr
  pub ip : CString
  pub last : ℕ
  pub sock : ℕ

abbrev pub first : List Cell → Ptr
first [] = null
first (c ∷ xs) = c.addr

abbrev pub away : Ptr → List Cell → Bool
away a [] = true
away a (c ∷ xs) = not (a == c.addr) && away a xs

-- What the heap holds at a cell that is followed by `next`.
abbrev pub stored : Cell → Ptr → Peer
stored c next = record { ip = c.ip; last_time_stamp = c.last; sockfd = c.sock; next = next }

-- The cells stand in the heap at distinct addresses, linked in this order, the last one to NULL.
abbrev pub Chain : Heap → List Cell → Type 0
Chain h [] = Unit
Chain h (c ∷ xs) =
    (c.addr ≢ null) × (away c.addr xs ≡ true) × (h c.addr ≡ some (stored c (first xs))) × Chain h xs

pub record IsPeers (ps : Peers) (xs : List Cell) : Type 0 where
  pub head : ps.peer_head ≡ first xs
  pub chain : Chain ps.heap xs

pub load-ok : (h : Heap) (a : Ptr) (n : Peer) → a ≢ null → h a ≡ some n → load h a ≡ ok n
unfolding load
load-ok h a n ne e = ground arith

pub write_self : (h : Heap) (a : Ptr) (c : Option Peer) → write h a c a ≡ c
unfolding write
write_self h a c = ground arith

pub write-ne : (h : Heap) (a b : Ptr) (c : Option Peer) → (b == a) ≡ false → write h a c b ≡ h b
unfolding write
write-ne h a b c ne = rw ne

-- A chain survives a change of the heap that spares its cells.
pub Chain-frame :
    (h g : Heap) (xs : List Cell)
    → ((a : Ptr) → away a xs ≡ false → g a ≡ h a)
    → Chain h xs
    → Chain g xs
Chain-frame h g [] same c = tt
Chain-frame h g (x ∷ xs) same c = (
  c.0,
  c.1,
  rw (same x.addr (ground arith)) (c.2),
  Chain-frame h g xs (λ a e. same a (ground arith)) (c.3),
)

pub Chain-write :
    (h : Heap) (b : Ptr) (n : Option Peer) (xs : List Cell)
    → away b xs ≡ true
    → Chain h xs
    → Chain (write h b n) xs
unfolding write
Chain-write h b n [] out c = tt
Chain-write h b n (x ∷ xs) out c =
    (c.0, c.1, ground (arith, c.2), Chain-write h b n xs (ground arith) (c.3))

abbrev pub has_sock : ℕ → List Cell → Bool
has_sock sock [] = false
has_sock sock (c ∷ xs) = if c.sock == sock then true else has_sock sock xs

pub away_of_unused :
    (h : Heap) (a : Ptr) (xs : List Cell) → h a ≡ none → Chain h xs → away a xs ≡ true
away_of_unused h a [] unused c = refl
away_of_unused h a (x ∷ xs) unused c = ground (arith, away_of_unused h a xs unused (c.3), c.2)
