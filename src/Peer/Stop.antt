-- ===== src/Peer/Stop.antt =====
-- peer/peer.c: `ft_destroy` and the signal handler `peer_stop`.
mod Tests
use dart_sync.Base.{
  ℕ, ◌≡◌, ◌≢◌, refl, ap, inl, inr, Bool-cases, true, false, none, some, List, [], ◌∷◌, ◌==◌, ◌||◌,
  if◌then◌else◌, arith, Outcome, ok, ◌>>=◌,
}
use dart_sync.Table.Memory.{
  Address, null, Blocks, Memory, follow, free_block, elem, Distinct, Chain, Stored, follow-some,
}

-- `if` where `free_ft` of the tracker has `while`.
pub free_first : Memory → Address → Outcome Memory
free_first m ptr = elim (ptr == null) [
  | true ↦ ok m
  | false ↦ do _ ← follow m.nodes ptr; ok (record m { nodes = free_block m.nodes ptr })
]

pub ft_destroy : Memory → Address → Outcome Memory
ft_destroy m file_table = do
  ptr ← follow m.tables file_table
  m' ← free_first m ptr
  ok (record m' { tables = free_block m'.tables file_table })

-- The memory and the sockets closed, the latest first, when the process ends.
pub peer_stop : Memory → Address → ℕ → ℕ → List ℕ → Outcome (Memory × List ℕ)
unfolding ft_destroy
peer_stop m file_table ptp_listen_fd tracker_conn closed = do
  m' ← ft_destroy m file_table
  ok (m', tracker_conn ∷ ptp_listen_fd ∷ closed)

free_first-some :
    (m : Memory) (a next : Address)
    → a ≢ null
    → m.nodes a ≡ some next
    → free_first m a ≡ ok (record m { nodes = free_block m.nodes a })
unfolding free_first
free_first-some m a next there e =
    let full : (a == null) ≡ false = ground (arith, there) in
    rw (full, free_first, follow-some m.nodes a next there e) refl

free_block-other :
    (blocks : Blocks) (a q : Address) (rest : List Address)
    → elem a rest ≡ false
    → elem q rest ≡ true
    → free_block blocks a q ≡ blocks q
free_block-other blocks a q rest apart later = elim (Bool-cases (a == q)) [
  | inr other ↦ rw other refl
  | inl hit ↦
      let same : a ≡ q = ground (arith, hit) in cc (apart, later, ap (λ p. elem p rest) same)
]

-- peer_stop gives back the first node of the table and the table itself; every further node stays in
-- memory, although nothing leads to it any more.
pub peer_stop-leaks :
    (m : Memory) (file_table a : Address) (rest : List Address) (ptp_listen_fd tracker_conn : ℕ)
    (closed : List ℕ)
    → Stored m file_table (a ∷ rest)
    → (m' : Memory) × (peer_stop m file_table ptp_listen_fd tracker_conn closed
        ≡ ok (m', tracker_conn ∷ ptp_listen_fd ∷ closed))
      × (m'.nodes a ≡ none)
      × (m'.tables file_table ≡ none)
      × ((q : Address) → elem q rest ≡ true → m'.nodes q ≡ m.nodes q)
unfolding peer_stop
peer_stop-leaks m file_table a rest ptp_listen_fd tracker_conn closed w =
    let (next, same, there, e, more) = w.chain in
    (
      record { nodes = free_block m.nodes a; tables = free_block m.tables file_table },
      rw
          (
            follow-some m.tables file_table w.head w.there w.leads,
            same,
            free_first-some m a next there e,
          )
          refl,
      ground arith,
      ground arith,
      λ q later. free_block-other m.nodes a q rest (w.distinct.0) later,
    )
