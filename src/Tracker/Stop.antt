-- ===== src/Tracker/Stop.antt =====
-- tracker/tracker.c: `free_ft`, with which `handshake` gives an announced table back, and the signal
-- handler `tracker_stop`.
mod Tests
use dart_sync.Base.{
  ℕ, zero, suc, ◌≡◌, ◌<◌, refl, ◌∙◌, ap, true, false, none, some, List, [], ◌∷◌, ◌==◌, ◌||◌,
  if◌then◌else◌, length, arith, Outcome, ok, fault, out_of_fuel, ◌>>=◌, Bool-cases, inl, inr,
}
use dart_sync.Table.Memory.{
  Address, null, Blocks, Memory, follow, free_block, elem, Distinct, Chain, Stored, follow-some,
  Chain-free_block,
}

-- The loop of `free_ft`, in at most so many rounds.
pub free_nodes : ℕ → Memory → Address → Outcome Memory
free_nodes zero m temp = out_of_fuel
free_nodes (suc k) m temp = elim (temp == null) [
  | true ↦ ok m
  | false ↦ do
    next ← follow m.nodes temp
    free_nodes k (record m { nodes = free_block m.nodes temp }) next
]

pub free_ft : ℕ → Memory → Address → Outcome Memory
unfolding free_nodes
free_ft rounds m ft = do
  head ← follow m.tables ft
  m' ← free_nodes rounds m head
  ok (record m' { tables = free_block m'.tables ft })

-- The memory and the sockets closed, when the process ends.
pub tracker_stop : ℕ → Memory → Address → ℕ → List ℕ → Outcome (Memory × List ℕ)
unfolding free_ft
tracker_stop rounds m ft peer_sockfd closed = do
  m' ← free_ft rounds m ft
  ok (m', peer_sockfd ∷ closed)

-- The nodes alone are gone.
abbrev Freed : Memory → List Address → Memory → Type 0
Freed m nodes m' =
    (m'.tables ≡ m.tables)
    × ((q : Address) → m'.nodes q ≡ (if elem q nodes then none else m.nodes q))

free_nodes-Chain :
    (k : ℕ) (m : Memory) (temp : Address) (nodes : List Address)
    → length nodes < k
    → Distinct nodes
    → Chain m.nodes temp nodes
    → (m' : Memory) × (free_nodes k m temp ≡ ok m') × Freed m nodes m'
unfolding free_nodes
free_nodes-Chain zero m temp nodes h d c = absurd (omega arith)
free_nodes-Chain (suc k) m temp [] h d c =
    let void : (temp == null) ≡ true = ground (arith, c) in
    (m, rw (void, free_nodes) refl, (refl, λ q. refl))
free_nodes-Chain (suc k) m temp (a ∷ rest) h d (next, same, there, e, more) =
    let m1 = record m { nodes = free_block m.nodes temp } in
    let full : (temp == null) ≡ false = ground (arith, same, there) in
    let (m', done, (tables, gone)) =
      free_nodes-Chain k m1 next rest (omega (arith, h)) (d.1)
        (Chain-free_block m.nodes temp next rest (rw same (d.0)) more) in
    (
      m',
      rw (full, free_nodes, follow-some m.nodes temp next (rw same there) (rw same e)) done,
      (tables, λ q. gone q ∙ ground (arith, same)),
    )

-- With more rounds than nodes free_ft gives back exactly the nodes of a table and the table
-- itself, if the table's nodes are distinct; all other blocks stay.
pub free_ft_lem :
    (k : ℕ) (m : Memory) (ft : Address) (nodes : List Address)
    → length nodes < k
    → Stored m ft nodes
    → (m' : Memory) × (free_ft k m ft ≡ ok m')
      × ((q : Address) → m'.tables q ≡ (if ft == q then none else m.tables q))
      × ((q : Address) → m'.nodes q ≡ (if elem q nodes then none else m.nodes q))
unfolding free_ft
free_ft_lem k m ft nodes h w =
    let (m', done, (tables, gone)) = free_nodes-Chain k m w.head nodes h w.distinct w.chain in
    (
      record m' { tables = free_block m'.tables ft },
      rw (follow-some m.tables ft w.head w.there w.leads, done) refl,
      λ q. ap (λ t. if ft == q then none else t q) tables,
      gone,
    )

-- A signal before the first announcement makes tracker_stop read the table through NULL.
pub tracker_stop-null :
    (k : ℕ) (m : Memory) (peer_sockfd : ℕ) (closed : List ℕ)
    → tracker_stop k m null peer_sockfd closed ≡ fault
unfolding tracker_stop follow
tracker_stop-null k m peer_sockfd closed = refl
