-- ===== src/Table/Memory.antt =====
-- common/constant.h: file tables in memory. `file_t` and `Node` are blocks of their own, each with one
-- pointer; a block is there from its `calloc` to its `free`.
use dart_sync.Base.{
  ℕ, ◌≡◌, ◌≢◌, refl, inl, inr, false, ◌||◌, Bool, Option, none, some, List, [], ◌∷◌, ◌==◌,
  if◌then◌else◌, arith, Outcome, ok, fault, Bool-cases,
}

abbrev pub Address : Type 0
Address = ℕ

abbrev pub null : Address
null = 0

-- What the pointer in each block holds; `none` where no block is.
abbrev pub Blocks : Type 0
Blocks = Address → Option Address

-- `pNext` of the nodes, and `head` of the tables.
pub record Memory : Type 0 where
  pub nodes : Blocks
  pub tables : Blocks

unfoldable pub follow : Blocks → Address → Outcome Address
follow blocks p = if p == null then fault else elim (blocks p) [ none ↦ fault | some q ↦ ok q ]

-- `free`
abbrev pub free_block : Blocks → Address → Blocks
free_block blocks p q = if p == q then none else blocks q

abbrev pub elem : Address → List Address → Bool
elem q [] = false
elem q (p ∷ ps) = p == q || elem q ps

abbrev pub Distinct : List Address → Type 0
Distinct [] = Unit
Distinct (p ∷ ps) = (elem p ps ≡ false) × Distinct ps

-- The nodes from an address on, in order.
abbrev pub Chain : Blocks → Address → List Address → Type 0
Chain blocks p [] = p ≡ null
Chain blocks p (q ∷ qs) =
    (next : Address) × (p ≡ q) × (q ≢ null) × (blocks q ≡ some next) × Chain blocks next qs

-- A table at an address, with the addresses of its nodes.
pub record Stored (m : Memory) (ft : Address) (nodes : List Address) : Type 0 where
  pub there : ft ≢ null
  pub head : Address
  pub leads : m.tables ft ≡ some head
  pub chain : Chain m.nodes head nodes
  pub distinct : Distinct nodes

pub follow-some :
    (blocks : Blocks) (p q : Address) → p ≢ null → blocks p ≡ some q → follow blocks p ≡ ok q
unfolding follow
follow-some blocks p q there e = elim (Bool-cases (p == null)) [
  | inl void ↦ absurd (ground (arith, void, there))
  | inr full ↦ rw (full, e) refl
]

pub Chain-free_block :
    (blocks : Blocks) (p q : Address) (qs : List Address)
    → elem p qs ≡ false
    → Chain blocks q qs
    → Chain (free_block blocks p) q qs
Chain-free_block blocks p q [] other c = c
Chain-free_block blocks p q (r ∷ rs) other (next, same, there, e, more) = (
  next,
  same,
  there,
  ground (arith, other, e),
  Chain-free_block blocks p next rs (ground (arith, other)) more,
)
