-- ===== src/Peer/Sync/Find.antt =====
-- The search by name and the change of an entry, as `compareNode` and the monitor use them.
use dart_sync.Base.{
  ◌≡◌, refl, true, false, none, some, List, [], ◌∷◌, ◌++◌, CString, str_eq, str_eq_iff,
  if◌then◌else◌, arith, Bool-cases, inl, inr,
}
use dart_sync.Table.{Node}
use dart_sync.Peer.Sync.{find_node, change}

pub find_node-name :
    (n : CString) (table : List Node) (t : Node)
    → find_node n table ≡ some t
    → str_eq t.name n ≡ true
unfolding find_node
find_node-name n [] t e = cc
find_node-name n (u ∷ rest) t e = elim (Bool-cases (str_eq u.name n)) [
  | inl hit ↦ let same : u ≡ t = cc (rw hit at e) in rw (← same) hit
  | inr miss ↦ find_node-name n rest t (rw miss at e)
]

-- A change that keeps the name.
pub find_node-change :
    (n m : CString) (f : Node → Node) (table : List Node)
    → ((t : Node) → (f t).name ≡ t.name)
    → find_node n (change m f table) ≡ (
        if str_eq m n
        then elim (find_node n table) [ none ↦ none | some t ↦ some (f t) ]
        else find_node n table)
unfolding find_node change
find_node-change n m f [] keep = ground arith
find_node-change n m f (t ∷ rest) keep = ground (
  arith,
  keep t,
  find_node-change n m f rest keep,
  str_eq_iff t.name n,
  str_eq_iff t.name m,
  str_eq_iff m n,
)

pub find_node-append :
    (n : CString) (table : List Node) (t : Node)
    → find_node n table ≡ none
    → find_node n (table ++ t ∷ []) ≡ (if str_eq t.name n then some t else none)
unfolding find_node
find_node-append n [] t e = refl
find_node-append n (u ∷ rest) t e = ground (arith, find_node-append n rest t)

pub find_node-append_other :
    (n : CString) (table : List Node) (t : Node)
    → str_eq t.name n ≡ false
    → find_node n (table ++ t ∷ []) ≡ find_node n table
unfolding find_node
find_node-append_other n [] t o = rw o refl
find_node-append_other n (u ∷ rest) t o = ground (arith, find_node-append_other n rest t)
