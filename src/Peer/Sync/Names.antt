-- ===== src/Peer/Sync/Names.antt =====
-- Names of the peer's table: a change of an entry and a new entry under a name that is not in the table
-- keep them unique.
use dart_sync.Base.{
  ◌≡◌, refl, inl, inr, ◌||◌, none, List, [], ◌∷◌, ◌++◌, CString, str_eq, str_eq_iff, arith,
  Bool-cases,
}
use dart_sync.Table.{Node}
use dart_sync.Peer.Sync.{find_node, change}
use dart_sync.Tracker.Merge.Invariant.{Unique, has_name}

has_name-change :
    (m n : CString) (f : Node → Node) (table : List Node)
    → ((t : Node) → (f t).name ≡ t.name)
    → has_name m (change n f table) ≡ has_name m table
unfolding change
has_name-change m n f [] keep = refl
has_name-change m n f (t ∷ rest) keep = elim (Bool-cases (str_eq t.name n)) [
  | inl hit ↦ rw (hit, keep t) refl
  | inr miss ↦ rw (miss, has_name-change m n f rest keep) refl
]

pub change-Unique :
    (n : CString) (f : Node → Node) (table : List Node)
    → ((t : Node) → (f t).name ≡ t.name)
    → Unique table
    → Unique (change n f table)
unfolding change
change-Unique n f [] keep u = tt
change-Unique n f (t ∷ rest) keep u = elim (Bool-cases (str_eq t.name n)) [
  | inl hit ↦ rw hit (rw (keep t) (u.0), u.1)
  | inr miss ↦
      rw miss (rw (has_name-change t.name n f rest keep) (u.0), change-Unique n f rest keep (u.1))
]

has_name-append :
    (m : CString) (table : List Node) (t : Node)
    → has_name m (table ++ t ∷ []) ≡ (has_name m table || str_eq t.name m)
has_name-append m [] t = ground arith
has_name-append m (u ∷ rest) t = ground (arith, has_name-append m rest t)

pub append-Unique :
    (table : List Node) (t : Node)
    → find_node t.name table ≡ none
    → Unique table
    → Unique (table ++ t ∷ [])
unfolding find_node
append-Unique [] t absent u = (refl, tt)
append-Unique (v ∷ rest) t absent u = elim (Bool-cases (str_eq v.name t.name)) [
  | inl hit ↦ absurd (ground (arith, absent, hit))
  | inr miss ↦ (
    rw (has_name-append v.name rest t)
        (ground (arith, u.0, miss, str_eq_iff t.name v.name, str_eq_iff v.name t.name)),
    append-Unique rest t (ground (arith, absent, miss)) (u.1),
  )
]
