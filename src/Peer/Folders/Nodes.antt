-- ===== src/Peer/Folders/Nodes.antt =====
-- Nodes of `dir_tree` by their address, and the list without the first one that has a path in its own.
use dart_sync.Base.{
  ℕ, ◌≡◌, refl, arith, Bool, true, false, none, some, List, [], ◌∷◌, ◌++◌, CString, ◌==◌,
  if◌then◌else◌, ok, fault, Bool-cases, inl, inr, All,
}
use dart_sync.Peer.Folders.{DirNode, contains, unlink_dir, node_path}

-- No node of the list has the address.
abbrev pub absent : ℕ → List DirNode → Bool
absent a [] = true
absent a (node ∷ rest) = if a == node.addr then false else absent a rest

-- Every node has its own address.
abbrev pub Apart : List DirNode → Type 0
Apart [] = Unit
Apart (node ∷ rest) = (absent node.addr rest ≡ true) × Apart rest

-- Whether a node of the list has the path in its own.
abbrev pub any_contains : CString → List DirNode → Bool
any_contains path [] = false
any_contains path (node ∷ rest) =
    if contains node.dirpath path then true else any_contains path rest

-- The list without the first such node.
abbrev pub cut : CString → List DirNode → List DirNode
cut path [] = []
cut path (node ∷ rest) = if contains node.dirpath path then rest else node ∷ cut path rest

pub unlink_dir-cut :
    (path : CString) (nodes : List DirNode)
    → any_contains path nodes ≡ true
    → unlink_dir path nodes ≡ some (cut path nodes)
unfolding unlink_dir
unlink_dir-cut path [] h = cc h
unlink_dir-cut path (node ∷ rest) h = elim (Bool-cases (contains node.dirpath path)) [
  | inl hit ↦ rw hit refl
  | inr miss ↦ rw (miss, unlink_dir-cut path rest (rw miss at h), unlink_dir) refl
]

pub unlink_dir-none :
    (path : CString) (nodes : List DirNode)
    → any_contains path nodes ≡ false
    → unlink_dir path nodes ≡ none
unfolding unlink_dir
unlink_dir-none path [] h = refl
unlink_dir-none path (node ∷ rest) h = elim (Bool-cases (contains node.dirpath path)) [
  | inl hit ↦ cc (rw hit at h)
  | inr miss ↦ rw (miss, unlink_dir-none path rest (rw miss at h), unlink_dir) refl
]

pub node_path-absent :
    (a : ℕ) (nodes : List DirNode) → absent a nodes ≡ true → node_path a nodes ≡ fault
unfolding node_path
node_path-absent a [] h = refl
node_path-absent a (node ∷ rest) h = elim (Bool-cases (a == node.addr)) [
  | inl same ↦ cc (rw same at h)
  | inr other ↦ rw other (node_path-absent a rest (rw other at h))
]

pub node_path-here :
    (front rest : List DirNode) (node : DirNode)
    → absent node.addr front ≡ true
    → node_path node.addr (front ++ node ∷ rest) ≡ ok node.dirpath
unfolding node_path
node_path-here [] rest node h =
    let same : (node.addr == node.addr) ≡ true = ground arith in rw same refl
node_path-here (first ∷ front) rest node h = elim (Bool-cases (node.addr == first.addr)) [
  | inl same ↦ cc (rw same at h)
  | inr other ↦ rw other (node_path-here front rest node (rw other at h))
]

pub absent-append :
    (a : ℕ) (xs ys : List DirNode)
    → absent a xs ≡ true
    → absent a ys ≡ true
    → absent a (xs ++ ys) ≡ true
absent-append a [] ys h k = k
absent-append a (x ∷ xs) ys h k = ground (arith, absent-append a xs ys)

-- Every later node keeps away from the ones in front when the first of them joins these.
abbrev pub AwayFrom : List DirNode → List DirNode → Type 0
AwayFrom front = All (λ (n : DirNode). absent n.addr front ≡ true)

pub joins_front :
    (front rest : List DirNode) (node : DirNode)
    → absent node.addr rest ≡ true
    → AwayFrom front rest
    → AwayFrom (front ++ node ∷ []) rest
joins_front front [] node h k = tt
joins_front front (n ∷ rest) node h k =
    let other : absent n.addr (node ∷ []) ≡ true = ground (arith, h) in
    (
      absent-append n.addr front (node ∷ []) k.0 other,
      joins_front front rest node (ground (arith, h)) k.1,
    )
