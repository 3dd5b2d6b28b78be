-- ===== src/System/Newest.antt =====
-- The newest version of a name and the entry that `compareNode` or the monitor finds under it.
use dart_sync.Base.{
  ◌≡◌, refl, sym, subst, false, none, some, List, [], ◌∷◌, CString, str_eq, str_eq_refl, arith, inl,
  inr, Bool-cases,
}
use dart_sync.Table.{Node}
use dart_sync.Tracker.Merge.Versions.{version, join, newest}
use dart_sync.Tracker.Merge.Invariant.{Unique, has_name}
use dart_sync.Tracker.History.{AtMost, AtMost-join}
use dart_sync.Peer.Sync.{find_node}
use dart_sync.Peer.Sync.Whole.{Elem, Elem-other}

-- The first entry of a name is at most the newest one.
pub AtMost-find_node :
    (n : CString) (table : List Node) (t : Node)
    → find_node n table ≡ some t
    → AtMost (some (version t)) (newest n table)
unfolding find_node
AtMost-find_node n [] t e = cc e
AtMost-find_node n (u ∷ rest) t e = elim (Bool-cases (str_eq u.name n)) [
  | inl hit ↦
      let same : u ≡ t = cc (rw hit at e) in
      rw hit (
        subst (λ (x : Node). AtMost (some (version x)) (join (some (version u)) (newest n rest)))
          same (AtMost-join (some (version u)) (newest n rest)))
  | inr miss ↦ rw miss (AtMost-find_node n rest t (rw miss at e))
]

newest-absent : (n : CString) (table : List Node) → has_name n table ≡ false → newest n table ≡ none
newest-absent n [] h = refl
newest-absent n (t ∷ rest) h = ground (arith, newest-absent n rest)

-- With one entry to a name that entry is the newest one.
pub newest-Elem :
    (seek : Node) (table : List Node)
    → Unique table
    → Elem seek table
    → newest seek.name table ≡ some (version seek)
newest-Elem seek [] u i = absurd i
newest-Elem seek (t ∷ rest) u (inl e) =
    subst (λ (x : Node). newest x.name (t ∷ rest) ≡ some (version x)) (sym e)
      (rw (str_eq_refl t.name, newest-absent t.name rest u.0) refl)
newest-Elem seek (t ∷ rest) u (inr i) =
    let other : str_eq t.name seek.name ≡ false = Elem-other t.name seek rest u.0 i in
    rw other (newest-Elem seek rest u.1 i)
