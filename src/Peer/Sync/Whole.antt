-- ===== src/Peer/Sync/Whole.antt =====
-- `compareNode` on every entry of a received table: the peer catches up with all of it.
use mathlib.Core.List.{append_assoc}
use dart_sync.Base.{
  ap, ◌++◌, ◌<◌, ◌≡◌, refl, sym, ◌∙◌, subst, ◌≢◌, ◌⊎◌, inl, inr, false, some, List, [], ◌∷◌,
  CString, str_eq, str_eq_iff, arith, ok,
}
use dart_sync.Table.{Node, file_delete, file_downloading}
use dart_sync.Tracker.Merge.Invariant.{Unique, has_name}
use dart_sync.Peer.Sync.Fetch.{
  Older, Grown, Grown-trans, Gets, compare_node-Grown, compare_nodes-Grown, compare_node-Gets,
}
use dart_sync.Peer.Sync.{request, Local, find_node, compare_node, compare_nodes}
use dart_sync.Peer.Sync.Steady.{find_node-compare_node}
use dart_sync.Peer.Sync.Compared.{compare_node-Compared}

abbrev pub Elem : Node → List Node → Type 0
Elem s [] = ⊥
Elem s (t ∷ ts) = (s ≡ t) ⊎ Elem s ts

pub Elem-other :
    (n : CString) (s : Node) (table : List Node)
    → has_name n table ≡ false
    → Elem s table
    → str_eq n s.name ≡ false
Elem-other n s [] h i = absurd i
Elem-other n s (t ∷ rest) h (inl e) =
    rw e (ground (arith, h, str_eq_iff n t.name, str_eq_iff t.name n))
Elem-other n s (t ∷ rest) h (inr i) = Elem-other n s rest (ground (arith, h)) i

-- The comparison returns, whatever the table holds.
pub compare_nodes-ok :
    (myip : CString) (seeks : List Node) (l : Local)
    → (l' : Local) × (compare_nodes myip seeks l ≡ ok l')
unfolding compare_nodes
compare_nodes-ok myip [] l = (l, refl)
compare_nodes-ok myip (seek ∷ seeks) l =
    let (l1, e, _) = compare_node-Compared myip seek l in
    let (l', e') = compare_nodes-ok myip seeks l1 in (l', rw e e')

-- A name that no entry has keeps its entry in the peer's table.
compare_nodes_other :
    (myip n : CString) (seeks : List Node) (l : Local)
    → has_name n seeks ≡ false
    → (l' : Local) × (compare_nodes myip seeks l ≡ ok l')
      × (find_node n l'.file_table ≡ find_node n l.file_table)
unfolding compare_nodes
compare_nodes_other myip n [] l h = (l, refl, refl)
compare_nodes_other myip n (seek ∷ seeks) l h =
    let (l1, e, same) = find_node-compare_node myip n seek l (ground (arith, h)) in
    let (l', e', same') = compare_nodes_other myip n seeks l1 (ground (arith, h)) in
    (l', rw e e', same' ∙ same)

-- With one entry to a name, what the peer has under the name of an entry is settled by that entry.
pub compare_nodes-Elem :
    (myip : CString) (seeks : List Node) (seek : Node) (l : Local)
    → Unique seeks
    → Elem seek seeks
    → (l1 : Local) × (find_node seek.name l1.file_table ≡ find_node seek.name l.file_table)
      × Grown l l1
      × ((l2 : Local)
          → compare_node myip seek l1 ≡ ok l2
          → (l' : Local) × (compare_nodes myip seeks l ≡ ok l')
            × (find_node seek.name l'.file_table ≡ find_node seek.name l2.file_table)
            × Grown l2 l')
unfolding compare_nodes
compare_nodes-Elem myip [] seek l u i = absurd i
compare_nodes-Elem myip (first ∷ seeks) seek l u (inl e) = (
  l,
  refl,
  ([], refl),
  λ l2 got.
      let (l', got', same) =
        compare_nodes_other myip seek.name seeks l2
          (subst (λ s. has_name s.name seeks ≡ false) (sym e) (u.0)) in
      (l', rw (← e, got) got', same, compare_nodes-Grown myip seeks l2 l' got'),
)
compare_nodes-Elem myip (first ∷ seeks) seek l u (inr i) =
    let (l0, got, same) =
      find_node-compare_node myip seek.name first l (Elem-other first.name seek seeks (u.0) i) in
    let (l1, same1, grown, rest) = compare_nodes-Elem myip seeks seek l0 (u.1) i in
    (
      l1,
      same1 ∙ same,
      Grown-trans l l0 l1 (compare_node-Grown myip first l l0 got) grown,
      λ l2 got2. let (l', got', same', later) = rest l2 got2 in (l', rw got got', same', later),
    )

-- For a received table with one entry to a name and a live entry of it that is not empty, and
-- unless the peer was downloading that file, compareNode on all entries starts a download of that
-- entry's version exactly when the peer has no entry of that version or a newer one.
pub compare_nodes-Gets :
    (myip : CString) (seeks : List Node) (seek : Node) (l : Local)
    → Unique seeks
    → Elem seek seeks
    → 0 < seek.size
    → seek.type ≢ file_delete
    → ((current : Node)
        → find_node seek.name l.file_table ≡ some current
        → current.type ≢ file_downloading)
    → (l' : Local) × (t : Node) × (compare_nodes myip seeks l ≡ ok l') × Gets seek l l' t
compare_nodes-Gets myip seeks seek l u i large live settled =
    let (l1, same, (xs, grown), rest) = compare_nodes-Elem myip seeks seek l u i in
    let (l2, t, got, gets) =
      compare_node-Gets myip seek l1 large live (λ current e. settled current (sym same ∙ e)) in
    let (l', got', same', (ys, later)) = rest l2 got in
    (
      l',
      t,
      got',
      elim gets [
        | inl f ↦
            let (zs, ws, started) = f.started in
            inl (record {
              lacking = subst (λ c. Older c seek) same f.lacking;
              found = same' ∙ f.found;
              busy = f.busy;
              same = f.same;
              started = (
                ys ++ zs,
                ws ++ xs,
                later
                    ∙ ap (λ d. ys ++ d) started
                    ∙ ap (λ d. ys ++ (zs ++ (request seek.name seek ∷ (ws ++ d)))) grown
                    ∙ rw (append_assoc, append_assoc) refl,
              );
            })
        | inr h ↦
            inr (record {
              before = sym same ∙ h.before;
              found = same' ∙ h.found;
              reached = h.reached;
            })
      ],
    )
