-- ===== src/Peer/Threads/InStep.antt =====
-- peer/peer.c: when the downloads under way fit the types in the file table, and that `compareNode`
-- and the monitor keep them so as long as they do not delete the file.
use dart_sync.Base.{
  ℕ, ◌≡◌, refl, sym, subst, Bool, true, false, Option, none, some, List, [], ◌∷◌, CString, str_eq,
  str_eq_iff, str_eq_refl, ◌==◌, if◌then◌else◌, All, arith, Bool-cases, inl, inr, Option-cases,
}
use dart_sync.Table.{Node, file_delete, file_downloading}
use dart_sync.Peer.Sync.{Local, Download, request, added, modified, add, delete, find_node}
use dart_sync.Peer.Sync.Find.{find_node-change, find_node-append, find_node-append_other}
use dart_sync.Peer.Sync.Compared.{
  Compared, kept, updated, deleted, fresh, found_after_update, found_after_add,
}
use dart_sync.Peer.Monitor.{Watch, Change, created, is_delete}
use dart_sync.Peer.Monitor.Effect.{
  Noticed, ignored, altered, erased, appended, erased_at, filetable-report,
}
use dart_sync.Peer.Threads.{Place, Action, received, noticed}
use dart_sync.Peer.Threads.Turns.{event_path}

-- The downloads of a file that are under way.
abbrev pub downloads_of : CString → List Download → List Download
downloads_of n [] = []
downloads_of n (d ∷ ds) = if str_eq d.filename n then d ∷ downloads_of n ds else downloads_of n ds

-- Exactly one download, of the version in the entry.
abbrev pub Fetches : Node → List Download → Type 0
Fetches t [] = ⊥
Fetches t (d ∷ []) = (d.size ≡ t.size) × (d.timestamp ≡ t.timestamp)
Fetches t (d ∷ e ∷ ds) = ⊥

abbrev pub FetchesIf : Bool → Node → List Download → Type 0
FetchesIf true t ds = Fetches t ds
FetchesIf false t ds = ds ≡ []

-- An entry that is FILE_DOWNLOADING has its one download, and no other entry has any.
abbrev pub InStep : Option Node → List Download → Type 0
InStep none ds = ds ≡ []
InStep (some t) ds = FetchesIf (t.type == file_downloading) t ds

abbrev pub InStepAt : CString → Local → Type 0
InStepAt n l = InStep (find_node n l.file_table) (downloads_of n l.downloads)

-- No entry says that the file was deleted.
abbrev pub Live : CString → List Node → Type 0
Live n = All λ t. str_eq t.name n ≡ true → (t.type == file_delete) ≡ false

-- Neither a received table nor an event of the monitor deletes the file.
abbrev pub Spares : Place → CString → Action → Type 0
Spares p n (received r) = Live n r.nodes
Spares p n (noticed kind before stat now folder name) =
    str_eq (event_path p folder name) n ≡ true → is_delete kind ≡ false
Spares p n _ = Unit

Compared-InStep_self :
    (myip : CString) (seek : Node) (l l' : Local)
    → Compared myip seek l l'
    → (seek.type == file_delete) ≡ false
    → InStepAt seek.name l
    → InStepAt seek.name l'
unfolding request
Compared-InStep_self myip seek l l' (kept _) live i = i
Compared-InStep_self myip seek l l' (updated current found _ up) live i =
    let idle : (current.type == file_downloading) ≡ false = ground (arith, up) in
    let none_yet : downloads_of seek.name l.downloads ≡ [] = rw (found, idle) at i in
    rw (found_after_update seek current l found, str_eq_refl seek.name, none_yet) (refl, refl)
Compared-InStep_self myip seek l l' (deleted current found _ _ del) live i =
    absurd (ground (arith, del, live))
Compared-InStep_self myip seek l l' (fresh absent _) live i =
    let none_yet : downloads_of seek.name l.downloads ≡ [] = rw absent at i in
    rw (found_after_add myip seek l absent, str_eq_refl seek.name, none_yet) (refl, refl)

-- A name that the entry does not have keeps its entry and its downloads.
pub Compared-other :
    (n myip : CString) (seek : Node) (l l' : Local)
    → Compared myip seek l l'
    → str_eq seek.name n ≡ false
    → (find_node n l'.file_table ≡ find_node n l.file_table)
      × (downloads_of n l'.downloads ≡ downloads_of n l.downloads)
unfolding request delete add
Compared-other n myip seek l l' (kept _) other = (refl, refl)
Compared-other n myip seek l l' (updated current _ _ _) other = (
  rw
      (
        find_node-change n seek.name (modified (request seek.name seek)) l.file_table (λ t. refl),
        other,
      )
      refl,
  rw other refl,
)
Compared-other n myip seek l l' (deleted current _ _ _ _) other = (
  rw
      (
        find_node-change n seek.name (λ t. record t { type = file_delete }) l.file_table
            (λ t. refl),
        other,
      )
      refl,
  refl,
)
Compared-other n myip seek l l' (fresh absent _) other = (
  find_node-append_other n l.file_table (added myip (request seek.name seek)) other,
  rw other refl,
)

pub Compared-InStep :
    (n myip : CString) (seek : Node) (l l' : Local)
    → Compared myip seek l l'
    → (str_eq seek.name n ≡ true → (seek.type == file_delete) ≡ false)
    → InStepAt n l
    → InStepAt n l'
Compared-InStep n myip seek l l' how live i = elim (Bool-cases (str_eq seek.name n)) [
  | inr other ↦
      let (table, downloads) = Compared-other n myip seek l l' how other in rw (table, downloads) i
  | inl hit ↦
      subst (λ m. (InStepAt m l → InStepAt m l')) ((str_eq_iff seek.name n).0 hit)
        (Compared-InStep_self myip seek l l' how (live hit)) i
]

-- An event about another file, or one that does not delete.
pub Noticed-InStep :
    (n m : CString) (kind : Change) (seen : ℕ → Type 0) (w w' : Watch) (ds : List Download)
    → Noticed kind seen m w w'
    → (str_eq m n ≡ true → is_delete kind ≡ false)
    → InStep (find_node n w.filetable) (downloads_of n ds)
    → InStep (find_node n w'.filetable) (downloads_of n ds)
Noticed-InStep n m kind seen w w' ds ignored spares i = i
Noticed-InStep n m kind seen w w' ds (erased now d at) spares i = elim (Bool-cases (str_eq m n)) [
  | inl hit ↦ absurd (ground (arith, spares hit, d))
  | inr other ↦
      rw (filetable-report, find_node-change n m (erased_at now) w.filetable (λ t. refl), other) i
]
Noticed-InStep n m kind seen w w' ds (altered f keep idle was times) spares i =
    rw (filetable-report, find_node-change n m f w.filetable keep)
      (elim (Bool-cases (str_eq m n)) [
        | inr other ↦ rw other i
        | inl hit ↦ rw hit (elim (Option-cases (find_node n w.filetable)) [
          | inl absent ↦ rw absent (rw absent at i)
          | inr (t, found) ↦
              rw (found, idle t)
                (rw
                  (
                    found,
                    was t (
                        subst (λ k. find_node k w.filetable ≡ some t) (sym ((str_eq_iff m n).0 hit))
                          found),
                  )
                  at i)
        ])
      ])
Noticed-InStep n m kind seen w w' ds (appended info same absent at) spares i =
    rw filetable-report (elim (Bool-cases (str_eq m n)) [
      | inr other ↦
          rw (find_node-append_other n w.filetable (created w.myip info) (rw same other)) i
      | inl hit ↦
          let here : find_node n w.filetable ≡ none =
            subst (λ k. find_node k w.filetable ≡ none) ((str_eq_iff m n).0 hit) absent in
          rw (find_node-append n w.filetable (created w.myip info) here, same, hit) (rw here at i)
    ])
