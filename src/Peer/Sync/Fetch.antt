-- ===== src/Peer/Sync/Fetch.antt =====
-- `compareNode` and downloads: a file that the peer lacks, or has in an older version, is fetched.
use mathlib.Core.List.{append_assoc}
use dart_sync.Base.{
  ◌<◌, ◌≡◌, refl, sym, subst, ◌∙◌, ap, ◌≢◌, ◌⊎◌, inl, inr, Option, none, some, List, [], ◌∷◌, ◌++◌,
  CString, arith, ok, >>=-ok_inv,
}
use dart_sync.Table.{Node, file_delete, file_downloading}
use dart_sync.Tracker.Merge.Versions.{version, ◌⊑◌}
use dart_sync.Peer.Sync.{
  Local, Download, find_node, request, added, modified, compare_node, compare_nodes,
}
use dart_sync.Peer.Sync.Compared.{
  Compared, kept, updated, deleted, fresh, compare_node-Compared, found_after_update,
  found_after_add,
}

-- What the peer has, if anything, is older than the entry.
abbrev pub Older : Option Node → Node → Type 0
Older none seek = Unit
Older (some current) seek =
    (current.timestamp < seek.timestamp)
    ⊎ ((current.timestamp ≡ seek.timestamp) × (current.size < seek.size))

-- Downloads are started, and none is given up.
abbrev pub Grown : Local → Local → Type 0
Grown l l' = (more : List Download) × (l'.downloads ≡ more ++ l.downloads)

pub Grown-trans : (l m n : Local) → Grown l m → Grown m n → Grown l n
Grown-trans l m n (xs, e) (ys, f) =
    (ys ++ xs, f ∙ ap (λ d. ys ++ d) e ∙ sym (append_assoc ys xs l.downloads))

-- The peer lacked the version of `seek` and has started a download of it: `t` is its entry.
pub record Fetches (seek : Node) (l l' : Local) (t : Node) : Type 0 where
  pub lacking : Older (find_node seek.name l.file_table) seek
  pub found : find_node seek.name l'.file_table ≡ some t
  pub busy : t.type ≡ file_downloading
  pub same : version t ≡ version seek
  pub started :
      (later earlier : List Download) × (l'.downloads
        ≡ later ++ (request seek.name seek ∷ (earlier ++ l.downloads)))

-- The peer had an entry `t` of that version or a newer one, and keeps it as it was.
pub record Owns (seek : Node) (l l' : Local) (t : Node) : Type 0 where
  pub before : find_node seek.name l.file_table ≡ some t
  pub found : find_node seek.name l'.file_table ≡ some t
  pub reached : version seek ⊑ version t

abbrev pub Gets : Node → Local → Local → Node → Type 0
Gets seek l l' t = Fetches seek l l' t ⊎ Owns seek l l' t

pub Gets-reached :
    (seek : Node) (l l' : Local) (t : Node)
    → Gets seek l l' t
    → (find_node seek.name l'.file_table ≡ some t) × (version seek ⊑ version t)
Gets-reached seek l l' t (inl f) =
    (f.found, subst (λ v. version seek ⊑ v) (sym f.same) (inr (refl, omega arith)))
Gets-reached seek l l' t (inr h) = (h.found, h.reached)

Compared-Grown :
    (myip : CString) (seek : Node) (l l' : Local) → Compared myip seek l l' → Grown l l'
Compared-Grown myip seek l l' (kept _) = ([], refl)
Compared-Grown myip seek l l' (updated _ _ _ _) = (request seek.name seek ∷ [], refl)
Compared-Grown myip seek l l' (deleted _ _ _ _ _) = ([], refl)
Compared-Grown myip seek l l' (fresh _ _) = (request seek.name seek ∷ [], refl)

pub compare_node-Grown :
    (myip : CString) (seek : Node) (l l' : Local) → compare_node myip seek l ≡ ok l' → Grown l l'
compare_node-Grown myip seek l l' e =
    let (m, got, how) = compare_node-Compared myip seek l in
    let same : m ≡ l' = cc (got, e) in rw (← same) (Compared-Grown myip seek l m how)

pub compare_nodes-Grown :
    (myip : CString) (seeks : List Node) (l l' : Local)
    → compare_nodes myip seeks l ≡ ok l'
    → Grown l l'
unfolding compare_nodes
compare_nodes-Grown myip [] l l' e = let same : l ≡ l' = cc e in rw (← same) ([], refl)
compare_nodes-Grown myip (seek ∷ seeks) l l' e =
    let (m, one, more) =
      >>=-ok_inv (compare_node myip seek l) (λ m. compare_nodes myip seeks m) l' e in
    Grown-trans l m l' (compare_node-Grown myip seek l m one)
      (compare_nodes-Grown myip seeks m l' more)

-- For a live entry that is not empty, and unless the peer is downloading the file, compareNode starts
-- a download exactly when the peer has no entry of that version or a newer one.
pub compare_node-Gets :
    (myip : CString) (seek : Node) (l : Local)
    → 0 < seek.size
    → seek.type ≢ file_delete
    → ((current : Node)
        → find_node seek.name l.file_table ≡ some current
        → current.type ≢ file_downloading)
    → (l' : Local) × (t : Node) × (compare_node myip seek l ≡ ok l') × Gets seek l l' t
compare_node-Gets myip seek l large live settled =
    let (l', got, how) = compare_node-Compared myip seek l in
    let (t, gets) = after l' how in (l', t, got, gets)
  where
    after : (l' : Local) → Compared myip seek l l' → (t : Node) × Gets seek l l' t
    after l' (kept (inl (_, small))) = absurd (ground (arith, small))
    after l' (kept (inr (current, found, inl newer))) =
        (current, inr (record { before = found; found = found; reached = ground (arith, newer) }))
    after l' (kept (inr (current, found, inr no_up))) = (
      current,
      inr (record {
        before = found;
        found = found;
        reached = ground (arith, no_up, settled current found);
      }),
    )
    after l' (updated current found _ up) = (
      modified (request seek.name seek) current,
      inl (record {
        lacking = rw found (ground (arith, up));
        found = found_after_update seek current l found;
        busy = refl;
        same = unfold request in refl;
        started = ([], [], refl);
      }),
    )
    after l' (deleted current found _ _ del) = absurd (ground (arith, del, live))
    after l' (fresh absent _) = (
      added myip (request seek.name seek),
      inl (record {
        lacking = rw absent tt;
        found = found_after_add myip seek l absent;
        busy = refl;
        same = unfold request in refl;
        started = ([], [], refl);
      }),
    )
