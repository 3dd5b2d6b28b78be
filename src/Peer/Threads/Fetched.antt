-- ===== src/Peer/Threads/Fetched.antt =====
-- peer/peer.c: once `main` has compared a newer entry, the peer gets its version, whatever the threads
-- do in between.
use dart_sync.Base.{
  ◌≡◌, ◌≢◌, ◌<◌, refl, sym, ◌∙◌, subst, false, some, List, [], ◌∷◌, ◌++◌, CString, str_eq,
  str_eq_iff, str_eq_refl, All, arith, ok, Bool-cases, inl, inr, >>=-ok_inv,
}
use dart_sync.Table.{Node, file_delete, file_download, file_downloading}
use dart_sync.Packet.{PeerPkt, Net}
use dart_sync.Tracker.Merge.Versions.{Version, version, ◌⊑◌}
use dart_sync.Peer.Sync.{Local, Download, find_node, set_node_type}
use dart_sync.Peer.Sync.Find.{find_node-change}
use dart_sync.Peer.Sync.Compared.{Compared}
use dart_sync.Peer.Sync.Growth.{Compared-grows, compare_node-catches_up}
use dart_sync.Peer.Monitor.Effect.{Times, find_node-Noticed}
use dart_sync.Peer.Threads.{
  Place, Running, Action, received, compared, noticed, alive, downloaded, launched, watch_directory,
  perform, run,
}
use dart_sync.Peer.Threads.Turns.{
  event_path, Turn, unmoved, by_receipt, by_main, by_monitor, by_download, run_inv, perform-Turn,
}
use dart_sync.Peer.Threads.InStep.{downloads_of, InStepAt, InStep, Live, Spares, Compared-other}
use dart_sync.Peer.Threads.Busy.{IsInStep, Turn-IsInStep, run-IsInStep, ended, ends_at}

-- No received table deletes the file, and no event of the monitor is about it.
abbrev pub Untouched : Place → CString → Action → Type 0
Untouched p n (noticed kind before stat now folder name) =
    str_eq (event_path p folder name) n ≡ false
Untouched p n a = Spares p n a

Untouched-Spares : (p : Place) (n : CString) (a : Action) → Untouched p n a → Spares p n a
Untouched-Spares p n (received r) u = u
Untouched-Spares p n compared u = u
Untouched-Spares p n (noticed kind before stat now folder name) u = λ hit. cc (u, hit)
Untouched-Spares p n alive u = u
Untouched-Spares p n (downloaded i) u = u

⊑_trans : (u v w : Version) → u ⊑ v → v ⊑ w → u ⊑ w
⊑_trans u v w p q = ground arith

-- The table has the file in this version or a newer one.
pub record Reaches (n : CString) (v : Version) (s : Running) : Type 0 where
  pub in_step : IsInStep n s
  pub entry : Node
  pub found : find_node n s.local.file_table ≡ some entry
  pub newer : v ⊑ version entry

-- What a turn keeps of the entry.
abbrev Grown : CString → Node → Local → Type 0
Grown n t l = (u : Node) × (find_node n l.file_table ≡ some u) × (version t ⊑ version u)

Compared-Grown :
    (n myip : CString) (seek t : Node) (l l' : Local)
    → Compared myip seek l l'
    → find_node n l.file_table ≡ some t
    → Grown n t l'
Compared-Grown n myip seek t l l' how found = elim (Bool-cases (str_eq seek.name n)) [
  | inl hit ↦
      subst (λ m. find_node m l.file_table ≡ some t → Grown m t l') ((str_eq_iff seek.name n).0 hit)
        (Compared-grows myip seek t l l' how) found
  | inr other ↦ (t, (Compared-other n myip seek l l' how other).0 ∙ found, inr (refl, omega arith))
]

end_download-Grown :
    (n : CString) (before after : List Download) (d : Download) (l : Local) (t : Node)
    → l.downloads ≡ before ++ d ∷ after
    → InStepAt n l
    → find_node n l.file_table ≡ some t
    → (u : Node) × (find_node n (set_node_type d.filename file_download d.size l.file_table)
        ≡ some u)
      × (version t ⊑ version u)
unfolding set_node_type
end_download-Grown n before after d l t e i found = elim (Bool-cases (str_eq d.filename n)) [
  | inr other ↦ (
    t,
    rw (find_node-change n d.filename (ended d) l.file_table (λ u. refl), other) found,
    inr (refl, omega arith),
  )
  | inl hit ↦
      let same : d.filename ≡ n = (str_eq_iff d.filename n).0 hit in
      let (u, there, rest, size) =
        ends_at before after d l e (subst (λ m. InStepAt m l) (sym same) i) in
      let its : u ≡ t = cc (rw same at there, found) in
      (
        ended d t,
        rw (find_node-change n d.filename (ended d) l.file_table (λ u. refl), hit, found) refl,
        inr (refl, rw size (rw its (omega arith))),
      )
]

Turn-Grown :
    (n : CString) (p : Place) (a : Action) (s s' : Running) (t : Node)
    → Untouched p n a
    → Turn p s a s'
    → InStepAt n s.local
    → find_node n s.local.file_table ≡ some t
    → Grown n t s'.local
Turn-Grown n p a s s' t un (unmoved net) i found = (t, found, inr (refl, omega arith))
Turn-Grown n p a s s' t un (by_receipt r) i found = (t, found, inr (refl, omega arith))
Turn-Grown n p a s s' t un (by_main seek rest l e how) i found =
    Compared-Grown n p.myip seek t s.local l how found
Turn-Grown n p a s s' t un (by_monitor kind before stat now folder name w how) i found = (
  t,
  find_node-Noticed n (event_path p folder name) kind (Times kind stat now (folder ++ name))
        (watch_directory p s) w how un
      ∙ found,
  inr (refl, omega arith),
)
Turn-Grown n p a s s' t un (by_download k before after d e) i found =
    end_download-Grown n before after d s.local t e i found

Turn-Reaches :
    (n : CString) (v : Version) (p : Place) (a : Action) (s s' : Running)
    → Untouched p n a
    → Turn p s a s'
    → Reaches n v s
    → Reaches n v s'
Turn-Reaches n v p a s s' un turn r =
    let (u, there, le) = Turn-Grown n p a s s' r.entry un turn r.in_step.downloads r.found in
    record {
      in_step = Turn-IsInStep n p a s s' (Untouched-Spares p n a un) turn r.in_step;
      entry = u;
      found = there;
      newer = ⊑_trans v (version r.entry) (version u) r.newer le;
    }

-- `main` compares a live entry that is not empty: afterwards the file is there in its version.
compared-Reaches :
    (p : Place) (seek : Node) (rest : List Node) (s s' : Running)
    → s.pending ≡ seek ∷ rest
    → 0 < seek.size
    → IsInStep seek.name s
    → ((current : Node)
        → find_node seek.name s.local.file_table ≡ some current
        → current.type ≢ file_downloading)
    → perform p compared s ≡ ok s'
    → Reaches seek.name (version seek) s'
unfolding perform
compared-Reaches p seek rest s s' waits large i settled e =
    let (first, _) = subst (Live seek.name) waits i.pending in
    let live : seek.type ≢ file_delete =
      λ gone. ground (arith, first (str_eq_refl seek.name), gone) in
    let (l, t, done, found, le) = compare_node-catches_up p.myip seek s.local large live settled in
    let same : record s { local = l; pending = rest } ≡ s' = cc (rw (waits, done) at e) in
    record {
      in_step = Turn-IsInStep seek.name p compared s s' tt (perform-Turn p compared s s' e) i;
      entry = t;
      found = rw (← same) found;
      newer = le;
    }

not-Fetches_nil : (t : Node) → InStep (some t) [] → t.type ≢ file_downloading
not-Fetches_nil t i e = rw e at i

-- As long as neither a received table nor an event of the monitor deletes a file, after any turns
-- of a peer's threads from its start, when main compares a live entry of the file that is not
-- empty and the peer is not downloading the file, then after any further turns, in any order,
-- without an event about the file and as far as none faults, the peer has the file in the entry's
-- version or a newer one, and has finished the download when none of the file is under way.
pub run-catches_up :
    (p : Place) (table : List Node) (net : Net PeerPkt) (earlier later : List Action) (seek : Node)
    (rest : List Node) (s s' : Running)
    → Live seek.name table
    → All (Spares p seek.name) earlier
    → run p earlier (launched table net) ≡ ok s
    → s.pending ≡ seek ∷ rest
    → 0 < seek.size
    → ((current : Node)
        → find_node seek.name s.local.file_table ≡ some current
        → current.type ≢ file_downloading)
    → All (Untouched p seek.name) later
    → run p (compared ∷ later) s ≡ ok s'
    → (t : Node) × (find_node seek.name s'.local.file_table ≡ some t)
      × (version seek ⊑ version t)
      × (downloads_of seek.name s'.local.downloads ≡ [] → t.type ≢ file_downloading)
unfolding run
run-catches_up p table net earlier later seek rest s s' live spares begun waits large settled calm
      e =
    let (s1, one, more) = >>=-ok_inv (perform p compared s) (λ v. run p later v) s' e in
    let r =
      run_inv p (Untouched p seek.name) (Reaches seek.name (version seek))
        (λ a u v. Turn-Reaches seek.name (version seek) p a u v) later s1 s' calm more
        (compared-Reaches p seek rest s s1 waits large
          (run-IsInStep seek.name p table net earlier s live spares begun) settled one) in
    (
      r.entry,
      r.found,
      r.newer,
      λ over. not-Fetches_nil r.entry (rw (r.found, over) at r.in_step.downloads),
    )
