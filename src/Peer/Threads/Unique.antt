-- ===== src/Peer/Threads/Unique.antt =====
-- peer/peer.c: the names in the file table, whatever the threads of the peer do.
use dart_sync.Base.{ℕ, ◌++◌, ◌≡◌, refl, ok, List, CString}
use dart_sync.Table.{Node, file_delete, file_download}
use dart_sync.Packet.{PeerPkt, Net}
use dart_sync.Peer.Sync.{Local, request, modified, added, add, delete, set_node_type}
use dart_sync.Peer.Sync.Compared.{Compared, kept, updated, deleted, fresh, filename-request}
use dart_sync.Peer.Sync.Names.{change-Unique, append-Unique}
use dart_sync.Peer.Monitor.{Watch, Change, created}
use dart_sync.Peer.Monitor.Effect.{
  Times, Noticed, ignored, altered, erased, appended, erased_at, filetable-report,
}
use dart_sync.Tracker.Merge.Invariant.{Unique}
use dart_sync.Peer.Threads.{Place, Running, Action, launched, watch_directory, run}
use dart_sync.Peer.Threads.Turns.{
  event_path, Turn, unmoved, by_receipt, by_main, by_monitor, by_download, run_inv, any_action,
}

Compared-Unique :
    (myip : CString) (seek : Node) (l l' : Local)
    → Compared myip seek l l'
    → Unique l.file_table
    → Unique l'.file_table
unfolding delete add
Compared-Unique myip seek l l' (kept _) u = u
Compared-Unique myip seek l l' (updated current _ _ _) u =
    change-Unique seek.name (modified (request seek.name seek)) l.file_table (λ t. refl) u
Compared-Unique myip seek l l' (deleted current _ _ _ _) u =
    change-Unique seek.name (λ t. record t { type = file_delete }) l.file_table (λ t. refl) u
Compared-Unique myip seek l l' (fresh absent _) u =
    append-Unique l.file_table (added myip (request seek.name seek))
      (rw (filename-request seek.name seek) absent) u

pub Noticed-Unique :
    (kind : Change) (seen : ℕ → Type 0) (n : CString) (w w' : Watch)
    → Noticed kind seen n w w'
    → Unique w.filetable
    → Unique w'.filetable
Noticed-Unique kind seen n w w' ignored u = u
Noticed-Unique kind seen n w w' (altered f keep idle was times) u =
    rw filetable-report (change-Unique n f w.filetable keep u)
Noticed-Unique kind seen n w w' (erased now d at) u =
    rw filetable-report (change-Unique n (erased_at now) w.filetable (λ t. refl) u)
Noticed-Unique kind seen n w w' (appended info same absent at) u =
    rw filetable-report (append-Unique w.filetable (created w.myip info) (rw same absent) u)

Turn-Unique :
    (p : Place) (a : Action) (s s' : Running)
    → Turn p s a s'
    → Unique s.local.file_table
    → Unique s'.local.file_table
unfolding set_node_type
Turn-Unique p a s s' (unmoved net) u = u
Turn-Unique p a s s' (by_receipt r) u = u
Turn-Unique p a s s' (by_main seek rest l e how) u = Compared-Unique p.myip seek s.local l how u
Turn-Unique p a s s' (by_monitor kind before stat now folder name w how) u =
    Noticed-Unique kind (Times kind stat now (folder ++ name)) (event_path p folder name)
      (watch_directory p s) w how u
Turn-Unique p a s s' (by_download i before after d e) u =
    change-Unique d.filename (λ t. record t { type = file_download; size = d.size })
      s.local.file_table (λ t. refl) u

-- Whatever the threads of a peer do after its start, in any order, as far as no turn faults its
-- file table has one entry to a name.
pub run-Unique :
    (p : Place) (table : List Node) (net : Net PeerPkt) (actions : List Action) (s : Running)
    → run p actions (launched table net) ≡ ok s
    → Unique s.local.file_table
run-Unique p table net actions s e =
    run_inv p (λ a. Unit {0}) (λ v. Unique v.local.file_table)
      (λ a v v' _ turn u. Turn-Unique p a v v' turn u) actions (launched table net) s
      (any_action actions) e tt
