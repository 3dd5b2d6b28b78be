-- ===== src/Peer/Threads/Twice.antt =====
-- peer/peer.c and peer/monitor.c: a file that is deleted while it is downloaded.
use dart_sync.Base.{
  ◌≡◌, ◌≢◌, ◌<◌, ℕ, refl, sym, ◌∙◌, ap, true, false, some, List, [], ◌∷◌, CString, is_empty,
  str_eq_refl, arith, ok, inl, inr,
}
use dart_sync.Table.{Node, file_delete, file_download, file_downloading}
use dart_sync.Packet.{Received}
use dart_sync.Peer.Sync.{
  Local, Download, find_node, change, request, modified, set_node_type, compare_node,
}
use dart_sync.Peer.Sync.Find.{find_node-change}
use dart_sync.Peer.Sync.Compared.{
  Compared, kept, updated, deleted, fresh, after_update, compare_node-Compared, found_after_update,
}
use dart_sync.Peer.Monitor.{Stat, in_delete, is_watched, report}
use dart_sync.Peer.Monitor.Effect.{erased_at, filetable-report}
use dart_sync.Peer.Monitor.Again.{notify_event-erases}
use dart_sync.Peer.Threads.{
  Place, Running, received, compared, noticed, downloaded, watch_directory, with_table, notice,
  end_download, perform, run,
}
use dart_sync.Peer.Threads.Turns.{event_path}
use dart_sync.Peer.Threads.Busy.{ended}

compare_node-updates :
    (myip : CString) (seek current : Node) (l : Local)
    → find_node seek.name l.file_table ≡ some current
    → current.timestamp < seek.timestamp
    → current.type ≢ file_downloading
    → seek.type ≢ file_delete
    → 0 < seek.size
    → compare_node myip seek l ≡ ok (after_update seek l)
compare_node-updates myip seek current l found older idle live large =
    let (l', done, how) = compare_node-Compared myip seek l in done ∙ ap ok (which l' how)
  where
    which : (l' : Local) → Compared myip seek l l' → l' ≡ after_update seek l
    which l' (kept (inl (absent, _))) = cc (absent, found)
    which l' (kept (inr (c, there, inl newer))) =
        let same : c ≡ current = cc (there, found) in
        absurd (ground (arith, rw same at newer, older))
    which l' (kept (inr (c, there, inr no_up))) =
        let same : c ≡ current = cc (there, found) in
        absurd (ground (arith, rw same at no_up, older, idle, live, large))
    which l' (updated c _ _ _) = refl
    which l' (deleted c _ _ _ del) = absurd (ground (arith, del, live))
    which l' (fresh absent _) = cc (absent, found)

is_empty-full : (s : CString) → s ≢ [] → is_empty s ≡ false
is_empty-full [] full = absurd (full refl)
is_empty-full (c ∷ s) full = refl

module _ (p : Place) (s : Running) (before stat : Stat) (now : ℕ) (folder name : CString)
    (t seek : Node) where
  -- The file is gone from the folder.
  abbrev erased_from : Running
  erased_from =
      let w =
        report (watch_directory p s)
          (change (event_path p folder name) (erased_at now) s.local.file_table) in
      record (with_table s w.filetable) { net = w.net }

  -- The next table has a newer version of it.
  abbrev restarted : Running
  restarted = record erased_from { local = after_update seek erased_from.local; pending = [] }

  abbrev table_of_one : Received
  table_of_one = record { nodes = seek ∷ []; is_closed = true }

  noticed-erases :
      name ≢ []
      → is_watched in_delete name ≡ true
      → find_node (event_path p folder name) s.local.file_table ≡ some t
      → perform p (noticed in_delete before stat now folder name) s ≡ ok erased_from
  unfolding perform notice
  noticed-erases full watched found =
      rw
        (
          is_empty-full name full,
          notify_event-erases before stat now folder name (watch_directory p s) t watched found,
        )
        refl

  -- The file has been marked as deleted while its download goes on.
  erased-found :
      find_node (event_path p folder name) s.local.file_table ≡ some t
      → find_node (event_path p folder name) erased_from.local.file_table ≡ some (erased_at now t)
  erased-found found =
      rw
        (
          filetable-report,
          find_node-change (event_path p folder name) (event_path p folder name) (erased_at now)
              s.local.file_table (λ u. refl),
          str_eq_refl (event_path p folder name),
          found,
        )
        refl

  received-waits :
      s.pending ≡ []
      → perform p (received table_of_one) erased_from
        ≡ ok (record erased_from { pending = seek ∷ [] })
  unfolding perform
  received-waits waits = rw waits refl

  compared-restarts :
      find_node (event_path p folder name) s.local.file_table ≡ some t
      → seek.name ≡ event_path p folder name
      → now < seek.timestamp
      → seek.type ≢ file_delete
      → 0 < seek.size
      → perform p compared (record erased_from { pending = seek ∷ [] }) ≡ ok restarted
  unfolding perform
  compared-restarts found same later live large =
      rw
        (compare_node-updates p.myip seek (erased_at now t) erased_from.local
          (rw same (erased-found found)) later (omega arith) live large)
        refl

  run-restarts :
      s.pending ≡ []
      → name ≢ []
      → is_watched in_delete name ≡ true
      → find_node (event_path p folder name) s.local.file_table ≡ some t
      → seek.name ≡ event_path p folder name
      → now < seek.timestamp
      → seek.type ≢ file_delete
      → 0 < seek.size
      → run p
          (noticed in_delete before stat now folder name ∷ received table_of_one ∷ compared ∷ [])
          s
        ≡ ok restarted
  unfolding run
  run-restarts waits full watched found same later live large =
      rw
        (
          noticed-erases full watched found,
          received-waits waits,
          compared-restarts found same later live large,
        )
        refl

  found-ended :
      (d : Download)
      → find_node (event_path p folder name) s.local.file_table ≡ some t
      → seek.name ≡ event_path p folder name
      → d.filename ≡ event_path p folder name
      → find_node seek.name
          (set_node_type d.filename file_download d.size restarted.local.file_table)
        ≡ some (ended d (modified (request seek.name seek) (erased_at now t)))
  unfolding set_node_type
  found-ended d found same its =
      rw
        (
          its ∙ sym same,
          find_node-change seek.name seek.name (ended d) restarted.local.file_table (λ u. refl),
          str_eq_refl seek.name,
          found_after_update seek (erased_at now t) erased_from.local
              (rw same (erased-found found)),
        )
        refl

  -- When main of a peer has nothing pending, the download started last is that of a file whose
  -- name notify watches for deletions and which the peer's table has, the file is deleted in the
  -- peer's folder, and the next table consists of one entry, a live version of it that is not
  -- empty and newer than the deletion, then after main has compared it a second download starts
  -- while the first is under way; when the first ends, the entry is FILE_DOWNLOAD with the size of
  -- the old version and the time of the new one, and the second download is still under way.
  pub run-twice :
      (d : Download) (after : List Download)
      → s.pending ≡ []
      → name ≢ []
      → is_watched in_delete name ≡ true
      → find_node (event_path p folder name) s.local.file_table ≡ some t
      → s.local.downloads ≡ d ∷ after
      → d.filename ≡ event_path p folder name
      → seek.name ≡ event_path p folder name
      → now < seek.timestamp
      → seek.type ≢ file_delete
      → 0 < seek.size
      → (s1 s2 : Running) × (u : Node) × (run p
            (noticed in_delete before stat now folder name ∷ received table_of_one ∷ compared ∷ [])
            s
          ≡ ok s1)
        × (s1.local.downloads ≡ request seek.name seek ∷ d ∷ after)
        × (run p (downloaded 1 ∷ []) s1 ≡ ok s2)
        × (s2.local.downloads ≡ request seek.name seek ∷ after)
        × (find_node seek.name s2.local.file_table ≡ some u)
        × (u.type ≡ file_download)
        × (u.size ≡ d.size)
        × (u.timestamp ≡ seek.timestamp)
  unfolding run perform request
  run-twice d after waits full watched found busy its same later live large = (
    restarted,
    end_download (request seek.name seek ∷ []) (d ∷ after) restarted,
    ended d (modified (request seek.name seek) (erased_at now t)),
    run-restarts waits full watched found same later live large,
    rw busy refl,
    rw busy refl,
    refl,
    found-ended d found same its,
    refl,
    refl,
    refl,
  )
