-- ===== src/Peer/Monitor/Again.antt =====
-- peer/monitor.c: events one after the other about a file that was downloaded, and its deletion.
use dart_sync.Base.{
  ℕ, ◌≡◌, ◌≢◌, refl, true, false, some, List, [], ◌++◌, CString, str_eq_refl, arith, ok, ◌>>=◌,
}
use dart_sync.Table.{Node, file_modify, file_download}
use dart_sync.Tracker.Merge.Versions.{version}
use dart_sync.Peer.Sync.{find_node, change}
use dart_sync.Peer.Sync.Find.{find_node-change}
use dart_sync.Peer.Monitor.{
  Watch, Stat, inner_path, report, settled, rewritten, file_added, file_deleted, file_modified,
  Change, in_delete, in_modify, is_watched, is_delete, exists, notify_event,
}
use dart_sync.Peer.Monitor.Edit.{edited, find_node-edited, notify_event-edited}
use dart_sync.Peer.Monitor.Effect.{erased_at, info_of, get_file_info-some, append-not_nil}

pub notify_event-erases :
    (before stat : Stat) (now : ℕ) (folder name : CString) (w : Watch) (t : Node)
    → is_watched in_delete name ≡ true
    → find_node (inner_path w (folder ++ name)) w.filetable ≡ some t
    → notify_event in_delete before stat now folder name w
      ≡ ok (report w (change (inner_path w (folder ++ name)) (erased_at now) w.filetable))
unfolding notify_event file_deleted
notify_event-erases before stat now folder name w t watched found =
    rw (watched, found, file_deleted) refl

-- The first event after a download.
notify_event-settles :
    (kind : Change) (before stat : Stat) (now : ℕ) (folder name : CString) (w : Watch) (s : ℕ × ℕ)
    (t : Node)
    → is_delete kind ≡ false
    → name ≢ []
    → is_watched kind name ≡ true
    → exists (before (folder ++ name)) ≡ true
    → stat (folder ++ name) ≡ some s
    → find_node (inner_path w (folder ++ name)) w.filetable ≡ some t
    → t.type ≡ file_download
    → notify_event kind before stat now folder name w
      ≡ ok (report w (change (inner_path w (folder ++ name)) settled w.filetable))
unfolding notify_event file_added file_modified
notify_event-settles Change.in_create before stat now folder name w s t d full watched was there
      found done =
    rw
      (
        watched,
        was,
        get_file_info-some stat w (folder ++ name) s (append-not_nil folder name full) there,
        file_added,
        found,
        done,
      )
      refl
notify_event-settles Change.in_open before stat now folder name w s t d full watched was there found
      done =
    cc
notify_event-settles in_delete before stat now folder name w s t d full watched was there found
      done =
    cc
notify_event-settles in_modify before stat now folder name w s t d full watched was there found
      done =
    rw
      (
        watched,
        was,
        get_file_info-some stat w (folder ++ name) s (append-not_nil folder name full) there,
        file_modified,
        found,
        done,
      )
      refl

-- The monitor's state after the first event: the file is an ordinary one.
abbrev settled_watch : Watch → CString → Watch
settled_watch w path = report w (change (inner_path w path) settled w.filetable)

-- A modification that is noticed after a first creation or modification of a file that was
-- downloaded, when it does not vanish, is reported to the tracker as an edit: the file gets the
-- time and size that stat gives for the downloaded copy as its version.
pub notify_event-again :
    (kind : Change) (before stat : Stat) (now : ℕ) (before' stat' : Stat) (now' : ℕ)
    (folder name : CString) (w : Watch) (s s' : ℕ × ℕ) (t : Node)
    → is_delete kind ≡ false
    → name ≢ []
    → is_watched kind name ≡ true
    → is_watched in_modify name ≡ true
    → exists (before (folder ++ name)) ≡ true
    → exists (before' (folder ++ name)) ≡ true
    → stat (folder ++ name) ≡ some s
    → stat' (folder ++ name) ≡ some s'
    → find_node (inner_path w (folder ++ name)) w.filetable ≡ some t
    → t.type ≡ file_download
    → (w1 : Watch) × (table : List Node) × (u : Node) × ((notify_event kind before stat now folder
            name w
          >>= notify_event in_modify before' stat' now' folder name)
        ≡ ok (report w1 table))
      × (find_node (inner_path w (folder ++ name)) table ≡ some u)
      × (u.type ≡ file_modify)
      × (version u ≡ record { timestamp = s'.1; size = s'.0 })
unfolding report
notify_event-again kind before stat now before' stat' now' folder name w s s' t d full watched
      watched' was was' there there' found done =
    let w1 = settled_watch w (folder ++ name) in
    let after : find_node (inner_path w (folder ++ name)) w1.filetable ≡ some (settled t) =
      rw
        (
          find_node-change (inner_path w (folder ++ name)) (inner_path w (folder ++ name)) settled
              w.filetable (λ u. refl),
          str_eq_refl (inner_path w (folder ++ name)),
          found,
        )
        refl in
    (
      w1,
      edited w1 (folder ++ name) s',
      rewritten file_modify (info_of w1 (folder ++ name) s') (settled t),
      rw
          (notify_event-settles kind before stat now folder name w s t d full watched was there
            found done)
          (notify_event-edited before' stat' now' folder name w1 s' (settled t) full watched' was'
            there' after (omega arith) (omega arith)),
      find_node-edited w1 (folder ++ name) s' (settled t) after,
      refl,
      refl,
    )
