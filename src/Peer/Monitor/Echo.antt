-- ===== src/Peer/Monitor/Echo.antt =====
-- The monitor and downloads: what `notify` must not tell the tracker, and where it goes wrong.
use dart_sync.Base.{
  ℕ, ◌≡◌, refl, ◌≢◌, ◌⊎◌, inl, inr, true, false, ◌&&◌, ◌||◌, none, some, [], ◌++◌, CString,
  str_eq_refl, arith, Outcome, ok, Bool-cases, Option-cases,
}
use dart_sync.Table.{Node, file_download, file_downloading}
use dart_sync.Peer.Sync.{find_node, change}
use dart_sync.Peer.Sync.Find.{find_node-change}
use dart_sync.Tracker.Merge.Invariant.{Unique}
use dart_sync.Peer.Sync.Names.{change-Unique, append-Unique}
use dart_sync.Tracker.Merge.Versions.{version}
use dart_sync.Peer.Monitor.{
  Watch, Stat, inner_path, report, created, settled, file_added, file_modified, Change, is_watched,
  is_delete, exists, dispatch, dropping_flag, notify_event,
}
use dart_sync.Peer.Monitor.Effect.{
  Times, Noticed, ignored, altered, erased, appended, erased_at, filetable-report,
  get_file_info-some, append-not_nil,
}
use dart_sync.Peer.Monitor.Effect.Event.{notify_event-Noticed}

-- An event about a named file that does not vanish between the two calls of stat keeps the names
-- of the table unique.
pub notify_event-Unique :
    (kind : Change) (before stat : Stat) (now : ℕ) (folder name : CString) (w : Watch)
    → name ≢ []
    → (exists (before (folder ++ name)) ≡ true → stat (folder ++ name) ≢ none)
    → Unique w.filetable
    → (w' : Watch) × (notify_event kind before stat now folder name w ≡ ok w') × Unique w'.filetable
notify_event-Unique kind before stat now folder name w full there u =
    let (w', got, how) = notify_event-Noticed kind before stat now folder name w full there in
    (w', got, after w' how)
  where
    after :
        (w' : Watch)
        → Noticed kind (Times kind stat now (folder ++ name)) (inner_path w (folder ++ name)) w w'
        → Unique w'.filetable
    after w' ignored = u
    after w' (erased at d seen) =
        rw filetable-report
          (change-Unique (inner_path w (folder ++ name)) (erased_at at) w.filetable (λ t. refl) u)
    after w' (altered f keep idle was times) =
        rw filetable-report (change-Unique (inner_path w (folder ++ name)) f w.filetable keep u)
    after w' (appended info same absent seen) =
        rw filetable-report (append-Unique w.filetable (created w.myip info) (rw same absent) u)

-- The entry of `n` is still of the version of `t`.
abbrev Keeps : CString → Node → Outcome Watch → Type 0
Keeps n t r =
    (w' : Watch) × (u : Node) × (r ≡ ok w')
    × (find_node n w'.filetable ≡ some u)
    × (version u ≡ version t)

module _ (stat : Stat) (path : CString) (w : Watch) (t : Node)
    (found : find_node (inner_path w path) w.filetable ≡ some t)
    (how : (t.type ≡ file_downloading) ⊎ (t.type ≡ file_download)) where
  untouched-Keeps : Keeps (inner_path w path) t (ok w)
  untouched-Keeps = (w, t, refl, found, refl)

  settled-Keeps :
      Keeps (inner_path w path) t (ok (report w (change (inner_path w path) settled w.filetable)))
  settled-Keeps = (
    report w (change (inner_path w path) settled w.filetable),
    settled t,
    refl,
    rw
        (
          filetable-report,
          find_node-change (inner_path w path) (inner_path w path) settled w.filetable (λ v. refl),
          str_eq_refl,
          found,
        )
        refl,
    refl,
  )

  file_added-Keeps :
      (s : ℕ × ℕ)
      → path ≢ []
      → stat path ≡ some s
      → Keeps (inner_path w path) t (file_added stat path w)
  unfolding file_added
  file_added-Keeps s full e =
      rw (get_file_info-some stat w path s full e, file_added, found)
        (elim how [ inl busy ↦ rw busy untouched-Keeps | inr done ↦ rw done settled-Keeps ])

  file_modified-Keeps :
      (s : ℕ × ℕ)
      → path ≢ []
      → stat path ≡ some s
      → Keeps (inner_path w path) t (dropping_flag (file_modified stat path w))
  unfolding file_modified
  file_modified-Keeps s full e =
      rw (get_file_info-some stat w path s full e, file_modified, found)
        (elim how [ inl busy ↦ rw busy untouched-Keeps | inr done ↦ rw done settled-Keeps ])

  dispatch-Keeps :
      (kind : Change) (now : ℕ)
      → is_delete kind ≡ false
      → path ≢ []
      → stat path ≢ none
      → Keeps (inner_path w path) t (dispatch kind stat now path w)
  dispatch-Keeps Change.in_open now d full there = untouched-Keeps
  dispatch-Keeps Change.in_delete now d full there = cc
  dispatch-Keeps Change.in_create now d full there = elim (Option-cases (stat path)) [
    | inl gone ↦ absurd (there gone)
    | inr (s, e) ↦ file_added-Keeps s full e
  ]
  dispatch-Keeps Change.in_modify now d full there = elim (Option-cases (stat path)) [
    | inl gone ↦ absurd (there gone)
    | inr (s, e) ↦ file_modified-Keeps s full e
  ]

-- A file that is being downloaded or was downloaded and not changed since keeps its version in the
-- table when its creation or modification is noticed and the file does not vanish between the two
-- calls of stat.
pub notify_event-keeps_version :
    (kind : Change) (before stat : Stat) (now : ℕ) (folder name : CString) (w : Watch) (t : Node)
    → is_delete kind ≡ false
    → name ≢ []
    → (exists (before (folder ++ name)) ≡ true → stat (folder ++ name) ≢ none)
    → find_node (inner_path w (folder ++ name)) w.filetable ≡ some t
    → (t.type ≡ file_downloading) ⊎ (t.type ≡ file_download)
    → (w' : Watch) × (u : Node) × (notify_event kind before stat now folder name w ≡ ok w')
      × (find_node (inner_path w (folder ++ name)) w'.filetable ≡ some u)
      × (version u ≡ version t)
unfolding notify_event
notify_event-keeps_version kind before stat now folder name w t d full there found how =
    elim (Bool-cases
      (is_watched kind name && (is_delete kind || exists (before (folder ++ name))))) [
        | inr passed ↦ (w, t, rw passed refl, found, refl)
        | inl taken ↦ rw taken (
            dispatch-Keeps stat (folder ++ name) w t found how kind now d
              (append-not_nil folder name full) (there (ground (arith, taken, d))))
      ]
