-- ===== src/Peer/Monitor/Effect/Event.antt =====
-- `fileAdded`, `fileDeleted`, `fileModified` and `notify`: an event that does not fault does what
-- Effect lists.
use dart_sync.Base.{
  ℕ, ◌≡◌, refl, ◌≢◌, inl, inr, Bool, true, false, ◌&&◌, ◌||◌, none, some, List, [], ◌∷◌, ◌++◌,
  CString, arith, ok, Bool-cases, Option-cases, ◌==◌,
}
use dart_sync.Table.{Node, file_create, file_modify, file_delete, file_download, file_downloading}
use dart_sync.Peer.Sync.{find_node, change}
use dart_sync.Peer.Monitor.{
  Watch, Stat, inner_path, report, created, rewritten, settled, file_added, file_deleted,
  file_modified, without_info, dropping_flag, Change, is_watched, is_delete, exists, dispatch,
  notify_event,
}
use dart_sync.Peer.Monitor.Effect.{
  Times, Noticed, ignored, altered, erased, appended, info_of, get_file_info-some,
  get_file_info-none, append-not_nil,
}

same_type :
    (n : CString) (table : List Node) (node : Node)
    → find_node n table ≡ some node
    → (node.type == file_downloading) ≡ false
    → (t : Node) → find_node n table ≡ some t
    → (t.type == file_downloading) ≡ false
same_type n table node found idle t e = let same : node ≡ t = cc (found, e) in rw (← same) idle

file_added-Noticed :
    (kind : Change) (stat : Stat) (now : ℕ) (path : CString) (w : Watch) (s : ℕ × ℕ)
    → path ≢ []
    → stat path ≡ some s
    → (w' : Watch) × (file_added stat path w ≡ ok w')
      × Noticed kind (Times kind stat now path) (inner_path w path) w w'
unfolding file_added
file_added-Noticed kind stat now path w s full e =
    rw (get_file_info-some stat w path s full e, file_added)
      (elim (Option-cases (find_node (inner_path w path) w.filetable)) [
        | inl absent ↦ (
          report w (w.filetable ++ created w.myip (info_of w path s) ∷ []),
          rw absent refl,
          appended (info_of w path s) refl absent (inr (s, e, refl)),
        )
        | inr (node, found) ↦ rw found (elim (Bool-cases (node.type == file_delete)) [
          | inl gone ↦ (
            report w
                (change (inner_path w path) (rewritten file_create (info_of w path s)) w.filetable),
            rw gone refl,
            altered (rewritten file_create (info_of w path s)) (λ t. refl) (λ t. refl)
                (same_type (inner_path w path) w.filetable node found (ground (arith, gone)))
                (λ t. inr (inr (s, e, refl))),
          )
          | inr live ↦ elim (Bool-cases (node.type == file_downloading)) [
            | inl busy ↦ (w, rw (live, busy) refl, ignored)
            | inr idle ↦ elim (Bool-cases (node.type == file_download)) [
              | inl done ↦ (
                report w (change (inner_path w path) settled w.filetable),
                rw (live, idle, done) refl,
                altered settled (λ t. refl) (λ t. refl)
                    (same_type (inner_path w path) w.filetable node found idle) (λ t. inl refl),
              )
              | inr plain ↦ (w, rw (live, idle, plain) refl, ignored)
            ]
          ]
        ])
      ])

file_deleted-Noticed :
    (kind : Change) (stat : Stat) (now : ℕ) (path : CString) (w : Watch)
    → is_delete kind ≡ true
    → Noticed kind (Times kind stat now path) (inner_path w path) w (file_deleted now path w).1
unfolding file_deleted
file_deleted-Noticed kind stat now path w d =
    elim (Option-cases (find_node (inner_path w path) w.filetable)) [
      | inl absent ↦ rw (absent, file_deleted) ignored
      | inr (node, found) ↦ rw (found, file_deleted) (erased now d (inl (d, refl)))
    ]

file_modified-Noticed :
    (kind : Change) (stat : Stat) (now : ℕ) (path : CString) (w : Watch) (s : ℕ × ℕ)
    → path ≢ []
    → stat path ≡ some s
    → (r : Bool × Watch) × (file_modified stat path w ≡ ok r)
      × Noticed kind (Times kind stat now path) (inner_path w path) w r.1
unfolding file_modified
file_modified-Noticed kind stat now path w s full e =
    rw (get_file_info-some stat w path s full e, file_modified)
      (elim (Option-cases (find_node (inner_path w path) w.filetable)) [
        | inl absent ↦ ((false, w), rw absent refl, ignored)
        | inr (node, found) ↦ rw found (elim (Bool-cases (node.type == file_downloading)) [
          | inl busy ↦ ((true, w), rw busy refl, ignored)
          | inr idle ↦ elim (Bool-cases (node.type == file_download)) [
            | inl done ↦ (
              (true, report w (change (inner_path w path) settled w.filetable)),
              rw (idle, done) refl,
              altered settled (λ t. refl) (λ t. refl)
                  (same_type (inner_path w path) w.filetable node found idle) (λ t. inl refl),
            )
            | inr plain ↦ (
              (
                true,
                report w (
                    change (inner_path w path) (rewritten file_modify (info_of w path s))
                      w.filetable),
              ),
              rw (idle, plain) refl,
              altered (rewritten file_modify (info_of w path s)) (λ t. refl) (λ t. refl)
                  (same_type (inner_path w path) w.filetable node found idle)
                  (λ t. inr (inr (s, e, refl))),
            )
          ]
        ])
      ])

-- An event whose file is still there for the second `stat`, if it was for the first, is taken in.
dispatch-Noticed :
    (kind : Change) (stat : Stat) (now : ℕ) (path : CString) (w : Watch)
    → path ≢ []
    → (is_delete kind ≡ false → stat path ≢ none)
    → (w' : Watch) × (dispatch kind stat now path w ≡ ok w')
      × Noticed kind (Times kind stat now path) (inner_path w path) w w'
dispatch-Noticed Change.in_open stat now path w full there = (w, refl, ignored)
dispatch-Noticed Change.in_delete stat now path w full there =
    ((file_deleted now path w).1, refl, file_deleted-Noticed Change.in_delete stat now path w refl)
dispatch-Noticed Change.in_create stat now path w full there = elim (Option-cases (stat path)) [
  | inl gone ↦ absurd (there refl gone)
  | inr (s, e) ↦ file_added-Noticed Change.in_create stat now path w s full e
]
dispatch-Noticed Change.in_modify stat now path w full there = elim (Option-cases (stat path)) [
  | inl gone ↦ absurd (there refl gone)
  | inr (s, e) ↦
      let ((b, w'), got, how) = file_modified-Noticed Change.in_modify stat now path w s full e in
      (w', rw got refl, how)
]

pub notify_event-Noticed :
    (kind : Change) (before stat : Stat) (now : ℕ) (folder name : CString) (w : Watch)
    → name ≢ []
    → (exists (before (folder ++ name)) ≡ true → stat (folder ++ name) ≢ none)
    → (w' : Watch) × (notify_event kind before stat now folder name w ≡ ok w')
      × Noticed kind (Times kind stat now (folder ++ name)) (inner_path w (folder ++ name)) w w'
unfolding notify_event
notify_event-Noticed kind before stat now folder name w full there =
    elim (Bool-cases
      (is_watched kind name && (is_delete kind || exists (before (folder ++ name))))) [
        | inr passed ↦ (w, rw passed refl, ignored)
        | inl taken ↦ rw taken (
            dispatch-Noticed kind stat now (folder ++ name) w (append-not_nil folder name full)
              (λ d. there (ground (arith, taken, d))))
      ]

without_info-ok :
    (w w' : Watch) (table : List Node) → dropping_flag (without_info w table) ≡ ok w' → w ≡ w'
without_info-ok w w' [] e = cc e
without_info-ok w w' (_ ∷ _) e = cc e

-- What does not fault had this effect.
dispatch-ok :
    (kind : Change) (stat : Stat) (now : ℕ) (path : CString) (w w' : Watch)
    → path ≢ []
    → dispatch kind stat now path w ≡ ok w'
    → Noticed kind (Times kind stat now path) (inner_path w path) w w'
unfolding file_added file_modified
dispatch-ok Change.in_open stat now path w w' full e =
    let same : w ≡ w' = cc e in rw (← same) ignored
dispatch-ok Change.in_delete stat now path w w' full e =
    let same : (file_deleted now path w).1 ≡ w' = cc e in
    rw (← same) (file_deleted-Noticed Change.in_delete stat now path w refl)
dispatch-ok Change.in_create stat now path w w' full e = elim (Option-cases (stat path)) [
  | inl gone ↦ cc (rw (get_file_info-none stat w path gone, file_added) at e)
  | inr (s, there) ↦
      let (v, got, how) = file_added-Noticed Change.in_create stat now path w s full there in
      let same : v ≡ w' = cc (got, e) in rw (← same) how
]
dispatch-ok Change.in_modify stat now path w w' full e = elim (Option-cases (stat path)) [
  | inl gone ↦
      let same : w ≡ w' =
        without_info-ok w w' w.filetable
          (rw (get_file_info-none stat w path gone, file_modified) at e) in
      rw (← same) ignored
  | inr (s, there) ↦
      let ((b, v), got, how) =
        file_modified-Noticed Change.in_modify stat now path w s full there in
      let same : v ≡ w' = cc (rw got at e) in rw (← same) how
]

pub notify_event-ok :
    (kind : Change) (before stat : Stat) (now : ℕ) (folder name : CString) (w w' : Watch)
    → name ≢ []
    → notify_event kind before stat now folder name w ≡ ok w'
    → Noticed kind (Times kind stat now (folder ++ name)) (inner_path w (folder ++ name)) w w'
unfolding notify_event
notify_event-ok kind before stat now folder name w w' full e =
    elim (Bool-cases
      (is_watched kind name && (is_delete kind || exists (before (folder ++ name))))) [
        | inr passed ↦ let same : w ≡ w' = cc (rw passed at e) in rw (← same) ignored
        | inl taken ↦
            dispatch-ok kind stat now (folder ++ name) w w' (append-not_nil folder name full)
              (rw taken at e)
      ]
