-- ===== src/Peer/Monitor/Reports.antt =====
-- `notify`: an event is either ignored or reported with the whole table, and changes one entry.
use dart_sync.Base.{
  ℕ, ◌≡◌, refl, ◌≢◌, ◌⊎◌, inl, inr, true, false, none, [], ◌++◌, CString, str_eq, ok,
}
use dart_sync.Peer.Sync.{find_node}
use dart_sync.Peer.Monitor.{Watch, Stat, inner_path, report, Change, exists, notify_event}
use dart_sync.Peer.Monitor.Effect.{
  Times, Noticed, ignored, altered, erased, appended, find_node-Noticed,
}
use dart_sync.Peer.Monitor.Effect.Event.{notify_event-Noticed}

-- An event about a named file that does not vanish between the two calls of stat never faults:
-- either nothing changes or the monitor sends its new table, and entries of other files stay.
pub notify_event-reports :
    (kind : Change) (before stat : Stat) (now : ℕ) (folder name : CString) (w : Watch)
    → name ≢ []
    → (exists (before (folder ++ name)) ≡ true → stat (folder ++ name) ≢ none)
    → (w' : Watch) × (notify_event kind before stat now folder name w ≡ ok w')
      × ((w' ≡ w) ⊎ (w' ≡ report w w'.filetable))
      × ((n : CString)
          → str_eq (inner_path w (folder ++ name)) n ≡ false
          → find_node n w'.filetable ≡ find_node n w.filetable)
notify_event-reports kind before stat now folder name w full there =
    let (w', got, how) = notify_event-Noticed kind before stat now folder name w full there in
    (
      w',
      got,
      sends w' how,
      λ n other.
          find_node-Noticed n (inner_path w (folder ++ name)) kind
            (Times kind stat now (folder ++ name)) w w' how other,
    )
  where
    sends :
        (w' : Watch)
        → Noticed kind (Times kind stat now (folder ++ name)) (inner_path w (folder ++ name)) w w'
        → (w' ≡ w) ⊎ (w' ≡ report w w'.filetable)
    sends w' ignored = inl refl
    sends w' (altered f keep idle was times) = inr (unfold report in refl)
    sends w' (erased at d seen) = inr (unfold report in refl)
    sends w' (appended info same absent seen) = inr (unfold report in refl)
