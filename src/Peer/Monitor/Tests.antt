-- ===== src/Peer/Monitor/Tests.antt =====
-- peer/monitor.c, `notify`: events in a folder of two files.
use dart_sync.Base.{
  ◌≡◌, refl, ◌≢◌, inr, none, some, List, [], ◌∷◌, ◌++◌, CString, str_eq, ok, ◌>>=◌,
}
use dart_sync.Table.{Node, file_modify, file_download}
use dart_sync.Examples.{alice, notes, old_notes, todo_list}
use dart_sync.Tracker.Merge.Versions.{version}
use dart_sync.Peer.Sync.{find_node}
use dart_sync.Peer.Monitor.{Watch, Stat, report, Change, notify_event}
use dart_sync.Peer.Monitor.Again.{notify_event-again}
use dart_sync.Peer.Monitor.Echo.{notify_event-keeps_version}

-- The folder `s/`.
abbrev folder : CString
folder = 115 ∷ 47 ∷ []

abbrev downloaded : Node
downloaded = record old_notes { type = file_download }

abbrev watch : Watch
watch = record {
  sync_dir = folder;
  conn = 4;
  myip = alice;
  filetable = downloaded ∷ todo_list ∷ [];
  net = record { outcomes = []; sent = []; closed = [] };
}

abbrev there : Stat
there path = some (20, 9)

abbrev gone : Stat
gone path = none

there-some : there (folder ++ notes) ≢ none
there-some e = cc

notify_event-keeps_version_example :
    (w' : Watch) × (u : Node) × (notify_event Change.in_modify there there 9 folder notes watch
      ≡ ok w')
    × (find_node notes w'.filetable ≡ some u)
    × (version u ≡ version downloaded)
unfolding str_eq find_node
notify_event-keeps_version_example =
    notify_event-keeps_version Change.in_modify there there 9 folder notes watch downloaded refl
      (λ e. cc) (λ _. there-some) refl (inr refl)

-- The creation of the copy and its first bytes are noticed one after the other.
notify_event-again_example :
    (w1 : Watch) × (table : List Node) × (u : Node) × ((notify_event Change.in_create there there 9
          folder notes watch
        >>= notify_event Change.in_modify there there 9 folder notes)
      ≡ ok (report w1 table))
    × (find_node notes table ≡ some u)
    × (u.type ≡ file_modify)
    × (version u ≡ record { timestamp = 9; size = 20 })
unfolding str_eq find_node
notify_event-again_example =
    notify_event-again Change.in_create there there 9 there there 9 folder notes watch (20, 9)
      (20, 9) downloaded refl (λ e. cc e) refl refl refl refl refl refl refl refl
