-- ===== src/Peer/Monitor/Effect.antt =====
-- `notify`: what one event about a file can do to the monitor's table, and what is sent of it.
pub mod Event
use dart_sync.Base.{
  ℕ, ◌≡◌, refl, ◌≢◌, ◌⊎◌, inl, inr, Bool, true, false, ◌&&◌, ◌||◌, none, some, List, [], ◌∷◌, ◌++◌,
  CString, str_eq, is_empty, arith, ok, Bool-cases, Option-cases, ◌==◌,
}
use dart_sync.Table.{Node, file_create, file_modify, file_delete, file_download, file_downloading}
use dart_sync.Peer.Sync.{find_node, change}
use dart_sync.Peer.Sync.Find.{find_node-change, find_node-append_other}
use dart_sync.Peer.Monitor.{
  FileInfo, Watch, Stat, inner_path, get_file_info, report, created, rewritten, settled, file_added,
  file_deleted, file_modified, Change, is_watched, is_delete, exists, dispatch, notify_event,
}

abbrev pub erased_at : ℕ → Node → Node
erased_at now t = record t { timestamp = now; type = file_delete }

-- The times that an event can put into the table: that of the deletion, or what `stat` gives.
abbrev pub Times : Change → Stat → ℕ → CString → ℕ → Type 0
Times kind stat now path time =
    ((is_delete kind ≡ true) × (time ≡ now)) ⊎ ((s : ℕ × ℕ) × (stat path ≡ some s) × (time ≡ s.1))

-- What one event about the file `n` can do, where `seen` are the times that it can put into the table.
pub data Noticed (kind : Change) (seen : ℕ → Type 0) (n : CString) (w : Watch)
    : Watch → Type 0 where
  ignored : Noticed kind seen n w w
  altered :
      (f : Node → Node)
      → ((t : Node) → (f t).name ≡ t.name)
      → ((t : Node) → ((f t).type == file_downloading) ≡ false)
      → ((t : Node) → find_node n w.filetable ≡ some t → (t.type == file_downloading) ≡ false)
      → ((t : Node) → ((f t).timestamp ≡ t.timestamp) ⊎ seen (f t).timestamp)
      → Noticed kind seen n w (report w (change n f w.filetable))
  erased :
      (now : ℕ)
      → is_delete kind ≡ true
      → seen now
      → Noticed kind seen n w (report w (change n (erased_at now) w.filetable))
  appended :
      (info : FileInfo)
      → info.filepath ≡ n
      → find_node n w.filetable ≡ none
      → seen info.last_modify_time
      → Noticed kind seen n w (report w (w.filetable ++ created w.myip info ∷ []))

abbrev pub info_of : Watch → CString → ℕ × ℕ → FileInfo
info_of w path (size, mtime) = record {
  filepath = inner_path w path;
  size = size;
  last_modify_time = mtime;
}

pub get_file_info-some :
    (stat : Stat) (w : Watch) (path : CString) (s : ℕ × ℕ)
    → path ≢ []
    → stat path ≡ some s
    → get_file_info stat w path ≡ some (info_of w path s)
unfolding get_file_info
get_file_info-some stat w [] s full e = absurd (full refl)
get_file_info-some stat w (c ∷ cs) s full e = rw e refl

pub append-not_nil : (folder name : CString) → name ≢ [] → folder ++ name ≢ []
append-not_nil [] name h e = h e
append-not_nil (c ∷ cs) name h e = cc

pub filetable-report : (w : Watch) (table : List Node) → (report w table).filetable ≡ table
unfolding report
filetable-report w table = refl

pub get_file_info-none :
    (stat : Stat) (w : Watch) (path : CString) → stat path ≡ none → get_file_info stat w path ≡ none
unfolding get_file_info
get_file_info-none stat w path gone = elim (Bool-cases (is_empty path)) [
  | inl e ↦ rw e refl
  | inr e ↦ rw (e, gone) refl
]

-- An event about one file keeps the entries of all others.
pub find_node-Noticed :
    (n m : CString) (kind : Change) (seen : ℕ → Type 0) (w w' : Watch)
    → Noticed kind seen m w w'
    → str_eq m n ≡ false
    → find_node n w'.filetable ≡ find_node n w.filetable
find_node-Noticed n m kind seen w w' ignored other = refl
find_node-Noticed n m kind seen w w' (altered f keep idle was times) other =
    rw (filetable-report, find_node-change n m f w.filetable keep, other) refl
find_node-Noticed n m kind seen w w' (erased now d at) other =
    rw (filetable-report, find_node-change n m (erased_at now) w.filetable (λ t. refl), other) refl
find_node-Noticed n m kind seen w w' (appended info same absent at) other =
    rw filetable-report (find_node-append_other n w.filetable (created w.myip info) (rw same other))
