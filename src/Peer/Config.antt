-- ===== src/Peer/Config.antt =====
-- peer/monitor.c: `readConfigFile`, which finds the sync folder, and `endsWith`.
pub mod Path
use dart_sync.Base.{
  ℕ, zero, suc, ◌-◌, Bool, true, false, Option, none, some, List, [], ◌∷◌, ◌++◌, CString, str_eq,
  is_empty, ltb, ◌==◌, if◌then◌else◌, length, get_or, take, drop, Outcome, ok, fault, ◌>>=◌,
}
use dart_sync.Table.{file_name_len}
use dart_sync.Peer.Transfer.{until_zero}

-- Two null pointers aside, which no caller passes.
pub ends_with : CString → CString → Bool
ends_with str suffix =
    if ltb (length str) (length suffix)
    then false
    else str_eq (take (length suffix) (drop (length str - length suffix) str)) suffix

-- `fgets(line, n + 1, fp)`: up to `n` bytes, up to the end of the first line and with it.
pub fgets : ℕ → List ℕ → List ℕ
fgets zero bytes = []
fgets (suc n) [] = []
fgets (suc n) (b ∷ bytes) = let rest = fgets n bytes in if b == 10 then 10 ∷ [] else b ∷ rest

abbrev pub last_byte : CString → ℕ
last_byte line = get_or line (length line - 1) 0

-- What the line becomes. An empty line is read before its start, and a `/` behind the end of
-- `char[FILE_NAME_LEN]` is a fault.
pub sync_path : CString → Outcome CString
sync_path line =
    if is_empty line
    then fault
    else if last_byte line == 47
    then ok line
    else if ltb (suc (length line)) file_name_len
    then ok (line ++ 47 ∷ [])
    else fault

-- `sync_dir`, and the folders that `mkdir` made. `none` is a file that cannot be opened, and NULL as
-- the result; `exists` is what `stat` says.
pub read_config_file : Option (List ℕ) → (CString → Bool) → Outcome (Option CString × List CString)
read_config_file none exists = ok (none, [])
read_config_file (some bytes) exists = do
  sync_dir ← sync_path (until_zero (fgets (file_name_len - 1) bytes))
  ok (some sync_dir, if exists sync_dir then [] else sync_dir ∷ [])
