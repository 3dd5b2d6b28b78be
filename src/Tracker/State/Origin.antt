-- ===== src/Tracker/State/Origin.antt =====
-- A departure keeps the names and times in the tracker's table.
use dart_sync.Base.{ℕ, Option, none, some, List, [], ◌∷◌, CString}
use dart_sync.Table.{Node}
use dart_sync.Tracker.Merge.Newest.{entries}
use dart_sync.Tracker.Merge.Origin.{AllSeen}
use dart_sync.Tracker.State.{prune_table, prune_ft}

module _ (Seen : CString → ℕ → Type 0) where
  prune_table-AllSeen :
      (ip : CString) (table : List Node) → AllSeen Seen table → AllSeen Seen (prune_table ip table)
  unfolding prune_table
  prune_table-AllSeen ip [] a = tt
  prune_table-AllSeen ip (t ∷ rest) a = (a.0, prune_table-AllSeen ip rest (a.1))

  pub prune_ft-AllSeen :
      (ip : CString) (ft : Option (List Node))
      → AllSeen Seen (entries ft)
      → AllSeen Seen (entries (prune_ft ip ft))
  unfolding prune_ft
  prune_ft-AllSeen ip none a = a
  prune_ft-AllSeen ip (some table) a = prune_table-AllSeen ip table a
