-- ===== src/Tracker/Merge/Tests.antt =====
-- tracker/tracker.c, `update_filetable`: runs on small tables.
use dart_sync.Base.{
  ◌≡◌, refl, ◌⊎◌, arith, Option, none, some, List, [], ◌∷◌, CString, str_eq, ok, fault,
}
use dart_sync.Table.{Node}
use dart_sync.Examples.{
  notes, edited_notes, old_notes, new_notes, todo_list, old_table, two_files-IsTable,
}
use dart_sync.Tracker.Merge.{
  clear_slots, update_entry, new_entry, find_update, add_unless, merge_file, merge_files,
  display_filetable, update_filetable,
}
use dart_sync.Tracker.Merge.Versions.{join, newest}
use dart_sync.Tracker.Merge.Newest.{entries, newest-update_filetable, update_filetable_comm}
use dart_sync.Tracker.Merge.Invariant.{IsTable, update_filetable-IsTable}
use dart_sync.Tracker.Merge.Sources.{Sourced, later, update_filetable-Sourced}

newest-update_filetable_example :
    (table : List Node) × (update_filetable old_table (new_notes ∷ []) ≡ ok (some table))
    × ((n : CString)
        → newest n table ≡ join (newest n (entries old_table)) (newest n (new_notes ∷ [])))
newest-update_filetable_example = newest-update_filetable old_table new_notes []

update_filetable-IsTable_example :
    (update_filetable old_table (new_notes ∷ []) ≡ fault)
    ⊎ ((ft' : Option (List Node)) × (update_filetable old_table (new_notes ∷ []) ≡ ok ft')
        × IsTable (entries ft'))
update_filetable-IsTable_example =
    update_filetable-IsTable old_table (new_notes ∷ []) two_files-IsTable

abbrev first_announcement : Option (List Node)
first_announcement = some (old_notes ∷ [])

update_filetable_comm_example :
    newest notes (entries (some (new_notes ∷ []))) ≡ newest notes (entries (some (new_notes ∷ [])))
unfolding update_filetable merge_files display_filetable merge_file add_unless find_update
    update_entry new_entry clear_slots str_eq
update_filetable_comm_example =
    update_filetable_comm notes none first_announcement (some (new_notes ∷ []))
      (some (new_notes ∷ [])) (some (new_notes ∷ [])) (old_notes ∷ []) (new_notes ∷ []) refl refl
      refl refl

update_filetable-Sourced_example :
    (table : List Node) × (update_filetable old_table (new_notes ∷ []) ≡ ok (some table))
    × Sourced (later (new_notes ∷ []) (old_notes ∷ todo_list ∷ [])) table
unfolding str_eq
update_filetable-Sourced_example =
    update_filetable-Sourced old_table new_notes [] (old_notes ∷ todo_list ∷ []) two_files-IsTable
      (λ x h. ground arith, (λ x h. ground arith, tt))

-- The newer version takes the place of the older one.
pub update_filetable-new_notes :
    update_filetable old_table (new_notes ∷ []) ≡ ok (some (new_notes ∷ todo_list ∷ []))
unfolding update_filetable merge_files display_filetable merge_file add_unless find_update
    update_entry clear_slots str_eq
update_filetable-new_notes = refl

pub update_filetable-first : update_filetable none (new_notes ∷ []) ≡ ok (some (new_notes ∷ []))
unfolding update_filetable merge_files display_filetable merge_file add_unless find_update new_entry
    clear_slots str_eq
update_filetable-first = refl

pub update_filetable-edited_notes :
    update_filetable old_table (edited_notes ∷ []) ≡ ok (some (edited_notes ∷ todo_list ∷ []))
unfolding update_filetable merge_files display_filetable merge_file add_unless find_update
    update_entry clear_slots str_eq
update_filetable-edited_notes = refl
