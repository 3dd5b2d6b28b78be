-- ===== src/Tracker/Merge/Origin.antt =====
-- Where the names and times in the tracker's table come from: an announcement or the table before.
use dart_sync.Base.{
  ℕ, ◌≡◌, refl, sym, subst, true, false, Bool, Option, none, some, List, [], ◌∷◌, CString, str_eq,
  str_eq_iff, All, All-append, Bool-cases, inl, inr, if_cases, Option-cases, ◌∙◌, ok, ◌&&◌, ◌||◌,
  ◌==◌, ltb,
}
use dart_sync.Table.{Node}
use dart_sync.Tracker.Merge.{
  update_entry, new_entry, find_update, add_unless, merge_file, merge_files, update_filetable,
}
use dart_sync.Tracker.Merge.Newest.{entries}

-- A predicate of the name and the time of each entry.
module _ (Seen : CString → ℕ → Type 0) where
  abbrev pub AllSeen : List Node → Type 0
  AllSeen = All λ t. Seen t.name t.timestamp

  update_entry-Seen :
      (t p : Node)
      → str_eq t.name p.name ≡ true
      → Seen t.name t.timestamp
      → Seen p.name p.timestamp
      → Seen (update_entry t p).name (update_entry t p).timestamp
  unfolding update_entry
  update_entry-Seen t p hit old new =
      if_cases (λ (u : Node). Seen u.name u.timestamp)
        (t.timestamp == p.timestamp && t.size == p.size) (λ _. old)
        (λ _.
          if_cases (λ (u : Node). Seen u.name u.timestamp)
            ((t.timestamp == p.timestamp && ltb t.size p.size) || ltb t.timestamp p.timestamp)
            (λ _. subst (λ n. Seen n p.timestamp) (sym ((str_eq_iff t.name p.name).0 hit)) new)
            (λ _. old))

  find_update-AllSeen :
      (p : Node) (table : List Node)
      → Seen p.name p.timestamp
      → AllSeen table
      → AllSeen (find_update p table).0
  unfolding find_update
  find_update-AllSeen p [] new a = tt
  find_update-AllSeen p (t ∷ rest) new a = elim (Bool-cases (str_eq t.name p.name)) [
    | inl hit ↦ rw hit (update_entry-Seen t p hit (a.0) new, a.1)
    | inr miss ↦ rw miss (a.0, find_update-AllSeen p rest new (a.1))
  ]

  add_unless-AllSeen :
      (p : Node) (r : List Node × Bool)
      → Seen p.name p.timestamp
      → AllSeen (r.0)
      → AllSeen (add_unless p r)
  unfolding add_unless new_entry
  add_unless-AllSeen p (table, true) new a = a
  add_unless-AllSeen p (table, false) new a =
      All-append (λ t. Seen t.name t.timestamp) table (new_entry p ∷ []) a (new, tt)

  merge_file-AllSeen :
      (table : List Node) (p : Node)
      → Seen p.name p.timestamp
      → AllSeen table
      → AllSeen (merge_file table p)
  unfolding merge_file
  merge_file-AllSeen table p new a =
      add_unless-AllSeen p (find_update p table) new (find_update-AllSeen p table new a)

  merge_files-AllSeen :
      (ft : Option (List Node)) (files : List Node)
      → AllSeen files
      → AllSeen (entries ft)
      → AllSeen (entries (merge_files ft files))
  unfolding merge_files
  merge_files-AllSeen none [] new a = a
  merge_files-AllSeen (some table) [] new a = a
  merge_files-AllSeen none (p ∷ files) new a =
      merge_files-AllSeen (some (merge_file [] p)) files (new.1) (merge_file-AllSeen [] p (new.0) a)
  merge_files-AllSeen (some table) (p ∷ files) new a =
      merge_files-AllSeen (some (merge_file table p)) files (new.1)
        (merge_file-AllSeen table p (new.0) a)

  pub update_filetable-AllSeen :
      (ft ft' : Option (List Node)) (files : List Node)
      → update_filetable ft files ≡ ok ft'
      → AllSeen files
      → AllSeen (entries ft)
      → AllSeen (entries ft')
  unfolding update_filetable
  update_filetable-AllSeen ft ft' files e new a = elim (Option-cases (merge_files ft files)) [
    | inl void ↦ cc (rw void at e)
    | inr (table, made) ↦
        let same : some table ≡ ft' = cc (rw made at e) in
        subst (λ f. AllSeen (entries f)) (made ∙ same) (merge_files-AllSeen ft files new a)
  ]

-- The first announcement, of one file.
pub update_filetable-first :
    (p : Node) → update_filetable none (p ∷ []) ≡ ok (some (new_entry p ∷ []))
unfolding update_filetable merge_file find_update add_unless merge_files
update_filetable-first p = refl
