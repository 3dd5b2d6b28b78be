-- ===== src/Tracker/Merge/Sources.antt =====
-- Where the addresses in `newpeerip` come from: every peer that an entry lists has announced the
-- version that the entry shows.
use dart_sync.Base.{
  ◌≡◌, ap, subst, sym, Bool, true, false, ◌||◌, ◌&&◌, Option, none, some, List, [], ◌∷◌, CString,
  str_eq, str_eq_iff, str_eq_refl, arith, ok, Bool-cases, inl, inr, All, All-append, ◌==◌,
}
use dart_sync.Table.{Node}
use dart_sync.Tracker.Slots.{add_slot}
use dart_sync.Tracker.Slots.Wf.{listed, IsSlots}
use dart_sync.Tracker.Slots.Add.{add_slot_sound}
use dart_sync.Tracker.Merge.{
  announcer, update_entry, new_entry, find_update, add_unless, merge_file, merge_files,
  update_filetable, display_filetable,
}
use dart_sync.Tracker.Merge.Newest.{entries, merge_files-some}
use dart_sync.Tracker.Merge.Invariant.{
  IsTable, AllSlots, alone, update_entry_cases, merge_file-IsTable,
}
use dart_sync.Tracker.Merge.Versions.{Version, version}

-- The peer `x` is the sender of an entry of the history with this name and version.
abbrev pub announced : CString → Node → List Node → Bool
announced x t [] = false
announced x t (p ∷ history) =
    (str_eq p.name t.name
      && p.timestamp == t.timestamp
      && p.size == t.size
      && str_eq (announcer p) x)
    || announced x t history

abbrev pub Sourced : List Node → List Node → Type 0
Sourced history =
    All (λ t. (x : CString) → listed x t.newpeerip ≡ true → announced x t history ≡ true)

listed-alone : (x ip : CString) → listed x (alone ip) ≡ true → ip ≡ x
listed-alone x [] h = cc
listed-alone x (c ∷ s) h = ground (arith, str_eq_iff (c ∷ s) x)

update_entry-Sourced :
    (t p : Node) (history : List Node)
    → IsSlots t.newpeerip
    → str_eq t.name p.name ≡ true
    → ((x : CString) → listed x t.newpeerip ≡ true → announced x t history ≡ true)
    → (x : CString) → listed x (update_entry t p).newpeerip ≡ true
    → announced x (update_entry t p) (p ∷ history) ≡ true
update_entry-Sourced t p history w hit old x =
    update_entry_cases (λ u. listed x u.newpeerip ≡ true → announced x u (p ∷ history) ≡ true) t p w
      same new (λ h. ground (arith, old x h))
  where
    names : p.name ≡ t.name
    names = sym ((str_eq_iff t.name p.name).0 hit)

    same :
        version t ≡ version p
        → listed x (add_slot (announcer p) t.newpeerip) ≡ true
        → announced x (record t { newpeerip = add_slot (announcer p) t.newpeerip }) (p ∷ history)
          ≡ true
    same v h = ground (
      arith,
      add_slot_sound x (announcer p) t.newpeerip w h,
      old x,
      str_eq_iff (announcer p) x,
      (str_eq_iff p.name t.name).1 names,
      ap (λ (z : Version). z.timestamp) v,
      ap (λ (z : Version). z.size) v,
    )

    new :
        listed x (alone (announcer p)) ≡ true
        → announced x
            (record t {
              size = p.size;
              timestamp = p.timestamp;
              type = p.type;
              status = p.status;
              newpeerip = alone (announcer p);
            })
            (p ∷ history)
          ≡ true
    new h = ground (
      arith,
      listed-alone x (announcer p) h,
      str_eq_iff (announcer p) x,
      (str_eq_iff p.name t.name).1 names,
    )

Sourced-mono :
    (p : Node) (history table : List Node) → Sourced history table → Sourced (p ∷ history) table
Sourced-mono p history [] s = tt
Sourced-mono p history (t ∷ rest) s =
    (λ x h. ground (arith, s.0 x h), Sourced-mono p history rest s.1)

find_update-Sourced :
    (table : List Node) (p : Node) (history : List Node)
    → AllSlots table
    → Sourced history table
    → Sourced (p ∷ history) (find_update p table).0
unfolding find_update
find_update-Sourced [] p history w s = tt
find_update-Sourced (t ∷ rest) p history w s = elim (Bool-cases (str_eq t.name p.name)) [
  | inl hit ↦ rw hit (update_entry-Sourced t p history w.0 hit s.0, Sourced-mono p history rest s.1)
  | inr miss ↦ rw miss (λ x h. ground (arith, s.0 x h), find_update-Sourced rest p history w.1 s.1)
]

new_entry-Sourced :
    (p : Node) (history : List Node) (x : CString)
    → listed x (new_entry p).newpeerip ≡ true
    → announced x (new_entry p) (p ∷ history) ≡ true
unfolding new_entry
new_entry-Sourced p history x h =
    ground (arith, listed-alone x (announcer p) h, str_eq_iff (announcer p) x, str_eq_refl p.name)

merge_file-Sourced :
    (table : List Node) (p : Node) (history : List Node)
    → IsTable table
    → Sourced history table
    → Sourced (p ∷ history) (merge_file table p)
unfolding merge_file add_unless
merge_file-Sourced table p history w s =
    added (find_update p table) (find_update-Sourced table p history w.slots s)
  where
    added :
        (r : List Node × Bool) → Sourced (p ∷ history) r.0 → Sourced (p ∷ history) (add_unless p r)
    added (table', true) s' = s'
    added (table', false) s' =
        All-append _ table' (new_entry p ∷ []) s' (new_entry-Sourced p history, tt)

-- The announcements of a run, the latest first.
abbrev pub later : List Node → List Node → List Node
later [] history = history
later (p ∷ peer_ft) history = later peer_ft (p ∷ history)

merge_files-Sourced :
    (ft : Option (List Node)) (peer_ft history : List Node)
    → IsTable (entries ft)
    → Sourced history (entries ft)
    → Sourced (later peer_ft history) (entries (merge_files ft peer_ft))
unfolding merge_files
merge_files-Sourced none [] history w s = s
merge_files-Sourced (some t) [] history w s = s
merge_files-Sourced none (p ∷ peer_ft) history w s =
    merge_files-Sourced (some (merge_file [] p)) peer_ft (p ∷ history) (merge_file-IsTable [] p w)
      (merge_file-Sourced [] p history w tt)
merge_files-Sourced (some t) (p ∷ peer_ft) history w s =
    merge_files-Sourced (some (merge_file t p)) peer_ft (p ∷ history) (merge_file-IsTable t p w)
      (merge_file-Sourced t p history w s)

-- If every peer that an entry of a well-formed table lists has announced the entry's version, this
-- is so after update_filetable with a table that is not empty, the announced files added to the
-- history.
pub update_filetable-Sourced :
    (ft : Option (List Node)) (p : Node) (peer_ft history : List Node)
    → IsTable (entries ft)
    → Sourced history (entries ft)
    → (table : List Node) × (update_filetable ft (p ∷ peer_ft) ≡ ok (some table))
      × Sourced (later (p ∷ peer_ft) history) table
update_filetable-Sourced ft p peer_ft history w s =
    let (table, e) = merge_files-some ft p peer_ft in
    (
      table,
      unfold update_filetable display_filetable in rw e,
      subst (λ r. Sourced (later (p ∷ peer_ft) history) (entries r)) e
          (merge_files-Sourced ft (p ∷ peer_ft) history w s),
    )
