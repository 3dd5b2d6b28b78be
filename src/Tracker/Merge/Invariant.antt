-- ===== src/Tracker/Merge/Invariant.antt =====
-- `update_filetable` on whole tables: names stay unique and every `newpeerip` well-formed.
use dart_sync.Base.{
  ◌⊎◌, ◌≡◌, refl, ap, subst, ◌∙◌, sym, Bool, true, false, ◌||◌, ◌&&◌, Option, none, some, List, [],
  ◌∷◌, ◌++◌, CString, str_eq, str_eq_iff, arith, ok, fault, if_cases, All-append, inl, inr, All,
  ◌==◌, length, set,
}
use dart_sync.Table.{Node}
use dart_sync.Tracker.Slots.{add_slot}
use dart_sync.Tracker.Slots.Wf.{IsSlots}
use dart_sync.Tracker.Slots.Add.{add_slot-IsSlots}
use dart_sync.Tracker.Merge.{
  clear_slots, announcer, update_entry, new_entry, find_update, add_unless, merge_file, merge_files,
  update_filetable,
}
use dart_sync.Tracker.Merge.Newest.{entries}
use dart_sync.Tracker.Merge.Versions.{version}

abbrev pub has_name : CString → List Node → Bool
has_name n [] = false
has_name n (t ∷ rest) = str_eq t.name n || has_name n rest

abbrev pub Unique : List Node → Type 0
Unique [] = Unit
Unique (t ∷ rest) = (has_name t.name rest ≡ false) × Unique rest

abbrev pub AllSlots : List Node → Type 0
AllSlots = All (λ t. IsSlots t.newpeerip)

-- A table of the tracker: one entry to a name, and in each a well-formed list of peers.
pub record IsTable (table : List Node) : Type 0 where
  pub unique : Unique table
  pub slots : AllSlots table

-- The array that a new version leaves: the announcer alone.
abbrev pub alone : CString → List CString
alone ip = ip ∷ [] ∷ [] ∷ [] ∷ [] ∷ []

alone-IsSlots : (ip : CString) → IsSlots (alone ip)
alone-IsSlots [] = record {
  places = refl;
  packed = (refl, (refl, (refl, (refl, tt))));
  distinct = tt;
}
alone-IsSlots (c ∷ s) = record {
  places = refl;
  packed = (refl, (refl, (refl, tt)));
  distinct = (refl, tt);
}

renewed :
    (ip : CString) (ips : List CString) → length ips ≡ 5 → clear_slots 4 (set ips 0 ip) 1 ≡ alone ip
unfolding clear_slots
renewed ip [] h = absurd (omega arith)
renewed ip (a ∷ []) h = absurd (omega arith)
renewed ip (a ∷ b ∷ []) h = absurd (omega arith)
renewed ip (a ∷ b ∷ c ∷ []) h = absurd (omega arith)
renewed ip (a ∷ b ∷ c ∷ d ∷ []) h = absurd (omega arith)
renewed ip (a ∷ b ∷ c ∷ d ∷ e ∷ []) h = refl
renewed ip (a ∷ b ∷ c ∷ d ∷ e ∷ f ∷ r) h = absurd (omega arith)

-- The three cases of `update_entry`, with what each leaves in `newpeerip`.
pub update_entry_cases {ℓ} :
    (P : Node → Type ℓ) (t p : Node)
    → IsSlots t.newpeerip
    → (version t ≡ version p → P (record t { newpeerip = add_slot (announcer p) t.newpeerip }))
    → P (record t {
      size = p.size;
      timestamp = p.timestamp;
      type = p.type;
      status = p.status;
      newpeerip = alone (announcer p);
    })
    → P t
    → P (update_entry t p)
unfolding update_entry
update_entry_cases P t p w same new old = rw (renewed (announcer p) t.newpeerip w.places) (
    if_cases P (t.timestamp == p.timestamp && t.size == p.size) (λ e. same (ground arith))
      (λ _. if_cases P _ (λ _. new) (λ _. old)))

update_entry-IsSlots : (t p : Node) → IsSlots t.newpeerip → IsSlots (update_entry t p).newpeerip
update_entry-IsSlots t p w =
    update_entry_cases (λ u. IsSlots u.newpeerip) t p w
      (λ _. add_slot-IsSlots (announcer p) t.newpeerip w) (alone-IsSlots (announcer p)) w

name-update_entry : (t p : Node) → IsSlots t.newpeerip → (update_entry t p).name ≡ t.name
name-update_entry t p w = update_entry_cases (λ u. u.name ≡ t.name) t p w (λ _. refl) refl refl

-- Names, found or not.
has_name-find_update :
    (n : CString) (table : List Node) (p : Node)
    → AllSlots table
    → has_name n (find_update p table).0 ≡ has_name n table
unfolding find_update
has_name-find_update n [] p w = refl
has_name-find_update n (t ∷ rest) p w =
    ground (arith, name-update_entry t p w.0, has_name-find_update n rest p w.1)

found-has_name : (table : List Node) (p : Node) → (find_update p table).1 ≡ has_name p.name table
unfolding find_update
found-has_name [] p = refl
found-has_name (t ∷ rest) p = ground (arith, found-has_name rest p)

Unique-find_update :
    (table : List Node) (p : Node) → AllSlots table → Unique table → Unique (find_update p table).0
unfolding find_update
Unique-find_update [] p w u = tt
Unique-find_update (t ∷ rest) p w u = ground (
  arith,
  name-update_entry t p w.0,
  has_name-find_update t.name rest p w.1,
  Unique-find_update rest p w.1 u.1,
)

AllSlots-find_update :
    (table : List Node) (p : Node) → AllSlots table → AllSlots (find_update p table).0
unfolding find_update
AllSlots-find_update [] p w = tt
AllSlots-find_update (t ∷ rest) p w =
    ground (arith, update_entry-IsSlots t p w.0, AllSlots-find_update rest p w.1)

has_name-append :
    (n : CString) (xs ys : List Node) → has_name n (xs ++ ys) ≡ (has_name n xs || has_name n ys)
has_name-append n [] ys = refl
has_name-append n (t ∷ rest) ys = ground (arith, has_name-append n rest ys)

Unique-append_one :
    (table : List Node) (t : Node)
    → Unique table
    → has_name t.name table ≡ false
    → Unique (table ++ t ∷ [])
Unique-append_one [] t u o = (refl, tt)
Unique-append_one (s ∷ rest) t u o = (
  rw (has_name-append s.name rest (t ∷ []))
      (ground (arith, u.0, str_eq_iff s.name t.name, str_eq_iff t.name s.name)),
  Unique-append_one rest t u.1 (ground arith),
)

pub merge_file-IsTable :
    (table : List Node) (p : Node) → IsTable table → IsTable (merge_file table p)
unfolding merge_file add_unless
merge_file-IsTable table p w = added (find_update p table) refl
  where
    added : (r : List Node × Bool) → find_update p table ≡ r → IsTable (add_unless p r)
    added (table', true) e = record {
      unique = subst (λ r. Unique r.0) e (Unique-find_update table p w.slots w.unique);
      slots = subst (λ r. AllSlots r.0) e (AllSlots-find_update table p w.slots);
    }
    added (table', false) e = record {
      unique =
          Unique-append_one table' (new_entry p)
            (subst (λ r. Unique r.0) e (Unique-find_update table p w.slots w.unique))
            (subst (λ r. has_name p.name r.0 ≡ false) e
              (has_name-find_update p.name table p w.slots
                ∙ sym (found-has_name table p)
                ∙ ap (λ r. r.1) e));
      slots =
          All-append _ table' (new_entry p ∷ [])
            (subst (λ r. AllSlots r.0) e (AllSlots-find_update table p w.slots))
            (alone-IsSlots (announcer p), tt);
    }

merge_files-IsTable :
    (ft : Option (List Node)) (peer_ft : List Node)
    → IsTable (entries ft)
    → IsTable (entries (merge_files ft peer_ft))
unfolding merge_files
merge_files-IsTable none [] w = w
merge_files-IsTable (some t) [] w = w
merge_files-IsTable none (p ∷ peer_ft) w =
    merge_files-IsTable (some (merge_file [] p)) peer_ft (merge_file-IsTable [] p w)
merge_files-IsTable (some t) (p ∷ peer_ft) w =
    merge_files-IsTable (some (merge_file t p)) peer_ft (merge_file-IsTable t p w)

-- From a table with one entry to a name and well-formed newpeerip arrays update_filetable either
-- faults or leaves such a table.
pub update_filetable-IsTable :
    (ft : Option (List Node)) (peer_ft : List Node)
    → IsTable (entries ft)
    → (update_filetable ft peer_ft ≡ fault)
      ⊎ ((ft' : Option (List Node)) × (update_filetable ft peer_ft ≡ ok ft')
          × IsTable (entries ft'))
unfolding update_filetable
update_filetable-IsTable ft peer_ft w = shown (merge_files ft peer_ft) refl
  where
    shown :
        (ft' : Option (List Node))
        → merge_files ft peer_ft ≡ ft'
        → (update_filetable ft peer_ft ≡ fault)
          ⊎ ((ft' : Option (List Node)) × (update_filetable ft peer_ft ≡ ok ft')
              × IsTable (entries ft'))
    shown none e = inl (rw e)
    shown (some table) e =
        inr
          (some table, rw e, subst (λ r. IsTable (entries r)) e (merge_files-IsTable ft peer_ft w))
