-- ===== src/Tracker/Merge/Newest.antt =====
-- `update_filetable` as the join of versions: the tracker ends with the newest version of each file.
use dart_sync.Base.{
  ◌≡◌, refl, ap, ◌∙◌, sym, Bool, true, false, Option, none, some, List, [], ◌∷◌, CString, str_eq,
  str_eq_iff, if◌then◌else◌, arith, ok, fault, ◌↔◌, Bool-cases, inl, inr,
}
use dart_sync.Table.{Node}
use dart_sync.Tracker.Merge.{
  display_filetable, update_entry, new_entry, find_update, add_unless, merge_file, merge_files,
  update_filetable,
}
use dart_sync.Tracker.Merge.Versions.{
  Version, version, newer, join, newest, join_comm, join_assoc, newest-append,
}

-- What `ft` holds.
abbrev pub entries : Option (List Node) → List Node
entries none = []
entries (some table) = table

name-update_entry : (t p : Node) → (update_entry t p).name ≡ t.name
unfolding update_entry
name-update_entry t p = ground arith

version-update_entry : (t p : Node) → version (update_entry t p) ≡ newer (version t) (version p)
unfolding update_entry
version-update_entry t p = ground arith

join-none : (v : Option Version) → join v none ≡ v
join-none none = refl
join-none (some v) = refl

join_hit :
    (b : Bool) (v w : Version) (r : Option Version)
    → (if b then join (some (newer v w)) r else r)
      ≡ join (if b then join (some v) r else r) (if b then some w else none)
join_hit true v w r =
    join_assoc (some v) (some w) r
    ∙ ap (join (some v)) (join_comm (some w) r)
    ∙ sym (join_assoc (some v) r (some w))
join_hit false v w r = sym (join-none r)

join_miss :
    (b : Bool) (v : Version) (r w : Option Version)
    → (if b then join (some v) (join r w) else join r w) ≡ join (if b then join (some v) r else r) w
join_miss true v r w = sym (join_assoc (some v) r w)
join_miss false v r w = refl

find_update-none :
    (table : List Node) (p : Node)
    → (find_update p table).1 ≡ false
    → (find_update p table).0 ≡ table
unfolding find_update
find_update-none [] p e = refl
find_update-none (t ∷ rest) p e = ground (arith, find_update-none rest p)

newest-find_update :
    (n : CString) (table : List Node) (p : Node)
    → (find_update p table).1 ≡ true
    → newest n (find_update p table).0 ≡ join (newest n table) (newest n (p ∷ []))
unfolding find_update
newest-find_update n [] p e = cc
newest-find_update n (t ∷ rest) p e = elim (Bool-cases (str_eq t.name p.name)) [
  | inl hit ↦
      rw (hit, name-update_entry t p, version-update_entry t p, ← (str_eq_iff t.name p.name).0 hit)
        (join_hit (str_eq t.name n) (version t) (version p) (newest n rest))
  | inr miss ↦
      rw (miss, newest-find_update n rest p (rw miss at e))
        (join_miss (str_eq t.name n) (version t) (newest n rest) (newest n (p ∷ [])))
]

newest-merge_file :
    (n : CString) (table : List Node) (p : Node)
    → newest n (merge_file table p) ≡ join (newest n table) (newest n (p ∷ []))
unfolding merge_file
newest-merge_file n table p = added (find_update p table) refl
  where
    added :
        (r : List Node × Bool)
        → find_update p table ≡ r
        → newest n (add_unless p r) ≡ join (newest n table) (newest n (p ∷ []))
    added (table', true) e = rw (← ap (λ r. r.0) e) (newest-find_update n table p (ap (λ r. r.1) e))
    added (table', false) e =
        rw (← ap (λ r. r.0) e, find_update-none table p (ap (λ r. r.1) e))
          (unfold new_entry in newest-append n table (new_entry p ∷ []))

newest-merge_files :
    (n : CString) (ft : Option (List Node)) (peer_ft : List Node)
    → newest n (entries (merge_files ft peer_ft)) ≡ join (newest n (entries ft)) (newest n peer_ft)
unfolding merge_files
newest-merge_files n none [] = refl
newest-merge_files n (some table) [] = sym (join-none (newest n table))
newest-merge_files n none (p ∷ peer_ft) =
    newest-merge_files n (some (merge_file [] p)) peer_ft
    ∙ rw (newest-merge_file n [] p) (sym (newest-append n (p ∷ []) peer_ft))
newest-merge_files n (some table) (p ∷ peer_ft) =
    newest-merge_files n (some (merge_file table p)) peer_ft
    ∙ rw
        (
          newest-merge_file n table p,
          join_assoc (newest n table) (newest n (p ∷ [])) (newest n peer_ft),
        )
        (ap (join (newest n table)) (sym (newest-append n (p ∷ []) peer_ft)))

pub merge_files-some :
    (ft : Option (List Node)) (p : Node) (peer_ft : List Node)
    → (table : List Node) × (merge_files ft (p ∷ peer_ft) ≡ some table)
unfolding merge_files
merge_files-some none p [] = (merge_file [] p, refl)
merge_files-some (some t) p [] = (merge_file t p, refl)
merge_files-some none p (q ∷ peer_ft) = merge_files-some (some (merge_file [] p)) q peer_ft
merge_files-some (some t) p (q ∷ peer_ft) = merge_files-some (some (merge_file t p)) q peer_ft

-- For every announced table that is not empty update_filetable returns a table in which the newest
-- version of every name is the newer one, by time and then size, of the tracker's and of the
-- announced one.
pub newest-update_filetable :
    (ft : Option (List Node)) (p : Node) (peer_ft : List Node)
    → (table : List Node) × (update_filetable ft (p ∷ peer_ft) ≡ ok (some table))
      × ((n : CString) → newest n table ≡ join (newest n (entries ft)) (newest n (p ∷ peer_ft)))
unfolding update_filetable
newest-update_filetable ft p peer_ft =
    let (table, e) = merge_files-some ft p peer_ft in
    (table, rw e, λ n. rw e at (newest-merge_files n ft (p ∷ peer_ft)))

update_filetable-ok :
    (n : CString) (ft ft' : Option (List Node)) (peer_ft : List Node)
    → update_filetable ft peer_ft ≡ ok ft'
    → newest n (entries ft') ≡ join (newest n (entries ft)) (newest n peer_ft)
unfolding update_filetable merge_files
update_filetable-ok n none ft' [] e = cc
update_filetable-ok n (some t) ft' [] e =
    let same : some t ≡ ft' = cc in rw (← same) (sym (join-none (newest n t)))
update_filetable-ok n ft ft' (p ∷ peer_ft) e =
    let (table, got, lub) = newest-update_filetable ft p peer_ft in
    let same : some table ≡ ft' = cc (got, e) in rw (← same) (lub n)

-- update_filetable faults exactly when the tracker has no table yet and the announced one is
-- empty.
pub update_filetable-fault :
    (ft : Option (List Node)) (peer_ft : List Node)
    → (update_filetable ft peer_ft ≡ fault) ↔ ((ft ≡ none) × (peer_ft ≡ []))
unfolding update_filetable merge_files
update_filetable-fault none [] = ground arith
update_filetable-fault (some t) [] = ground arith
update_filetable-fault ft (p ∷ peer_ft) =
    let (table, got, _) = newest-update_filetable ft p peer_ft in (λ e. cc (got, e), λ e. cc (e.1))

-- Two announcements in either order leave the same newest version of every name, where neither
-- update faults.
pub update_filetable_comm :
    (n : CString) (ft a b ab ba : Option (List Node)) (xs ys : List Node)
    → update_filetable ft xs ≡ ok a
    → update_filetable a ys ≡ ok ab
    → update_filetable ft ys ≡ ok b
    → update_filetable b xs ≡ ok ba
    → newest n (entries ab) ≡ newest n (entries ba)
update_filetable_comm n ft a b ab ba xs ys ea eab eb eba =
    update_filetable-ok n a ab ys eab
    ∙ rw
        (
          update_filetable-ok n ft a xs ea,
          join_assoc (newest n (entries ft)) (newest n xs) (newest n ys),
          join_comm (newest n xs) (newest n ys),
          ← join_assoc (newest n (entries ft)) (newest n ys) (newest n xs),
          ← update_filetable-ok n ft b ys eb,
        )
        (sym (update_filetable-ok n b ba xs eba))

pub update_filetable-nil : (table : List Node) → update_filetable (some table) [] ≡ ok (some table)
unfolding update_filetable merge_files display_filetable
update_filetable-nil table = refl
