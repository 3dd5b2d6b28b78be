-- ===== src/Tracker/History.antt =====
-- How the file table of the tracker changes, whatever its threads do: by announcements and by
-- departures alone.
use dart_sync.Base.{
  ◌≡◌, refl, ◌∙◌, sym, ap, subst, Option, none, some, List, [], ◌∷◌, CString, ok, inl, inr, arith,
}
use dart_sync.Table.{Node}
use dart_sync.Tracker.Merge.{update_filetable}
use dart_sync.Tracker.Merge.Newest.{entries, newest-update_filetable, update_filetable-nil}
use dart_sync.Tracker.Merge.Invariant.{IsTable, update_filetable-IsTable}
use dart_sync.Tracker.Merge.Versions.{Version, ◌⊑◌, newer, newer_upper, join, newest}
use dart_sync.Tracker.State.{prune_ft}
use dart_sync.Tracker.State.Departure.{prune_ft-Forgets, newest-prune_ft}

pub data Evolves (a : Option (List Node)) : Option (List Node) → Type 0 where
  still : Evolves a a
  learns :
      {b c : Option (List Node)} (files : List Node)
      → Evolves a b
      → update_filetable b files ≡ ok c
      → Evolves a c
  forgets :
      {b c : Option (List Node)} (ip : CString) → Evolves a b → c ≡ prune_ft ip b → Evolves a c

pub Evolves-trans : {a b c : Option (List Node)} → Evolves a b → Evolves b c → Evolves a c
Evolves-trans p still = p
Evolves-trans p (learns files q e) = learns files (Evolves-trans p q) e
Evolves-trans p (forgets ip q e) = forgets ip (Evolves-trans p q) e

-- One entry to a name and well-formed arrays are kept.
pub Evolves-IsTable :
    {a c : Option (List Node)} → Evolves a c → IsTable (entries a) → IsTable (entries c)
Evolves-IsTable still w = w
Evolves-IsTable {c} (learns {b} files p e) w =
    elim (update_filetable-IsTable b files (Evolves-IsTable p w)) [
      | inl fails ↦ cc (fails, e)
      | inr (c', got, w') ↦
          subst (λ f. IsTable (entries f)) (let same : c' ≡ c = cc (got, e) in same) w'
    ]
Evolves-IsTable (forgets {b} ip p e) w =
    subst (λ f. IsTable (entries f)) (sym e) (prune_ft-Forgets ip b (Evolves-IsTable p w)).0

-- The order of versions, with no version below all others.
abbrev pub AtMost : Option Version → Option Version → Type 0
AtMost none w = Unit
AtMost (some v) none = ⊥
AtMost (some v) (some w) = v ⊑ w

pub AtMost-refl : (v : Option Version) → AtMost v v
AtMost-refl none = tt
AtMost-refl (some v) = inr (refl, omega arith)

pub AtMost-trans : (u v w : Option Version) → AtMost u v → AtMost v w → AtMost u w
AtMost-trans none v w p q = tt
AtMost-trans (some u) none w p q = absurd p
AtMost-trans (some u) (some v) none p q = absurd q
AtMost-trans (some u) (some v) (some w) p q = ground arith

pub AtMost-join : (v w : Option Version) → AtMost v (join v w)
AtMost-join none w = tt
AtMost-join (some v) none = inr (refl, omega arith)
AtMost-join (some v) (some w) = (newer_upper v w).0

learned_newest :
    (n : CString) (b c : Option (List Node)) (files : List Node)
    → update_filetable b files ≡ ok c
    → AtMost (newest n (entries b)) (newest n (entries c))
learned_newest n none c [] e = tt
learned_newest n (some table) c [] e =
    subst (λ f. AtMost (newest n table) (newest n (entries f)))
      (let same : some table ≡ c = cc (update_filetable-nil table, e) in same)
      (AtMost-refl (newest n table))
learned_newest n b c (p ∷ files) e =
    let (table, got, newer) = newest-update_filetable b p files in
    subst (λ f. AtMost (newest n (entries b)) (newest n (entries f)))
      (let same : some table ≡ c = cc (got, e) in same)
      (subst (AtMost (newest n (entries b))) (sym (newer n)) (AtMost-join (newest n (entries b)) _))

-- The newest version of a name never goes down.
pub Evolves-newest :
    (n : CString) {a c : Option (List Node)}
    → Evolves a c
    → AtMost (newest n (entries a)) (newest n (entries c))
Evolves-newest n still = AtMost-refl _
Evolves-newest n (learns {b} {c} files p e) =
    AtMost-trans _ (newest n (entries b)) _ (Evolves-newest n p) (learned_newest n b c files e)
Evolves-newest n (forgets {b} ip p e) =
    AtMost-trans _ (newest n (entries b)) _ (Evolves-newest n p) (
      subst (AtMost (newest n (entries b)))
        (sym (ap (λ f. newest n (entries f)) e ∙ newest-prune_ft n ip b)) (AtMost-refl _))
