-- ===== src/Tracker/Merge/Versions.antt =====
-- The version of a file, ordered by time and then by size, and the newest version of a name among
-- the entries of a table.
use dart_sync.Base.{
  ℕ, ◌≤◌, ◌<◌, ◌≡◌, refl, ap, ◌∙◌, ◌⊎◌, ◌&&◌, ◌||◌, Option, none, some, List, [], ◌∷◌, ◌++◌,
  CString, str_eq, ltb, leb, ◌==◌, if◌then◌else◌, arith,
}
use dart_sync.Table.{Node}

pub record Version : Type 0 where
  pub timestamp : ℕ
  pub size : ℕ

abbrev pub version : Node → Version
version t = record { timestamp = t.timestamp; size = t.size }

infix 50 ◌⊑◌
abbrev pub ◌⊑◌ : Version → Version → Type 0
v ⊑ w = (v.timestamp < w.timestamp) ⊎ ((v.timestamp ≡ w.timestamp) × (v.size ≤ w.size))

abbrev version_of : ℕ → ℕ → Version
version_of timestamp size = record { timestamp = timestamp; size = size }

pub Version-antisymm : (v w : Version) → v ⊑ w → w ⊑ v → v ≡ w
Version-antisymm v w p q =
    let e : v.timestamp ≡ w.timestamp = ground (arith, p, q) in
    let f : v.size ≡ w.size = ground (arith, p, q) in
    ap (λ n. version_of n v.size) e ∙ ap (version_of w.timestamp) f

-- The newer of two versions.
abbrev pub newer : Version → Version → Version
newer v w =
    if ltb v.timestamp w.timestamp || (v.timestamp == w.timestamp && leb v.size w.size)
    then w
    else v

pub newer_upper : (v w : Version) → (v ⊑ newer v w) × (w ⊑ newer v w)
newer_upper v w = ground arith

abbrev pub join : Option Version → Option Version → Option Version
join none w = w
join (some v) none = some v
join (some v) (some w) = some (newer v w)

-- The newest version of a name, if an entry has that name.
abbrev pub newest : CString → List Node → Option Version
newest n [] = none
newest n (t ∷ rest) =
    if str_eq t.name n then join (some (version t)) (newest n rest) else newest n rest

newer_comm : (v w : Version) → newer v w ≡ newer w v
newer_comm v w = ground arith

newer_assoc : (u v w : Version) → newer (newer u v) w ≡ newer u (newer v w)
newer_assoc u v w = ground arith

pub join_comm : (v w : Option Version) → join v w ≡ join w v
join_comm none none = refl
join_comm none (some w) = refl
join_comm (some v) none = refl
join_comm (some v) (some w) = rw (newer_comm v w)

pub join_assoc : (u v w : Option Version) → join (join u v) w ≡ join u (join v w)
join_assoc none v w = refl
join_assoc (some u) none w = refl
join_assoc (some u) (some v) none = refl
join_assoc (some u) (some v) (some w) = rw (newer_assoc u v w)

pub newest-append :
    (n : CString) (xs ys : List Node) → newest n (xs ++ ys) ≡ join (newest n xs) (newest n ys)
newest-append n [] ys = refl
newest-append n (t ∷ rest) ys =
    ground
      (arith, newest-append n rest ys, join_assoc (some (version t)) (newest n rest) (newest n ys))
