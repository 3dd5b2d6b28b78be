-- ===== src/Tracker/Slots/Rotate.antt =====
-- The used places of `newpeerip`: the last of them, and its move to the front.
use dart_sync.Base.{
  ℕ, suc, ◌-◌, ◌≡◌, refl, ap, false, List, [], ◌∷◌, CString, str_eq_iff, length, set, get_or, arith,
}
use dart_sync.Tracker.Slots.Wf.{listed, used, Packed, Distinct}

-- What the loop computes, place by place: a hit takes the last used place of the rest.
unfoldable pub last_used : List CString → CString
last_used [] = []
last_used ([] ∷ rest) = []
last_used ((c ∷ s) ∷ []) = c ∷ s
last_used ((c ∷ s) ∷ [] ∷ rest) = c ∷ s
last_used ((c ∷ s) ∷ (d ∷ t) ∷ rest) = last_used ((d ∷ t) ∷ rest)

unfoldable pub drop_last_used : List CString → List CString
drop_last_used [] = []
drop_last_used ([] ∷ rest) = [] ∷ rest
drop_last_used ((c ∷ s) ∷ []) = [] ∷ []
drop_last_used ((c ∷ s) ∷ [] ∷ rest) = [] ∷ [] ∷ rest
drop_last_used ((c ∷ s) ∷ (d ∷ t) ∷ rest) = (c ∷ s) ∷ drop_last_used ((d ∷ t) ∷ rest)

pub suc-sub_one : (n : ℕ) → suc n - 1 ≡ n
suc-sub_one n = omega arith

pub get_or-last_used : (ips : List CString) → get_or ips (used ips - 1) [] ≡ last_used ips
unfolding last_used
get_or-last_used [] = refl
get_or-last_used ([] ∷ rest) = refl
get_or-last_used ((c ∷ s) ∷ []) = refl
get_or-last_used ((c ∷ s) ∷ [] ∷ rest) = refl
get_or-last_used ((c ∷ s) ∷ (d ∷ t) ∷ rest) =
    rw (suc-sub_one (suc (used rest)))
      (rw (suc-sub_one (used rest)) at (get_or-last_used ((d ∷ t) ∷ rest)))

pub set-last_used : (ips : List CString) → set ips (used ips - 1) [] ≡ drop_last_used ips
unfolding drop_last_used
set-last_used [] = refl
set-last_used ([] ∷ rest) = refl
set-last_used ((c ∷ s) ∷ []) = refl
set-last_used ((c ∷ s) ∷ [] ∷ rest) = refl
set-last_used ((c ∷ s) ∷ (d ∷ t) ∷ rest) =
    rw (suc-sub_one (suc (used rest)))
      (ap (◌∷◌ (c ∷ s)) (rw (suc-sub_one (used rest)) at (set-last_used ((d ∷ t) ∷ rest))))

-- Moving the last used place to the front keeps who is listed.
last_used-cons :
    (d : ℕ) (t : CString) (rest : List CString)
    → (c : ℕ) × (s : CString) × (last_used ((d ∷ t) ∷ rest) ≡ c ∷ s)
unfolding last_used
last_used-cons d t [] = (d, t, refl)
last_used-cons d t ([] ∷ rest) = (d, t, refl)
last_used-cons d t ((e ∷ u) ∷ rest) = last_used-cons e u rest

pub listed-rotate :
    (x : CString) (ips : List CString)
    → listed x (last_used ips ∷ drop_last_used ips) ≡ listed x ips
unfolding last_used drop_last_used
listed-rotate x [] = refl
listed-rotate x ([] ∷ rest) = refl
listed-rotate x ((c ∷ s) ∷ []) = refl
listed-rotate x ((c ∷ s) ∷ [] ∷ rest) = refl
listed-rotate x ((c ∷ s) ∷ (d ∷ t) ∷ rest) =
    let (e, u, q) = last_used-cons d t rest in
    rw q (ground (arith, rw q at (listed-rotate x ((d ∷ t) ∷ rest))))

pub Packed-rotate : (ips : List CString) → Packed ips → Packed (last_used ips ∷ drop_last_used ips)
unfolding last_used drop_last_used
Packed-rotate [] p = tt
Packed-rotate ([] ∷ rest) p = (refl, p)
Packed-rotate ((c ∷ s) ∷ []) p = tt
Packed-rotate ((c ∷ s) ∷ [] ∷ rest) p = (refl, p)
Packed-rotate ((c ∷ s) ∷ (d ∷ t) ∷ rest) p =
    let (e, u, q) = last_used-cons d t rest in rw q (rw q at (Packed-rotate ((d ∷ t) ∷ rest) p))

pub Distinct-rotate :
    (ips : List CString) → Distinct ips → Distinct (last_used ips ∷ drop_last_used ips)
unfolding last_used drop_last_used
Distinct-rotate [] p = tt
Distinct-rotate ([] ∷ rest) p = tt
Distinct-rotate ((c ∷ s) ∷ []) p = (refl, tt)
Distinct-rotate ((c ∷ s) ∷ [] ∷ rest) p = (refl, tt)
Distinct-rotate ((c ∷ s) ∷ (d ∷ t) ∷ rest) p =
    let (e, u, q) = last_used-cons d t rest in
    let old = rw q at (Distinct-rotate ((d ∷ t) ∷ rest) p.1) in
    let same = rw q at (listed-rotate (c ∷ s) ((d ∷ t) ∷ rest)) in
    rw q (ground (arith, old, same, p.0, str_eq_iff (c ∷ s) (e ∷ u), str_eq_iff (e ∷ u) (c ∷ s)))

pub length-rotate : (ips : List CString) → length (drop_last_used ips) ≡ length ips
unfolding drop_last_used
length-rotate [] = refl
length-rotate ([] ∷ rest) = refl
length-rotate ((c ∷ s) ∷ []) = refl
length-rotate ((c ∷ s) ∷ [] ∷ rest) = refl
length-rotate ((c ∷ s) ∷ (d ∷ t) ∷ rest) = ap suc (length-rotate ((d ∷ t) ∷ rest))

pub unlisted-drop_last_used :
    (x : CString) (ips : List CString)
    → listed x ips ≡ false
    → listed x (drop_last_used ips) ≡ false
unfolding drop_last_used
unlisted-drop_last_used x [] o = refl
unlisted-drop_last_used x ([] ∷ rest) o = refl
unlisted-drop_last_used x ((c ∷ s) ∷ []) o = refl
unlisted-drop_last_used x ((c ∷ s) ∷ [] ∷ rest) o = refl
unlisted-drop_last_used x ((c ∷ s) ∷ (d ∷ t) ∷ rest) o =
    ground (arith, unlisted-drop_last_used x ((d ∷ t) ∷ rest))
