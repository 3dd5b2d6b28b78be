-- ===== src/Tracker/Slots/Add.antt =====
-- `add_slot`, the branch of `update_filetable` that notes one more holder of the same version.
use dart_sync.Base.{
  ◌⊎◌, ℕ, suc, ◌+◌, ◌<◌, ◌≡◌, refl, ap, subst, ◌≢◌, inl, inr, Bool, true, false, ◌||◌, ◌&&◌, not,
  List, [], ◌∷◌, CString, str_eq, str_eq_iff, All, length, set, arith, Bool-cases, ltb,
  if◌then◌else◌, length-set,
}
use dart_sync.Table.{max_peer_num}
use dart_sync.Tracker.Slots.{scan_slots, add_slot}
use dart_sync.Tracker.Slots.Wf.{listed, used, Packed, Distinct, IsSlots}

pub used-le-length : (ips : List CString) → used ips < suc (length ips)
used-le-length [] = omega arith
used-le-length ([] ∷ rest) = omega arith
used-le-length ((c ∷ s) ∷ rest) = omega (arith, used-le-length rest)

-- The scan stops at the first free place, and has found what is listed.
scan_slots_lem :
    (ip : CString) (ips : List CString) (index : ℕ) (found : Bool)
    → scan_slots ip ips index found ≡ (index + used ips, found || listed ip ips)
unfolding scan_slots
scan_slots_lem ip [] index true = ground arith
scan_slots_lem ip [] index false = ground arith
scan_slots_lem ip ([] ∷ rest) index true = ground arith
scan_slots_lem ip ([] ∷ rest) index false = ground arith
scan_slots_lem ip ((c ∷ s) ∷ rest) index found =
    ground (arith, scan_slots_lem ip rest (suc index) (found || str_eq (c ∷ s) ip))

pub add_slot_lem :
    (ip : CString) (ips : List CString)
    → add_slot ip ips
      ≡ (if not (listed ip ips) && ltb (used ips) max_peer_num then set ips (used ips) ip else ips)
unfolding add_slot
add_slot_lem ip ips = ground (arith, scan_slots_lem ip ips 0 false)

set-All-empty : (ips : List CString) → All (λ s. s ≡ []) ips → set ips 0 [] ≡ ips
set-All-empty [] a = refl
set-All-empty (s ∷ rest) a = ground arith

module _ (c : ℕ) (s : CString) where
  ip : CString
  ip = c ∷ s

  listed-none : (x : CString) (ips : List CString) → All (λ s. s ≡ []) ips → listed x ips ≡ false
  listed-none x [] a = refl
  listed-none x ([] ∷ rest) a = refl
  listed-none x ((d ∷ t) ∷ rest) a = cc (a.0)

  listed-set-used :
      (x : CString) (ips : List CString)
      → Packed ips
      → used ips < length ips
      → listed x (set ips (used ips) (c ∷ s)) ≡ (listed x ips || str_eq (c ∷ s) x)
  listed-set-used x [] p h = absurd (omega arith)
  listed-set-used x ([] ∷ rest) p h = ground (arith, listed-none x rest p)
  listed-set-used x ((d ∷ t) ∷ rest) p h =
      rw (listed-set-used x rest p (omega arith)) (sym_or (str_eq (d ∷ t) x))
    where
      sym_or :
          (b : Bool)
          → (b || (listed x rest || str_eq (c ∷ s) x)) ≡ ((b || listed x rest) || str_eq (c ∷ s) x)
      sym_or true = refl
      sym_or false = refl

  Packed-set-used :
      (ips : List CString)
      → Packed ips
      → used ips < length ips
      → Packed (set ips (used ips) (c ∷ s))
  Packed-set-used [] p h = absurd (omega arith)
  Packed-set-used ([] ∷ rest) p h = packed_free rest p
    where
      packed_free : (ips : List CString) → All (λ s. s ≡ []) ips → Packed ips
      packed_free [] a = tt
      packed_free ([] ∷ rest) a = a.1
      packed_free ((d ∷ t) ∷ rest) a = cc (a.0)
  Packed-set-used ((d ∷ t) ∷ rest) p h = Packed-set-used rest p (omega arith)

  Distinct-set-used :
      (ips : List CString)
      → Packed ips
      → Distinct ips
      → listed (c ∷ s) ips ≡ false
      → used ips < length ips
      → Distinct (set ips (used ips) (c ∷ s))
  Distinct-set-used [] p u fresh h = absurd (omega arith)
  Distinct-set-used ([] ∷ rest) p u fresh h = (listed-none (c ∷ s) rest p, free rest p)
    where
      free : (ips : List CString) → All (λ s. s ≡ []) ips → Distinct ips
      free [] a = tt
      free ([] ∷ rest) a = tt
      free ((d ∷ t) ∷ rest) a = cc (a.0)
  Distinct-set-used ((d ∷ t) ∷ rest) p u fresh h = (
    rw (listed-set-used (d ∷ t) rest p (omega arith))
        (ground (arith, str_eq_iff (d ∷ t) (c ∷ s), str_eq_iff (c ∷ s) (d ∷ t))),
    Distinct-set-used rest p u.1 (ground arith) (omega arith),
  )

set-free : (ips : List CString) → Packed ips → set ips (used ips) [] ≡ ips
set-free [] p = refl
set-free ([] ∷ rest) p = refl
set-free ((d ∷ t) ∷ rest) p = ap (◌∷◌ (d ∷ t)) (set-free rest p)

-- Adding the empty address changes nothing.
pub add_slot-nil : (ips : List CString) → IsSlots ips → add_slot [] ips ≡ ips
add_slot-nil ips w = ground (arith, add_slot_lem [] ips, set-free ips w.packed)

pub add_slot-IsSlots : (ip : CString) (ips : List CString) → IsSlots ips → IsSlots (add_slot ip ips)
add_slot-IsSlots [] ips w = rw (add_slot-nil ips w) w
add_slot-IsSlots (c ∷ s) ips w =
    rw (add_slot_lem (c ∷ s) ips)
      (elim (Bool-cases (not (listed (c ∷ s) ips) && ltb (used ips) max_peer_num)) [
        | inl e ↦ rw e (record {
          places = rw (length-set ips (used ips) (c ∷ s)) w.places;
          packed = Packed-set-used c s ips w.packed (room e);
          distinct = Distinct-set-used c s ips w.packed w.distinct (fresh e) (room e);
        })
        | inr e ↦ rw e w
      ])
  where
    room : (not (listed (c ∷ s) ips) && ltb (used ips) max_peer_num) ≡ true → used ips < length ips
    room e = rw w.places (ground arith)

    fresh :
        (not (listed (c ∷ s) ips) && ltb (used ips) max_peer_num) ≡ true
        → listed (c ∷ s) ips ≡ false
    fresh e = ground arith

or_free : (b : Bool) → b ≡ (b || false)
or_free true = refl
or_free false = refl

-- In a well-formed newpeerip array with a free place the peers listed after an address that is not
-- empty is added are those before and that address.
pub listed-add_slot :
    (x ip : CString) (ips : List CString)
    → IsSlots ips
    → ip ≢ []
    → used ips < max_peer_num
    → listed x (add_slot ip ips) ≡ (listed x ips || str_eq ip x)
listed-add_slot x [] ips w ne h = absurd (ne refl)
listed-add_slot x (c ∷ s) ips w ne h =
    rw (add_slot_lem (c ∷ s) ips) (elim (Bool-cases (listed (c ∷ s) ips)) [
      | inl e ↦ rw e (known e (str_eq (c ∷ s) x) (str_eq_iff (c ∷ s) x).0)
      | inr e ↦ rw e (ground (arith, listed-set-used c s x ips w.packed, w.places))
    ])
  where
    known :
        listed (c ∷ s) ips ≡ true
        → (b : Bool) → (b ≡ true → c ∷ s ≡ x)
        → listed x ips ≡ (listed x ips || b)
    known e true h = rw (subst (λ y. listed y ips ≡ true) (h refl) e)
    known e false h = or_free (listed x ips)

-- A full array stays as it is.
pub add_slot-full :
    (ip : CString) (ips : List CString) → used ips ≡ max_peer_num → add_slot ip ips ≡ ips
add_slot-full ip ips h = ground (arith, add_slot_lem ip ips)

-- Whoever is listed afterwards was listed before or is the new one.
pub add_slot_sound :
    (x ip : CString) (ips : List CString)
    → IsSlots ips
    → listed x (add_slot ip ips) ≡ true
    → (listed x ips ≡ true) ⊎ (ip ≡ x)
add_slot_sound x [] ips w h = inl (rw (← add_slot-nil ips w) h)
add_slot_sound x (c ∷ s) ips w h = elim (Bool-cases (ltb (used ips) max_peer_num)) [
  | inl e ↦ ground (
    arith,
    listed-add_slot x (c ∷ s) ips w (λ q. cc),
    str_eq_iff (c ∷ s) x,
    rw (listed-add_slot x (c ∷ s) ips w (λ q. cc) (ground arith)) at h,
  )
  | inr e ↦ inl (rw (add_slot-full (c ∷ s) ips (ground (arith, used-le-length ips, w.places))) at h)
]
