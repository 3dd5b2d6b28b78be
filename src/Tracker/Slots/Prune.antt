-- ===== src/Tracker/Slots/Prune.antt =====
-- `prune` as a whole: it takes one peer out and keeps the array well-formed.
use dart_sync.Base.{
  ℕ, zero, suc, ◌≤◌, ◌≡◌, refl, ap, subst, ◌∙◌, inl, inr, Bool, true, false, ◌||◌, ◌&&◌, not, List,
  [], ◌∷◌, CString, str_eq, str_eq_iff, length, arith, Bool-cases,
}
use dart_sync.Table.{max_peer_num}
use dart_sync.Tracker.Slots.{prune_loop, prune}
use dart_sync.Tracker.Slots.Wf.{listed, Packed, Distinct, IsSlots}
use dart_sync.Tracker.Slots.Rotate.{
  last_used, drop_last_used, listed-rotate, Packed-rotate, Distinct-rotate, length-rotate,
  unlisted-drop_last_used,
}
use dart_sync.Tracker.Slots.Evict.{prune_loop_hit, prune_loop_miss}

-- A peer that is not listed leaves the array as it is.
prune_loop_unlisted :
    (rounds : ℕ) (ip : CString) (ips : List CString)
    → listed ip ips ≡ false
    → prune_loop rounds ip ips 0 ≡ ips
prune_loop_unlisted zero ip ips out = unfold prune_loop in refl
prune_loop_unlisted (suc rounds) ip [] out = unfold prune_loop in refl
prune_loop_unlisted (suc rounds) ip ([] ∷ rest) out = unfold prune_loop in refl
prune_loop_unlisted (suc rounds) ip ((c ∷ s) ∷ rest) out =
    ground (arith, prune_loop_miss rounds c ip s rest, prune_loop_unlisted rounds ip rest)

-- After a hit nothing more is taken out, since the peer stood there once.
prune_loop_found :
    (rounds c : ℕ) (ip s : CString) (rest : List CString)
    → length rest ≤ rounds
    → Distinct ((c ∷ s) ∷ rest)
    → str_eq (c ∷ s) ip ≡ true
    → prune_loop (suc rounds) ip ((c ∷ s) ∷ rest) 0 ≡ last_used rest ∷ drop_last_used rest
prune_loop_found rounds c ip s rest h u hit = rw (
  prune_loop_hit rounds c ip s rest h hit,
  prune_loop_unlisted rounds ip (drop_last_used rest) (unlisted-drop_last_used ip rest gone),
)
  where
    gone : listed ip rest ≡ false
    gone = subst (λ y. listed y rest ≡ false) ((str_eq_iff (c ∷ s) ip).0 hit) (u.0)

module _ (ip : CString) where
  prune_loop-Packed :
      (rounds : ℕ) (ips : List CString)
      → length ips ≤ rounds
      → Distinct ips
      → Packed ips
      → Packed (prune_loop rounds ip ips 0)
  prune_loop-Packed zero ips h u p = unfold prune_loop in p
  prune_loop-Packed (suc rounds) [] h u p = unfold prune_loop in p
  prune_loop-Packed (suc rounds) ([] ∷ rest) h u p = unfold prune_loop in p
  prune_loop-Packed (suc rounds) ((c ∷ s) ∷ rest) h u p = elim (Bool-cases (str_eq (c ∷ s) ip)) [
    | inl hit ↦ rw (prune_loop_found rounds c ip s rest (omega arith) u hit) (Packed-rotate rest p)
    | inr miss ↦
        rw (prune_loop_miss rounds c ip s rest miss)
          (prune_loop-Packed rounds rest (omega arith) (u.1) p)
  ]

  length-prune_loop :
      (rounds : ℕ) (ips : List CString)
      → length ips ≤ rounds
      → Distinct ips
      → length (prune_loop rounds ip ips 0) ≡ length ips
  length-prune_loop zero ips h u = unfold prune_loop in refl
  length-prune_loop (suc rounds) [] h u = unfold prune_loop in refl
  length-prune_loop (suc rounds) ([] ∷ rest) h u = unfold prune_loop in refl
  length-prune_loop (suc rounds) ((c ∷ s) ∷ rest) h u = elim (Bool-cases (str_eq (c ∷ s) ip)) [
    | inl hit ↦
        rw (prune_loop_found rounds c ip s rest (omega arith) u hit) (ap suc (length-rotate rest))
    | inr miss ↦
        rw (prune_loop_miss rounds c ip s rest miss)
          (ap suc (length-prune_loop rounds rest (omega arith) (u.1)))
  ]

  listed-prune_loop :
      (x : CString) (rounds : ℕ) (ips : List CString)
      → length ips ≤ rounds
      → Distinct ips
      → listed x (prune_loop rounds ip ips 0) ≡ (listed x ips && not (str_eq ip x))
  listed-prune_loop x zero [] h u = unfold prune_loop in refl
  listed-prune_loop x zero (s ∷ ips) h u = absurd (omega arith)
  listed-prune_loop x (suc rounds) [] h u = unfold prune_loop in refl
  listed-prune_loop x (suc rounds) ([] ∷ rest) h u = unfold prune_loop in refl
  listed-prune_loop x (suc rounds) ((c ∷ s) ∷ rest) h u = elim (Bool-cases (str_eq (c ∷ s) ip)) [
    | inl hit ↦
        rw (prune_loop_found rounds c ip s rest (omega arith) u hit, listed-rotate x rest)
          (rw (← (str_eq_iff (c ∷ s) ip).0 hit)
            (found (str_eq (c ∷ s) x) (str_eq_iff (c ∷ s) x).0 (u.0)))
    | inr miss ↦ rw (prune_loop_miss rounds c ip s rest miss) (
        ground (
          arith,
          listed-prune_loop x rounds rest (omega arith) (u.1),
          str_eq_iff (c ∷ s) ip,
          str_eq_iff (c ∷ s) x,
          str_eq_iff ip x,
        ))
  ]
    where
      found :
          (b : Bool)
          → (b ≡ true → c ∷ s ≡ x)
          → listed (c ∷ s) rest ≡ false
          → listed x rest ≡ ((b || listed x rest) && not b)
      found true e o = subst (λ y. listed y rest ≡ false) (e refl) o
      found false e o = ground arith

  Distinct-prune_loop :
      (rounds : ℕ) (ips : List CString)
      → length ips ≤ rounds
      → Distinct ips
      → Distinct (prune_loop rounds ip ips 0)
  Distinct-prune_loop zero ips h u = unfold prune_loop in u
  Distinct-prune_loop (suc rounds) [] h u = unfold prune_loop in u
  Distinct-prune_loop (suc rounds) ([] ∷ rest) h u = unfold prune_loop in u
  Distinct-prune_loop (suc rounds) ((c ∷ s) ∷ rest) h u = elim (Bool-cases (str_eq (c ∷ s) ip)) [
    | inl hit ↦
        rw (prune_loop_found rounds c ip s rest (omega arith) u hit) (Distinct-rotate rest (u.1))
    | inr miss ↦ rw (prune_loop_miss rounds c ip s rest miss) (
      rw (listed-prune_loop (c ∷ s) rounds rest (omega arith) (u.1), u.0) refl,
      Distinct-prune_loop rounds rest (omega arith) (u.1),
    )
  ]

-- The array stays well-formed when a peer is taken out.
pub prune-IsSlots : (ip : CString) (ips : List CString) → IsSlots ips → IsSlots (prune ip ips)
unfolding prune
prune-IsSlots ip ips w = record {
  places = length-prune_loop ip max_peer_num ips (omega (arith, w.places)) w.distinct ∙ w.places;
  packed = prune_loop-Packed ip max_peer_num ips (omega (arith, w.places)) w.distinct w.packed;
  distinct = Distinct-prune_loop ip max_peer_num ips (omega (arith, w.places)) w.distinct;
}

-- In a well-formed newpeerip array the peers listed after delete_peer's loop are those before it
-- but for the address removed.
pub listed-prune :
    (x ip : CString) (ips : List CString)
    → IsSlots ips
    → listed x (prune ip ips) ≡ (listed x ips && not (str_eq ip x))
unfolding prune
listed-prune x ip ips w =
    listed-prune_loop ip x max_peer_num ips (omega (arith, w.places)) w.distinct
