-- ===== src/Tracker/Slots/Evict.antt =====
-- One round of `prune`, the loop by which `delete_peer` takes a peer out of the array `newpeerip`.
use dart_sync.Base.{
  ℕ, zero, suc, ◌-◌, ◌≤◌, ◌≡◌, refl, ap, inl, inr, true, false, List, [], ◌∷◌, CString, str_eq,
  is_empty, length, set, get_or, arith, Bool-cases, ltb, if◌then◌else◌,
}
use dart_sync.Tracker.Slots.{skip_used, evict, prune_loop}
use dart_sync.Tracker.Slots.Wf.{used}
use dart_sync.Tracker.Slots.Rotate.{
  last_used, drop_last_used, get_or-last_used, set-last_used, suc-sub_one,
}

-- The loops run alike one place further down.
skip_used-cons :
    (rounds : ℕ) (s : CString) (ips : List CString) (counter : ℕ)
    → skip_used rounds (s ∷ ips) (suc counter) ≡ suc (skip_used rounds ips counter)
unfolding skip_used
skip_used-cons zero s ips counter = refl
skip_used-cons (suc rounds) s ips counter =
    ground (arith, skip_used-cons rounds s ips (suc counter))

skip_used-lt :
    (rounds : ℕ) (ips : List CString) (counter : ℕ) → counter ≤ skip_used rounds ips counter
unfolding skip_used
skip_used-lt zero ips counter = omega arith
skip_used-lt (suc rounds) ips counter = ground (arith, skip_used-lt rounds ips (suc counter))

-- With rounds enough the count of used places is reached.
skip_used_lem :
    (rounds : ℕ) (ips : List CString) → length ips ≤ rounds → skip_used rounds ips 0 ≡ used ips
unfolding skip_used
skip_used_lem zero [] h = refl
skip_used_lem zero (s ∷ ips) h = absurd (omega arith)
skip_used_lem (suc rounds) [] h = refl
skip_used_lem (suc rounds) ([] ∷ ips) h = refl
skip_used_lem (suc rounds) ((c ∷ s) ∷ ips) h =
    rw (skip_used-cons rounds (c ∷ s) ips 0) (ap suc (skip_used_lem rounds ips (omega arith)))

evict-cons :
    (rounds : ℕ) (s : CString) (ips : List CString) (index : ℕ)
    → evict rounds (s ∷ ips) (suc index) ≡ s ∷ evict rounds ips index
unfolding evict
evict-cons rounds s ips index =
    rw (skip_used-cons rounds s ips (suc index))
      (past (skip_used rounds ips (suc index)) (skip_used-lt rounds ips (suc index)))
  where
    past :
        (counter : ℕ)
        → suc index ≤ counter
        → set
            (if ltb (suc index) (suc counter - 1)
              then set (s ∷ ips) (suc index) (get_or (s ∷ ips) (suc counter - 1) [])
              else (s ∷ ips))
            (suc counter - 1)
            []
          ≡ s
            ∷ set
                (if ltb index (counter - 1)
                  then set ips index (get_or ips (counter - 1) [])
                  else ips)
                (counter - 1)
                []
    past zero h = absurd (omega arith)
    past (suc k) h =
        let e : suc (suc k) - 1 ≡ suc k = omega arith in
        let e' : suc k - 1 ≡ k = omega arith in rw (e, e') (ground arith)

prune_loop-cons :
    (rounds : ℕ) (ip s : CString) (ips : List CString) (index : ℕ)
    → prune_loop rounds ip (s ∷ ips) (suc index) ≡ s ∷ prune_loop rounds ip ips index
unfolding prune_loop
prune_loop-cons zero ip s ips index = refl
prune_loop-cons (suc rounds) ip s ips index = elim (Bool-cases (is_empty (get_or ips index []))) [
  | inl e ↦ rw e
  | inr e ↦ rw e (elim (Bool-cases (str_eq (get_or ips index []) ip)) [
    | inl hit ↦
        rw (hit, evict-cons rounds s ips index)
          (prune_loop-cons rounds ip s (evict rounds ips index) (suc index))
    | inr miss ↦ rw miss (prune_loop-cons rounds ip s ips (suc index))
  ])
]

evict_head :
    (rounds c : ℕ) (s : CString) (ips : List CString)
    → length ips ≤ rounds
    → evict rounds ((c ∷ s) ∷ ips) 0 ≡ last_used ips ∷ drop_last_used ips
unfolding evict last_used drop_last_used
evict_head rounds c s [] h = rw (skip_used-cons rounds (c ∷ s) [] 0, skip_used_lem rounds [] h)
evict_head rounds c s ([] ∷ rest) h =
    rw (skip_used-cons rounds (c ∷ s) ([] ∷ rest) 0, skip_used_lem rounds ([] ∷ rest) h)
evict_head rounds c s ((d ∷ t) ∷ rest) h =
    rw
      (
        skip_used-cons rounds (c ∷ s) ((d ∷ t) ∷ rest) 0,
        skip_used_lem rounds ((d ∷ t) ∷ rest) h,
        suc-sub_one (suc (used rest)),
        ← get_or-last_used ((d ∷ t) ∷ rest),
        ← set-last_used ((d ∷ t) ∷ rest),
        suc-sub_one (used rest),
      )
      (ground arith)

-- The loop at the head of the array.
pub prune_loop_hit :
    (rounds c : ℕ) (ip s : CString) (rest : List CString)
    → length rest ≤ rounds
    → str_eq (c ∷ s) ip ≡ true
    → prune_loop (suc rounds) ip ((c ∷ s) ∷ rest) 0
      ≡ last_used rest ∷ prune_loop rounds ip (drop_last_used rest) 0
unfolding prune_loop
prune_loop_hit rounds c ip s rest h hit = rw (hit, evict_head rounds c s rest h, prune_loop-cons)

pub prune_loop_miss :
    (rounds c : ℕ) (ip s : CString) (rest : List CString)
    → str_eq (c ∷ s) ip ≡ false
    → prune_loop (suc rounds) ip ((c ∷ s) ∷ rest) 0 ≡ (c ∷ s) ∷ prune_loop rounds ip rest 0
unfolding prune_loop
prune_loop_miss rounds c ip s rest miss = rw (miss, prune_loop-cons)
