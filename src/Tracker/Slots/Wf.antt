-- ===== src/Tracker/Slots/Wf.antt =====
-- What a well-formed `newpeerip` array is, and the set of peers that it stands for.
use dart_sync.Base.{suc, ℕ, ◌≡◌, Bool, false, ◌||◌, List, [], ◌∷◌, CString, str_eq, All, length}
use dart_sync.Table.{max_peer_num}

-- The peer stands in a place before the first free one.
abbrev pub listed : CString → List CString → Bool
listed ip [] = false
listed ip ([] ∷ rest) = false
listed ip ((c ∷ s) ∷ rest) = str_eq (c ∷ s) ip || listed ip rest

-- The number of places before the first free one.
abbrev pub used : List CString → ℕ
used [] = 0
used ([] ∷ rest) = 0
used ((c ∷ s) ∷ rest) = suc (used rest)

-- Nothing stands behind a free place.
abbrev pub Packed : List CString → Type 0
Packed [] = Unit
Packed ([] ∷ rest) = All (λ s. s ≡ []) rest
Packed ((c ∷ s) ∷ rest) = Packed rest

-- No peer stands there twice.
abbrev pub Distinct : List CString → Type 0
Distinct [] = Unit
Distinct ([] ∷ rest) = Unit
Distinct ((c ∷ s) ∷ rest) = (listed (c ∷ s) rest ≡ false) × Distinct rest

pub record IsSlots (ips : List CString) : Type 0 where
  pub places : length ips ≡ max_peer_num
  pub packed : Packed ips
  pub distinct : Distinct ips
