-- ===== src/Tracker/State/Departure.antt =====
-- `delete_peer` on both globals, where the peer that leaves is not the first of the list.
use dart_sync.Base.{
  ℕ, ◌<◌, ◌≡◌, refl, false, not, ◌&&◌, none, some, Option, List, [], ◌∷◌, ◌==◌, ok, length, CString,
  str_eq, ◌||◌, ap, sym, >>=-ok_inv,
}
use dart_sync.Table.{Node}
use dart_sync.Tracker.Peers.{delete_from_list}
use dart_sync.Tracker.Slots.Wf.{listed}
use dart_sync.Tracker.Slots.Prune.{prune-IsSlots, listed-prune}
use dart_sync.Tracker.Merge.Newest.{entries}
use dart_sync.Tracker.Merge.Invariant.{IsTable, AllSlots, Unique, has_name}
use dart_sync.Tracker.Merge.Versions.{version, newest}
use dart_sync.Tracker.Peers.Chain.{Cell, IsPeers}
use dart_sync.Tracker.Peers.Leave.{delete_from_list_lem, without, closing}
use dart_sync.Tracker.State.{Tracker, prune_table, prune_ft, delete_peer}

-- Entry by entry the same file, held by the same peers but for `ip`.
abbrev pub Forgets : CString → List Node → List Node → Type 0
Forgets ip [] [] = Unit
Forgets ip [] (u ∷ us) = ⊥
Forgets ip (t ∷ ts) [] = ⊥
Forgets ip (t ∷ ts) (u ∷ us) =
    (u.name ≡ t.name)
    × (version u ≡ version t)
    × ((x : CString) → listed x u.newpeerip ≡ (listed x t.newpeerip && not (str_eq ip x)))
    × Forgets ip ts us

prune_table-Forgets :
    (ip : CString) (table : List Node) → AllSlots table → Forgets ip table (prune_table ip table)
unfolding prune_table
prune_table-Forgets ip [] w = tt
prune_table-Forgets ip (t ∷ rest) w =
    (refl, refl, λ x. listed-prune x ip t.newpeerip (w.0), prune_table-Forgets ip rest (w.1))

has_name-prune_table :
    (n ip : CString) (table : List Node) → has_name n (prune_table ip table) ≡ has_name n table
unfolding prune_table
has_name-prune_table n ip [] = refl
has_name-prune_table n ip (t ∷ rest) = ap (◌||◌ (str_eq t.name n)) (has_name-prune_table n ip rest)

Unique-prune_table :
    (ip : CString) (table : List Node) → Unique table → Unique (prune_table ip table)
unfolding prune_table
Unique-prune_table ip [] u = tt
Unique-prune_table ip (t ∷ rest) u =
    (rw (has_name-prune_table t.name ip rest) (u.0), Unique-prune_table ip rest (u.1))

AllSlots-prune_table :
    (ip : CString) (table : List Node) → AllSlots table → AllSlots (prune_table ip table)
unfolding prune_table
AllSlots-prune_table ip [] w = tt
AllSlots-prune_table ip (t ∷ rest) w =
    (prune-IsSlots ip t.newpeerip (w.0), AllSlots-prune_table ip rest (w.1))

newest-prune_table :
    (n ip : CString) (table : List Node) → newest n (prune_table ip table) ≡ newest n table
unfolding prune_table
newest-prune_table n ip [] = refl
newest-prune_table n ip (t ∷ rest) = rw (newest-prune_table n ip rest) refl

pub newest-prune_ft :
    (n ip : CString) (ft : Option (List Node))
    → newest n (entries (prune_ft ip ft)) ≡ newest n (entries ft)
unfolding prune_ft
newest-prune_ft n ip none = refl
newest-prune_ft n ip (some table) = newest-prune_table n ip table

pub prune_ft-Forgets :
    (ip : CString) (ft : Option (List Node))
    → IsTable (entries ft)
    → IsTable (entries (prune_ft ip ft)) × Forgets ip (entries ft) (entries (prune_ft ip ft))
unfolding prune_ft
prune_ft-Forgets ip none w = (w, tt)
prune_ft-Forgets ip (some table) w = (
  record {
    unique = Unique-prune_table ip table w.unique;
    slots = AllSlots-prune_table ip table w.slots;
  },
  prune_table-Forgets ip table w.slots,
)

-- When the first peer of the list has another socket and the loop may run often enough,
-- delete_peer takes the first other peer with the socket out of the list, closes the socket
-- exactly if it was there, keeps the table well-formed and takes the address out of every entry
-- while files, versions and other holders stay.
pub delete_peer_lem :
    (rounds sock : ℕ) (ip : CString) (tr : Tracker) (c : Cell) (xs : List Cell)
    → IsTable (entries tr.ft)
    → IsPeers tr.peers (c ∷ xs)
    → length xs < rounds
    → (c.sock == sock) ≡ false
    → (tr' : Tracker) × (delete_peer rounds tr sock ip ≡ ok tr')
      × IsPeers tr'.peers (c ∷ without sock xs)
      × (tr'.peers.closed ≡ closing sock xs tr.peers.closed)
      × IsTable (entries tr'.ft)
      × Forgets ip (entries tr.ft) (entries tr'.ft)
unfolding delete_peer
delete_peer_lem rounds sock ip tr c xs wt wp fuel other =
    let (ps', got, left, closed, _, _) =
      delete_from_list_lem rounds sock tr.peers c xs wp fuel other in
    let (table, forgets) = prune_ft-Forgets ip tr.ft wt in
    (record tr { ft = prune_ft ip tr.ft; peers = ps' }, rw got refl, left, closed, table, forgets)

-- What `delete_peer` does to the table does not depend on the list.
pub delete_peer-ft :
    (rounds sock : ℕ) (ip : CString) (tr tr' : Tracker)
    → delete_peer rounds tr sock ip ≡ ok tr'
    → tr'.ft ≡ prune_ft ip tr.ft
unfolding delete_peer
delete_peer-ft rounds sock ip tr tr' e =
    let (ps', _, made) = >>=-ok_inv (delete_from_list rounds tr.peers sock) _ tr' e in
    let same : record tr { ft = prune_ft ip tr.ft; peers = ps' } ≡ tr' = cc made in
    sym (ap (λ (t : Tracker). t.ft) same)
