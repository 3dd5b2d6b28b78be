-- ===== src/Tracker/Slots.antt =====
-- tracker/tracker.c: the array `newpeerip` of an entry, which lists the peers that hold its newest
-- version. `update_filetable` scans and extends it, `delete_peer` takes a peer out of it.
pub mod Wf
pub mod Add
pub mod Rotate
pub mod Evict
pub mod Prune
use dart_sync.Base.{
  ℕ, zero, suc, ◌-◌, Bool, true, false, ◌&&◌, ◌||◌, not, List, [], ◌∷◌, CString, str_eq, is_empty,
  ltb, if◌then◌else◌, get_or, set, length,
}
use dart_sync.Table.{max_peer_num}

-- `for (index = 0; index < MAX_PEER_NUM && strlen(newpeerip[index]) != 0; index++)`, with
-- `peer_found` set at a place that holds `ip`; the list is what stands from `index` on.
pub scan_slots : CString → List CString → ℕ → Bool → ℕ × Bool
scan_slots ip [] index found = (index, found)
scan_slots ip (s ∷ rest) index found =
    if is_empty s then (index, found) else scan_slots ip rest (suc index) (found || str_eq s ip)

-- The branch `UPDATE_FILE_PEERS`: append `ip` unless it is there or the array is full.
pub add_slot : CString → List CString → List CString
unfolding scan_slots
add_slot ip ips =
    let (index, found) = scan_slots ip ips 0 false in
    if not found && ltb index max_peer_num then set ips index ip else ips

-- `for (counter = index + 1; counter < MAX_PEER_NUM && strlen(newpeerip[counter]) != 0; counter++)`
-- with `rounds = MAX_PEER_NUM - counter`.
pub skip_used : ℕ → List CString → ℕ → ℕ
skip_used zero ips counter = counter
skip_used (suc rounds) ips counter =
    if is_empty (get_or ips counter []) then counter else skip_used rounds ips (suc counter)

-- Overwrite the place by the last one in use, and clear that one.
pub evict : ℕ → List CString → ℕ → List CString
unfolding skip_used
evict rounds ips index =
    let counter = skip_used rounds ips (suc index) in
    let moved =
      if ltb index (counter - 1) then set ips index (get_or ips (counter - 1) []) else ips in
    set moved (counter - 1) []

-- The loop of `delete_peer` over the array, with `rounds = MAX_PEER_NUM - index`.
pub prune_loop : ℕ → CString → List CString → ℕ → List CString
unfolding evict
prune_loop zero ip ips index = ips
prune_loop (suc rounds) ip ips index =
    let rest =
      prune_loop rounds ip (if str_eq (get_or ips index []) ip then evict rounds ips index else ips)
        (suc index) in
    if is_empty (get_or ips index []) then ips else rest

pub prune : CString → List CString → List CString
unfolding prune_loop
prune ip ips = prune_loop max_peer_num ip ips 0
