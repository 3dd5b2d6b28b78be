-- ===== src/Peer/Folders/Reads.antt =====
-- peer/monitor.c, `notify`: the endless loop around `read` and the loop over the events in the buffer.
-- How the kernel lays out `struct inotify_event`, what it gives to each `read`, and what surrounds an
-- event, are parameters.
pub mod Whole
mod Tests
use dart_sync.Base.{
  ℕ, zero, suc, ◌-◌, Bool, Option, none, some, List, [], ◌∷◌, CString, ltb, ◌==◌, ◌+◌,
  if◌then◌else◌, length, take, drop, Outcome, ok, fault, out_of_fuel, ◌>>=◌,
}
use dart_sync.Table.{file_name_len}
use dart_sync.Packet.Bytes.{Layout}
use dart_sync.Peer.Transfer.{until_zero}
use dart_sync.Peer.Monitor.{Change, in_create, in_open, in_delete, in_modify, Stat}
use dart_sync.Peer.Folders.{folder_path, Monitor, notify_step}

-- The fields before the name: `wd`, the bits of `mask` that `notify` tests, and `len`.
pub record Header : Type 0 where
  pub wd : ℕ
  pub creates : Bool
  pub opens : Bool
  pub deletes : Bool
  pub modifies : Bool
  pub is_dir : Bool
  pub len : ℕ

-- What an event meets: the two calls of `stat`, the clock, and the address that `calloc` gives.
pub record Around : Type 0 where
  pub before : Stat
  pub stat : Stat
  pub now : ℕ
  pub fresh : ℕ

-- The tests of `mask`, in their order.
abbrev pub change_of : Header → Option Change
change_of h =
    if h.creates
    then some in_create
    else if h.opens
    then some in_open
    else if h.deletes
    then some in_delete
    else if h.modifies
    then some in_modify
    else none

-- One event: nothing without a name, and only `abspath` for a bit that is not tested.
pub event_step : Around → Header → CString → Monitor → Outcome Monitor
unfolding folder_path notify_step
event_step a h name m = if h.len == 0 then ok m else elim (change_of h) [
  | none ↦ do
    folder ← folder_path m.folders (h.wd - 1)
    if ltb (length folder + length name) file_name_len then ok m else fault
  | some kind ↦ notify_step kind h.is_dir (h.wd - 1) name a.before a.stat a.now a.fresh m
]

-- The monitor and how many events it has handled.
pub record Watching : Type 0 where
  pub monitor : Monitor
  pub handled : ℕ

module _ (lay : Layout Header) (around : ℕ → Around) where
  pub next_event : Header → CString → Watching → Outcome Watching
  next_event h name w = do
    m ← event_step (around w.handled) h name w.monitor
    ok (record { monitor = m; handled = suc w.handled })

  -- The loop over the buffer from `event_pnt` on, in at most so many rounds.
  pub event_loop : ℕ → List ℕ → Watching → Outcome Watching
  event_loop zero buffer w = out_of_fuel
  event_loop (suc k) [] w = ok w
  event_loop (suc k) (b ∷ bs) w =
      let h = lay.decode (take lay.size (b ∷ bs)) in
      let body = drop lay.size (b ∷ bs) in
      do w' ← next_event h (until_zero (take h.len body)) w; event_loop k (drop h.len body) w'

  -- The loop around `read`: the bytes of each call, `none` for a failure, which is only reported.
  pub notify_loop : ℕ → List (Option (List ℕ)) → Watching → Outcome Watching
  unfolding event_loop
  notify_loop rounds [] w = ok w
  notify_loop rounds (none ∷ reads) w = notify_loop rounds reads w
  notify_loop rounds (some buffer ∷ reads) w = do
    w' ← event_loop rounds buffer w
    notify_loop rounds reads w'
