-- ===== src/Peer/Folders/Reads/Whole.antt =====
-- The division of the kernel's events into reads does not matter.
use dart_sync.Base.{
  ℕ, zero, suc, ◌-◌, ◌≡◌, ◌<◌, ◌≤◌, refl, ◌∙◌, sym, subst, Option, none, some, List, [], ◌∷◌, ◌++◌,
  CString, length, take, drop, replicate, arith, length-append, length-replicate, All, Outcome, ok,
  ◌>>=◌, >>=-cong, >>=-assoc,
}
use dart_sync.Packet.Bytes.{Layout, Fits}
use dart_sync.Peer.Transfer.{until_zero}
use dart_sync.Peer.Transfer.Bytes.{take-append, drop-append, until_zero-padded}
use dart_sync.Peer.Folders.Reads.{Header, Around, Watching, next_event, event_loop, notify_loop}

pub record Event : Type 0 where
  pub header : Header
  pub name : CString

-- The kernel fills the name up to `len` with zeroes.
abbrev pub padded : Event → List ℕ
padded e = e.name ++ replicate (e.header.len - length e.name) 0

module _ (lay : Layout Header) where
  -- What the kernel writes for an event.
  pub record Written (e : Event) : Type 0 where
    pub fits : Fits lay e.header
    pub text : until_zero e.name ≡ e.name
    pub short : length e.name ≤ e.header.len

  abbrev pub buffer_of : List Event → List ℕ
  buffer_of [] = []
  buffer_of (e ∷ events) = lay.encode e.header ++ (padded e ++ buffer_of events)

  abbrev pub reads_of : List (Option (List Event)) → List (Option (List ℕ))
  reads_of [] = []
  reads_of (none ∷ groups) = none ∷ reads_of groups
  reads_of (some events ∷ groups) = some (buffer_of events) ∷ reads_of groups

  -- Every event of the call is written so, and there are enough rounds.
  abbrev pub IsRead : ℕ → Option (List Event) → Type 0
  IsRead rounds none = Unit
  IsRead rounds (some events) = All Written events × (length events < rounds)

-- All events of the calls, in order.
abbrev pub events_of : List (Option (List Event)) → List Event
events_of [] = []
events_of (none ∷ groups) = events_of groups
events_of (some events ∷ groups) = events ++ events_of groups

length-padded : (e : Event) → length e.name ≤ e.header.len → length (padded e) ≡ e.header.len
length-padded e h = omega (
  arith,
  length-append e.name (replicate (e.header.len - length e.name) 0),
  length-replicate {A = ℕ} (e.header.len - length e.name) 0,
)

module _ (lay : Layout Header) (around : ℕ → Around) where
  -- One event after the other.
  pub handle : List Event → Watching → Outcome Watching
  handle [] w = ok w
  handle (e ∷ events) w = do w' ← next_event lay around e.header e.name w; handle events w'

  handle-append :
      (xs ys : List Event) (w : Watching) → handle (xs ++ ys) w ≡ (handle xs w >>= handle ys)
  unfolding handle
  handle-append [] ys w = refl
  handle-append (e ∷ xs) ys w =
      let first = next_event lay around e.header e.name w in
      >>=-cong first _ _ (handle-append xs ys)
      ∙ sym (>>=-assoc first (λ w'. handle xs w') (λ w'. handle ys w'))

module _ (lay : Layout Header) (large : 0 < lay.size) (around : ℕ → Around) where
  event_loop-more :
      (k : ℕ) (buffer : List ℕ) (w : Watching)
      → 0 < length buffer
      → event_loop lay around (suc k) buffer w ≡ (
          next_event lay around
            (lay.decode (take lay.size buffer))
            (until_zero (take (lay.decode (take lay.size buffer)).len (drop lay.size buffer)))
            w
          >>= event_loop lay around k
              (drop (lay.decode (take lay.size buffer)).len (drop lay.size buffer)))
  unfolding event_loop
  event_loop-more k [] w h = absurd (omega (arith, h))
  event_loop-more k (b ∷ bs) w h = refl

  event_loop-events :
      (k : ℕ) (events : List Event) (w : Watching)
      → All (Written lay) events
      → length events < k
      → event_loop lay around k (buffer_of lay events) w ≡ handle lay around events w
  unfolding event_loop handle
  event_loop-events zero events w h few = absurd (omega (arith, few))
  event_loop-events (suc k) [] w h few = refl
  event_loop-events (suc k) (e ∷ events) w (written, more) few =
      let rest = padded e ++ buffer_of lay events in
      let fits = written.fits in
      let some_bytes : 0 < length (lay.encode e.header ++ rest) =
        omega (arith, length-append (lay.encode e.header) rest, fits.fills, large) in
      let header : take lay.size (lay.encode e.header ++ rest) ≡ lay.encode e.header =
        rw (← fits.fills) (take-append (lay.encode e.header) rest) in
      let body : drop lay.size (lay.encode e.header ++ rest) ≡ rest =
        rw (← fits.fills) (drop-append (lay.encode e.header) rest) in
      let full = length-padded e written.short in
      let name : take e.header.len rest ≡ padded e =
        subst (λ n. take n rest ≡ padded e) full (take-append (padded e) (buffer_of lay events)) in
      let next : drop e.header.len rest ≡ buffer_of lay events =
        subst (λ n. drop n rest ≡ buffer_of lay events) full
          (drop-append (padded e) (buffer_of lay events)) in
      let text : until_zero (padded e) ≡ e.name =
        subst (λ n. until_zero (n ++ replicate (e.header.len - length e.name) 0) ≡ n) written.text
          (until_zero-padded e.name (e.header.len - length e.name)) in
      rw
        (
          event_loop-more k (lay.encode e.header ++ rest) w some_bytes,
          header,
          fits.restores,
          body,
          name,
          text,
          next,
        )
        (>>=-cong (next_event lay around e.header e.name w) _ _
          λ w'. event_loop-events k events w' more (omega (arith, few)))

  -- However the kernel divides its events among the calls of read and whichever calls fail, the
  -- loop of notify over the bytes does what handling the events one after the other does, faults
  -- included, when the bytes of a header have the size of the struct, at least one byte, and
  -- restore it, a name has no zero byte, stands in full in its place and is filled up with zeroes,
  -- and there are more rounds than events in a call.
  pub notify_loop-events_of :
      (rounds : ℕ) (groups : List (Option (List Event))) (w : Watching)
      → All (IsRead lay rounds) groups
      → notify_loop lay around rounds (reads_of lay groups) w
        ≡ handle lay around (events_of groups) w
  unfolding notify_loop handle
  notify_loop-events_of rounds [] w h = refl
  notify_loop-events_of rounds (none ∷ groups) w h = notify_loop-events_of rounds groups w (h.1)
  notify_loop-events_of rounds (some events ∷ groups) w ((written, few), more) =
      rw (event_loop-events rounds events w written few) (
        >>=-cong (handle lay around events w) _ _
          (λ w'. notify_loop-events_of rounds groups w' more)
        ∙ sym (handle-append lay around events (events_of groups) w))
