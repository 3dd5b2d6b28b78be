-- ===== src/Tracker/Peers.antt =====
-- tracker/tracker.c: the list of connected peers, `peer_head`, on an explicit heap, since
-- `delete_peer` frees nodes that other pointers still lead to. Each loop over the list takes the number
-- of rounds that it may run; one more than the length of the list is enough.
pub mod Chain
pub mod Join
pub mod Heard
pub mod Leave
pub mod Dangling
pub mod Tests
use dart_sync.Base.{
  ℕ, zero, suc, ◌+◌, ◌-◌, ◌%◌, ◌^◌, Bool, true, false, ◌&&◌, Option, none, some, List, ◌∷◌, CString,
  ltb, ◌==◌, if◌then◌else◌, Outcome, ok, fault, out_of_fuel, ◌>>=◌,
}

abbrev pub Ptr : Type 0
Ptr = ℕ

abbrev pub null : Ptr
null = 0

-- `tracker_peer_t`
pub record Peer : Type 0 where
  pub ip : CString
  pub last_time_stamp : ℕ
  pub sockfd : ℕ
  pub next : Ptr

abbrev pub Heap : Type 0
Heap = Ptr → Option Peer

-- The list with the sockets that `close` was called on, the latest first.
pub record Peers : Type 0 where
  pub heap : Heap
  pub peer_head : Ptr
  pub closed : List ℕ

-- `none` gives the address back.
unfoldable pub write : Heap → Ptr → Option Peer → Heap
write h p c a = if a == p then c else h a

-- `*p`: a fault at NULL and at an address that holds no node.
unfoldable pub load : Heap → Ptr → Outcome Peer
load h p = if p == null then fault else elim (h p) [ none ↦ fault | some n ↦ ok n ]

-- The walk of `add_peer` to the last node; `none` if an earlier node has the socket.
pub find_last : ℕ → Heap → ℕ → Ptr → Outcome (Option Ptr)
find_last zero h sock temp = out_of_fuel
find_last (suc k) h sock temp = do
  n ← load h temp
  let further = find_last k h sock n.next
  if n.next == null then ok (some temp) else if n.sockfd == sock then ok none else further

abbrev pub new_peer : CString → ℕ → ℕ → Peer
new_peer ip now sock = record { ip = ip; last_time_stamp = now; sockfd = sock; next = null }

-- `calloc` returns `fresh`, and `time(NULL)` is `now`. The flag is true for 1 and false for -1.
pub add_peer : ℕ → Ptr → ℕ → Peers → ℕ → CString → Outcome (Bool × Peers)
unfolding find_last
add_peer rounds fresh now ps sock ip =
    if ps.peer_head == null
    then ok (
      true,
      record ps { heap = write ps.heap fresh (some (new_peer ip now sock)); peer_head = fresh },
    )
    else do
      last ← find_last rounds ps.heap sock ps.peer_head
      elim last [
        | none ↦ ok (false, ps)
        | some p ↦ do
          n ← load ps.heap p
          let linked = write ps.heap p (some (record n { next = fresh }))
          ok (true, record ps { heap = write linked fresh (some (new_peer ip now sock)) })
      ]

-- `temp->next = temp->next->next; free(node)` for the nodes `n` at `temp` and `m` behind it.
abbrev pub unlinked : Peers → Ptr → Peer → Peer → Peers
unlinked ps temp n m = record ps {
  heap = write (write ps.heap temp (some (record n { next = m.next }))) n.next none;
  closed = m.sockfd ∷ ps.closed;
}

-- The last loop of `delete_peer`. At the head it frees the node and leaves `peer_head` as it is.
pub unlink : ℕ → Peers → ℕ → Ptr → Outcome Peers
unlink zero ps sock temp = out_of_fuel
unlink (suc k) ps sock temp = do
  n ← load ps.heap temp
  let further = unlink k ps sock n.next
  if n.next == null
      then ok ps
      else if temp == ps.peer_head && n.sockfd == sock
      then ok (record ps { heap = write ps.heap temp none; closed = n.sockfd ∷ ps.closed })
      else do
        m ← load ps.heap n.next
        if m.sockfd == sock then ok (unlinked ps temp n m) else further

pub delete_from_list : ℕ → Peers → ℕ → Outcome Peers
unfolding unlink
delete_from_list rounds ps sock = unlink rounds ps sock ps.peer_head

pub find_heard : ℕ → ℕ → Peers → ℕ → Ptr → Outcome (Bool × Peers)
find_heard zero now ps sock temp = out_of_fuel
find_heard (suc k) now ps sock temp = if temp == null then ok (false, ps) else do
  n ← load ps.heap temp
  let further = find_heard k now ps sock n.next
  if n.sockfd == sock
      then ok (
        true,
        record ps { heap = write ps.heap temp (some (record n { last_time_stamp = now })) },
      )
      else further

pub heard_peer : ℕ → ℕ → Peers → ℕ → Outcome (Bool × Peers)
unfolding find_heard
heard_peer rounds now ps sock = find_heard rounds now ps sock ps.peer_head
