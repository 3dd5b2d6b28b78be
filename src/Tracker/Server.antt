-- ===== src/Tracker/Server.antt =====
-- tracker/tracker.c: the whole tracker, `main` with the threads that it starts. A step is one accepted
-- connection, the start of a thread, one packet in a thread, the end of a thread, or one pass of
-- `heartbeat`, in any order; the source takes no lock, so finer interleavings than these exist too.
pub mod Safety
pub mod Sessions
pub mod Handoff
mod Tests
use dart_sync.Base.{
  ℕ, zero, suc, ◌<◌, ◌≡◌, Bool, Option, none, some, List, [], ◌∷◌, ◌++◌, CString, Outcome, ok,
}
use dart_sync.Table.{handshake_port}
use dart_sync.Socket.{Kernel, open_listener}
use dart_sync.Packet.{PeerPkt, TrackerPkt, Net}
use dart_sync.Tracker.Peers.{Ptr, null, Peers, add_peer}
use dart_sync.Tracker.State.{Tracker, delete_peer, heartbeat_pass}
use dart_sync.Tracker.Session.{World, Session, fresh_session, handshake_step}

-- A running `handshake`: `connection`, the address in `recv_pkt`, and its other locals.
pub record Thread : Type 0 where
  pub connection : ℕ
  pub peer_ip : CString
  pub session : Session

-- `connection` is the variable of `main`, whose address every thread is given; `starting` counts the
-- threads that were created and have not read it yet.
pub record Server : Type 0 where
  pub world : World
  pub connection : ℕ
  pub starting : ℕ
  pub threads : List Thread

-- The globals and locals as the program starts: no file table, no peers, no thread. `outcomes` is what
-- the kernel will answer to each `send`.
abbrev pub started : List Bool → Server
started outcomes = record {
  world = record {
    tracker = record {
      ft = none;
      peers = record { heap = λ p. none; peer_head = null; closed = [] };
    };
    net = record { outcomes = outcomes; sent = []; closed = [] };
  };
  connection = 0;
  starting = 0;
  threads = [];
}

-- `main` up to its loop; `none` where it returns -1.
pub main_start : Kernel → List Bool → Option Server
main_start k outcomes = elim (open_listener handshake_port 1 k) [
  | none ↦ none
  | some peer_sockfd ↦ some (started outcomes)
]

-- The body of the loop of `main`: `add_peer`, whatever it returns, and `pthread_create`.
abbrev pub accepted : Server → ℕ → Peers → Server
accepted s conn peers' = record s {
  world = record s.world { tracker = record s.world.tracker { peers = peers' } };
  connection = conn;
  starting = suc s.starting;
}

-- `int connection = *(int *)arg`, and `calloc` of the packet.
abbrev pub new_thread : ℕ → Thread
new_thread conn = record { connection = conn; peer_ip = []; session = fresh_session }

pub data Step (rounds : ℕ) (s : Server) : Server → Type 0 where
  accept :
      (fresh : Ptr) (now conn : ℕ) (ip : CString) (added : Bool) (peers' : Peers)
      → 0 < conn
      → add_peer rounds fresh now s.world.tracker.peers conn ip ≡ ok (added, peers')
      → Step rounds s (accepted s conn peers')
  start :
      (n : ℕ)
      → s.starting ≡ suc n
      → Step rounds s (record s { starting = n; threads = new_thread s.connection ∷ s.threads })
  packet :
      (before after : List Thread) (t : Thread) (now : ℕ) (pkt : PeerPkt) (w' : World)
      (session' : Session)
      → s.threads ≡ before ++ t ∷ after
      → handshake_step rounds t.connection now s.world t.session pkt ≡ ok (w', session')
      → Step rounds s (record s {
        world = w';
        threads = before ++ record t { peer_ip = pkt.peer_ip; session = session' } ∷ after;
      })
  leave :
      (before after : List Thread) (t : Thread) (tr' : Tracker)
      → s.threads ≡ before ++ t ∷ after
      → delete_peer rounds s.world.tracker t.connection t.peer_ip ≡ ok tr'
      → Step rounds s
          (record s { world = record s.world { tracker = tr' }; threads = before ++ after })
  beat :
      (now : ℕ) (tr' : Tracker)
      → heartbeat_pass rounds rounds now s.world.tracker s.world.tracker.peers.peer_head ≡ ok tr'
      → Step rounds s (record s { world = record s.world { tracker = tr' } })

-- Any number of steps.
pub data Reach (rounds : ℕ) (s : Server) : Server → Type 0 where
  here : Reach rounds s s
  further : {u v : Server} → Reach rounds s u → Step rounds u v → Reach rounds s v
