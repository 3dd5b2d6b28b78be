-- ===== src/Socket.antt =====
-- The socket on which a program listens, as `main` of tracker/tracker.c and `ptp_listen_thread_init` of
-- peer/peer.c open it. What the kernel answers to the calls is an argument.
use dart_sync.Base.{ℕ, Bool, Option, none, some, if◌then◌else◌}

-- `socket` gives a descriptor or fails; `bind` is asked with a port, `listen` with the length of its
-- queue.
pub record Kernel : Type 0 where
  pub socket : Option ℕ
  pub bind : ℕ → ℕ → Bool
  pub listen : ℕ → ℕ → Bool

-- `none` where the caller gives up.
unfoldable pub open_listener : ℕ → ℕ → Kernel → Option ℕ
open_listener port queue k = elim k.socket [
  | none ↦ none
  | some sockfd ↦
      if k.bind sockfd port then (if k.listen sockfd queue then some sockfd else none) else none
]
