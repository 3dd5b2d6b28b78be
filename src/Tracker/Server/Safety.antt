-- ===== src/Tracker/Server/Safety.antt =====
-- The tracker's table under every order of the steps of its threads.
use dart_sync.Base.{Bool, List, ℕ, CString}
use dart_sync.Tracker.Merge.Invariant.{IsTable}
use dart_sync.Tracker.Merge.Newest.{entries}
use dart_sync.Tracker.Merge.Versions.{newest}
use dart_sync.Tracker.History.{
  Evolves, still, Evolves-trans, Evolves-IsTable, Evolves-newest, AtMost,
}
use dart_sync.Tracker.State.Evolution.{delete_peer-Evolves, heartbeat_pass-Evolves}
use dart_sync.Tracker.Session.Evolution.{handshake_step-Evolves}
use dart_sync.Tracker.Server.{
  Server, started, Step, accept, start, packet, leave, beat, Reach, here, further,
}

Step-Evolves :
    (rounds : ℕ) {s s' : Server} → Step rounds s s' → Evolves s.world.tracker.ft s'.world.tracker.ft
Step-Evolves rounds (accept fresh now conn ip added peers' h e) = still
Step-Evolves rounds (start n e) = still
Step-Evolves rounds {s} (packet before after t now pkt w' session' e e') =
    handshake_step-Evolves rounds t.connection now s.world w' t.session session' pkt e'
Step-Evolves rounds {s} (leave before after t tr' e e') =
    delete_peer-Evolves rounds t.connection t.peer_ip s.world.tracker tr' e'
Step-Evolves rounds {s} (beat now tr' e) =
    heartbeat_pass-Evolves rounds rounds now s.world.tracker tr' s.world.tracker.peers.peer_head e

Reach-Evolves :
    (rounds : ℕ) {s s' : Server}
    → Reach rounds s s'
    → Evolves s.world.tracker.ft s'.world.tracker.ft
Reach-Evolves rounds here = still
Reach-Evolves rounds (further run step) =
    Evolves-trans (Reach-Evolves rounds run) (Step-Evolves rounds step)

-- After any steps of the tracker from its start, whatever the kernel answers to send, connections,
-- thread starts, packets, ends of threads and passes of heartbeat in any order, the tracker's
-- table has one entry to a name and well-formed newpeerip arrays.
pub Reach-IsTable :
    (rounds : ℕ) (outcomes : List Bool) {s : Server}
    → Reach rounds (started outcomes) s
    → IsTable (entries s.world.tracker.ft)
Reach-IsTable rounds outcomes run =
    Evolves-IsTable (Reach-Evolves rounds run) (record { unique = tt; slots = tt })

-- Whatever connections, thread starts, packets, ends of threads and passes of heartbeat follow on
-- each other, in any order, as far as no step faults the newest version of a name in the tracker's
-- table never goes down.
pub Reach-newest :
    (rounds : ℕ) (n : CString) {s s' : Server}
    → Reach rounds s s'
    → AtMost (newest n (entries s.world.tracker.ft)) (newest n (entries s'.world.tracker.ft))
Reach-newest rounds n run = Evolves-newest n (Reach-Evolves rounds run)
