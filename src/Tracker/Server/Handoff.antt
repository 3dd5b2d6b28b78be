-- ===== src/Tracker/Server/Handoff.antt =====
-- How `main` hands a connection to the thread that serves it.
use dart_sync.Base.{ℕ, ◌<◌, ◌≡◌, refl, Bool, CString, ok, ◌∷◌}
use dart_sync.Tracker.Peers.{Ptr, Peers, add_peer}
use dart_sync.Tracker.Server.{Server, accept, start, Reach, here, further, accepted, new_thread}

-- When two connections are accepted before a thread has started, both threads serve the second one.
pub Reach-accepted :
    (rounds : ℕ) (s : Server) (fresh fresh' : Ptr) (now now' conn conn' : ℕ) (ip ip' : CString)
    (added added' : Bool) (peers' peers'' : Peers)
    → 0 < conn
    → 0 < conn'
    → add_peer rounds fresh now s.world.tracker.peers conn ip ≡ ok (added, peers')
    → add_peer rounds fresh' now' peers' conn' ip' ≡ ok (added', peers'')
    → Reach rounds s (record (accepted s conn' peers'') {
      threads = new_thread conn' ∷ new_thread conn' ∷ s.threads;
      starting = s.starting;
    })
Reach-accepted rounds s fresh fresh' now now' conn conn' ip ip' added added' peers' peers'' h h' e
      e' =
    further
      (further
        (further (further here (accept fresh now conn ip added peers' h e))
          (accept fresh' now' conn' ip' added' peers'' h' e'))
        (start _ refl))
      (start _ refl)
