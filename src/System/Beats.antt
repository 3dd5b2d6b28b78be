-- ===== src/System/Beats.antt =====
-- The heartbeat over time: the threads `keep_alive` of all peers (peer/peer.c), the tracker's threads
-- that hear them, and the loop of `heartbeat` (tracker/tracker.c), in any order.
use dart_sync.Base.{
  ℕ, ◌+◌, ◌^◌, ◌<◌, ◌≤◌, ◌≡◌, refl, ◌∙◌, arith, List, [], ◌∷◌, CString, length, Outcome, ok, ◌>>=◌,
  All,
}
use dart_sync.Table.{Node, heartbeat_timeout}
use dart_sync.Packet.{PeerPkt}
use dart_sync.Packet.Served.{served, peer_sendpkt-keep_alive}
use dart_sync.Tracker.Peers.Chain.{Cell, IsPeers, has_sock}
use dart_sync.Tracker.Peers.Heard.{touch, heard_peer_lem}
use dart_sync.Tracker.State.{heartbeat_pass}
use dart_sync.Tracker.State.Heartbeat.{AllHeard, heartbeat_pass-keeps}
use dart_sync.Tracker.Session.{World, Session, handshake_step}
use dart_sync.Tracker.Session.Reply.{handshake_step-keep_alive}
use dart_sync.Peer.Main.{keep_alive_round}
use dart_sync.System.Alive.{expired_not, length-touch}

-- A round of `keep_alive` in a peer with this `tracker_conn`, address and table, whose packet the
-- tracker reads from the socket `conn` at the time `now`; or a pass of `heartbeat` at a time.
pub data Beat : Type 0 where
  kept : (conn now tracker_conn : ℕ) (myip : CString) (table : List Node) → Beat
  pass : (now : ℕ) → Beat

-- The packets that one round sends.
abbrev pub sent_by : ℕ → CString → List Node → List (ℕ × PeerPkt)
sent_by tracker_conn myip table = (keep_alive_round tracker_conn myip table (served [] [])).sent

abbrev pub hear : ℕ → (ℕ → Session) → ℕ → ℕ → List (ℕ × PeerPkt) → World → Outcome World
hear rounds sessions conn now [] w = ok w
hear rounds sessions conn now ((_, pkt) ∷ pkts) w = do
  (w', _) ← handshake_step rounds conn now w (sessions conn) pkt
  hear rounds sessions conn now pkts w'

-- `sessions` are those of the tracker's threads, which a KEEP_ALIVE leaves alone.
pub beats : ℕ → (ℕ → Session) → List Beat → World → Outcome World
beats rounds sessions [] w = ok w
beats rounds sessions (kept conn now tracker_conn myip table ∷ rest) w = do
  w' ← hear rounds sessions conn now (sent_by tracker_conn myip table) w
  beats rounds sessions rest w'
beats rounds sessions (pass now ∷ rest) w = do
  tr ← heartbeat_pass rounds rounds now w.tracker w.tracker.peers.peer_head
  beats rounds sessions rest (record w { tracker = tr })

-- When each peer was heard last.
abbrev pub heard_after : List Beat → List Cell → List Cell
heard_after [] xs = xs
heard_after (kept conn now tracker_conn myip table ∷ rest) xs = heard_after rest (touch conn now xs)
heard_after (pass now ∷ rest) xs = heard_after rest xs

-- At the time `now` the peer was heard at most HEARTBEAT_TIMEOUT ago.
pub record InTime (now : ℕ) (c : Cell) : Type 0 where
  pub past : c.last ≤ now
  pub soon : now ≤ c.last + heartbeat_timeout

-- Every pass finds every peer in time.
abbrev pub Punctual : List Beat → List Cell → Type 0
Punctual [] xs = Unit
Punctual (kept conn now tracker_conn myip table ∷ rest) xs = Punctual rest (touch conn now xs)
Punctual (pass now ∷ rest) xs = (now < 2 ^ 64) × All (InTime now) xs × Punctual rest xs

AllHeard-InTime : (now : ℕ) (xs : List Cell) → now < 2 ^ 64 → All (InTime now) xs → AllHeard now xs
AllHeard-InTime now [] fits a = tt
AllHeard-InTime now (c ∷ xs) fits (h, a) =
    (expired_not c.last now h.past h.soon fits, AllHeard-InTime now xs fits a)

-- Where every send succeeds, from a well-formed list of peers, with more rounds than peers,
-- whatever rounds of keep_alive in the peers, packets of these in the tracker and passes of
-- heartbeat follow on each other, as long as each pass comes, before the clock has 2^64 seconds,
-- at most HEARTBEAT_TIMEOUT after every peer was heard or connected: nothing faults, no peer is
-- removed, no socket closed, nothing sent to a peer and the file table kept, and the list has the
-- time at which each peer was heard last.
pub beats-Punctual :
    (rounds : ℕ) (sessions : ℕ → Session) (schedule : List Beat) (w : World) (xs : List Cell)
    → IsPeers w.tracker.peers xs
    → length xs < rounds
    → Punctual schedule xs
    → (w' : World) × (beats rounds sessions schedule w ≡ ok w')
      × IsPeers w'.tracker.peers (heard_after schedule xs)
      × (w'.tracker.ft ≡ w.tracker.ft)
      × (w'.tracker.peers.closed ≡ w.tracker.peers.closed)
      × (w'.net ≡ w.net)
unfolding beats
beats-Punctual rounds sessions [] w xs wf fuel h = (w, refl, wf, refl, refl, refl)
beats-Punctual rounds sessions (kept conn now tracker_conn myip table ∷ rest) w xs wf fuel h =
    let (ps', got, wf', same) = heard_peer_lem rounds now conn w.tracker.peers xs wf fuel in
    let w1 : World = record w { tracker = record w.tracker { peers = ps' } } in
    let (w', done, wf2, ft, closed, net) =
      beats-Punctual rounds sessions rest w1 (touch conn now xs) wf'
        (omega (arith, length-touch conn now xs, fuel)) h in
    (
      w',
      rw
          (
            peer_sendpkt-keep_alive tracker_conn myip table (served [] []) refl,
            handshake_step-keep_alive rounds conn now w (sessions conn) myip table
                (has_sock conn xs) ps' got,
          )
          done,
      wf2,
      ft,
      closed ∙ same,
      net,
    )
beats-Punctual rounds sessions (pass now ∷ rest) w xs wf fuel (fits, soon, more) =
    let (w', done, wf2, ft, closed, net) = beats-Punctual rounds sessions rest w xs wf fuel more in
    (
      w',
      rw
          (heartbeat_pass-keeps rounds rounds now w.tracker xs fuel wf
            (AllHeard-InTime now xs fits soon))
          done,
      wf2,
      ft,
      closed,
      net,
    )
