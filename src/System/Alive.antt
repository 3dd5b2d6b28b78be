-- ===== src/System/Alive.antt =====
-- The heartbeat: `keep_alive` of a peer (peer/peer.c), `heard_peer` and `heartbeat` of the tracker
-- (tracker/tracker.c).
use dart_sync.Base.{
  ℕ, ◌+◌, ◌-◌, ◌%◌, ◌^◌, ◌<◌, ◌≤◌, ◌≡◌, refl, ◌⊎◌, inl, inr, arith, false, List, [], ◌∷◌, CString,
  ◌==◌, length, ok, All, Bool-cases,
}
use dart_sync.Table.{Node, keep_alive, heartbeat_timeout}
use dart_sync.Packet.{PeerPkt, Net, peer_header}
use dart_sync.Packet.Served.{peer_sendpkt-keep_alive}
use dart_sync.Tracker.Peers.Chain.{Cell, IsPeers, has_sock}
use dart_sync.Tracker.Peers.Heard.{touch, heard_peer_lem}
use dart_sync.Tracker.State.{expired, heartbeat_pass}
use dart_sync.Tracker.State.Heartbeat.{AllHeard, heartbeat_pass-keeps}
use dart_sync.Tracker.Session.{World, Session, handshake_step}
use dart_sync.Tracker.Session.Reply.{handshake_step-keep_alive}
use dart_sync.Tracker.Session.Broadcast.{count_sock}
use dart_sync.Peer.Main.{keep_alive_round}

-- A peer heard at `now` is in time until HEARTBEAT_TIMEOUT later.
pub expired_not :
    (now later : ℕ)
    → now ≤ later
    → later ≤ now + heartbeat_timeout
    → later < 2 ^ 64
    → expired later now ≡ false
expired_not now later h soon fits =
    let e : (later + 2 ^ 64 - now) % 2 ^ 64 ≡ later - now = omega arith in
    rw e (ground (arith, h, soon))

-- The peer with the socket, or one that is in time.
abbrev pub OrHeard : ℕ → ℕ → List Cell → Type 0
OrHeard conn later = All (λ (c : Cell). (c.sock ≡ conn) ⊎ (expired later c.last ≡ false))

AllHeard-absent :
    (conn later : ℕ) (xs : List Cell)
    → count_sock conn xs ≡ 0
    → OrHeard conn later xs
    → AllHeard later xs
AllHeard-absent conn later [] none_there h = tt
AllHeard-absent conn later (c ∷ xs) none_there h = elim (Bool-cases (c.sock == conn)) [
  | inl same ↦ absurd (ground (arith, same, none_there))
  | inr other ↦ (
    elim (h.0) [ inl e ↦ absurd (ground (arith, other, e)) | inr e ↦ e ],
    AllHeard-absent conn later xs (rw other at none_there) h.1,
  )
]

AllHeard-touch :
    (conn now later : ℕ) (xs : List Cell)
    → expired later now ≡ false
    → count_sock conn xs ≡ 1
    → OrHeard conn later xs
    → AllHeard later (touch conn now xs)
AllHeard-touch conn now later [] fresh once h = tt
AllHeard-touch conn now later (c ∷ xs) fresh once h = elim (Bool-cases (c.sock == conn)) [
  | inl same ↦ rw same (fresh, AllHeard-absent conn later xs (ground (arith, same, once)) h.1)
  | inr other ↦ rw other (
    elim (h.0) [ inl e ↦ absurd (ground (arith, other, e)) | inr e ↦ e ],
    AllHeard-touch conn now later xs fresh (rw other at once) h.1,
  )
]

pub length-touch : (conn now : ℕ) (xs : List Cell) → length (touch conn now xs) ≡ length xs
length-touch conn now [] = refl
length-touch conn now (c ∷ xs) = ground (arith, length-touch conn now xs)

-- When the send succeeds, in a well-formed list of peers the socket is listed once and every other
-- peer is in time, and times fit into 64 bits, keep_alive sends a packet that the thread of the
-- tracker handles without a fault, so that a pass of heartbeat with enough rounds up to
-- HEARTBEAT_TIMEOUT later keeps the tracker as it is, this peer included.
pub handshake_step-heartbeat_pass :
    (rounds conn sockfd now later : ℕ) (w : World) (s : Session) (myip : CString)
    (table : List Node) (net : Net PeerPkt) (xs : List Cell)
    → net.outcomes ≡ []
    → IsPeers w.tracker.peers xs
    → length xs < rounds
    → count_sock conn xs ≡ 1
    → OrHeard conn later xs
    → now ≤ later
    → later ≤ now + heartbeat_timeout
    → later < 2 ^ 64
    → ((keep_alive_round sockfd myip table net).sent
        ≡ (sockfd, peer_header keep_alive myip table) ∷ net.sent)
      × (w' : World) × (handshake_step rounds conn now w s (peer_header keep_alive myip table)
          ≡ ok (w', s))
      × (heartbeat_pass rounds rounds later w'.tracker w'.tracker.peers.peer_head ≡ ok w'.tracker)
      × IsPeers w'.tracker.peers (touch conn now xs)
handshake_step-heartbeat_pass rounds conn sockfd now later w s myip table net xs calm_net wf fuel
      once others h soon fits =
    let (ps', got, wf', _) = heard_peer_lem rounds now conn w.tracker.peers xs wf fuel in
    let w' : World = record w { tracker = record w.tracker { peers = ps' } } in
    (
      peer_sendpkt-keep_alive sockfd myip table net calm_net,
      w',
      handshake_step-keep_alive rounds conn now w s myip table (has_sock conn xs) ps' got,
      heartbeat_pass-keeps rounds rounds later w'.tracker (touch conn now xs)
          (omega (arith, length-touch conn now xs, fuel)) wf'
          (AllHeard-touch conn now later xs (expired_not now later h soon fits) once others),
      wf',
    )
