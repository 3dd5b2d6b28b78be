-- ===== src/Packet/Bytes.antt =====
-- common/pkt.c: `peer_receiver` and `tracker_receiver`, which put a packet together from single bytes,
-- and `tracker_recvpkt`. A stream is the list of bytes that arrive before the connection ends. How a
-- struct lies in memory is the compiler's: a parameter.
pub mod Framing
mod Tests
use dart_sync.Base.{
  ℕ, zero, suc, Bool, true, false, Option, none, some, List, [], ◌∷◌, ◌++◌, ◌==◌, if◌then◌else◌,
  length, ◌≡◌, ◌<◌,
}
use dart_sync.Packet.{PeerPkt, TrackerPkt}

-- The bytes of a struct, the struct at some bytes, and `sizeof`.
pub record Layout (A : Type 0) : Type 0 where
  pub encode : A → List ℕ
  pub decode : List ℕ → A
  pub size : ℕ

-- What `memmove` of the struct `a` into bytes and back relies on.
pub record Fits {A : Type 0} (lay : Layout A) (a : A) : Type 0 where
  pub restores : lay.decode (lay.encode a) ≡ a
  pub fills : length (lay.encode a) ≡ lay.size

-- `while (recv(conn, &c, 1, 0) > 0)`, with `buf` filled up to `idx`: the buffer when it is full, and
-- the bytes behind it; `none` when the connection ends before.
pub receive_loop : ℕ → ℕ → List ℕ → List ℕ → Option (List ℕ) × List ℕ
receive_loop bufsize idx buf [] = (none, [])
receive_loop bufsize idx buf (c ∷ stream) =
    let rest = receive_loop bufsize (suc idx) (buf ++ c ∷ []) stream in
    if suc idx == bufsize then (some (buf ++ c ∷ []), stream) else rest

module _ {A : Type 0} (lay : Layout A) where
  -- `memmove` of the full buffer into the packet.
  pub receive_packet : List ℕ → Option A × List ℕ
  unfolding receive_loop
  receive_packet stream =
      let (filled, rest) = receive_loop lay.size 0 [] stream in
      (elim filled [ none ↦ none | some buf ↦ some (lay.decode buf) ], rest)

abbrev pub peer_receiver : Layout TrackerPkt → List ℕ → Option TrackerPkt × List ℕ
peer_receiver lay = receive_packet lay

abbrev pub tracker_receiver : Layout PeerPkt → List ℕ → Option PeerPkt × List ℕ
tracker_receiver lay = receive_packet lay

-- `none` for -1.
abbrev pub tracker_recvpkt : Layout PeerPkt → List ℕ → Option PeerPkt × List ℕ
tracker_recvpkt lay stream = tracker_receiver lay stream

-- `while (tracker_recvpkt(connection, recv_pkt) > 0)`: the packets, in at most so many rounds.
pub receive_all : {A : Type 0} → Layout A → ℕ → List ℕ → Option (List A)
receive_all lay zero stream = none
receive_all lay (suc k) stream = elim (receive_packet lay stream).0 [
  | none ↦ some []
  | some pkt ↦ elim (receive_all lay k (receive_packet lay stream).1) [
    | none ↦ none
    | some pkts ↦ some (pkt ∷ pkts)
  ]
]
