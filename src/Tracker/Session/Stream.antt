-- ===== src/Tracker/Session/Stream.antt =====
-- tracker/tracker.c: `handshake` on the bytes that arrive at its socket, up to the end of the
-- connection.
use dart_sync.Base.{
  ℕ, suc, ◌≡◌, ◌<◌, ◌≤◌, refl, ◌∙◌, none, some, List, [], ◌∷◌, ◌++◌, CString, arith, length,
  length-append, Outcome, ok, out_of_fuel, ◌>>=◌, All,
}
use dart_sync.Table.{Node, file_update}
use dart_sync.Packet.{PeerPkt, Wire, wires, peer_pkts, peer_header}
use dart_sync.Packet.Bytes.{Layout, Fits, receive_all}
use dart_sync.Packet.Bytes.Framing.{stream_of, receive_all-stream_of}
use dart_sync.Tracker.State.{delete_peer}
use dart_sync.Tracker.Session.{World, last_ip, handshake, unset}
use dart_sync.Tracker.Session.Update.{stamp, announce, handshake_steps-announce}

-- `clock` gives the time of each packet. As many rounds as bytes, and one more, are enough.
pub handshake_stream : Layout PeerPkt → (ℕ → ℕ) → ℕ → ℕ → World → List ℕ → Outcome World
handshake_stream lay clock rounds conn w stream =
    elim (receive_all lay (suc (length stream)) stream) [
      | none ↦ out_of_fuel
      | some pkts ↦ handshake rounds conn w (stamp clock 0 pkts)
    ]

length-stream_of :
    {A : Type 0} (lay : Layout A) (pkts : List A)
    → 0 < lay.size
    → All (Fits lay) pkts
    → length pkts ≤ length (stream_of lay pkts)
length-stream_of lay [] large w = omega arith
length-stream_of lay (pkt ∷ pkts) large w = omega (
  arith,
  w.0.fills,
  large,
  length-append (lay.encode pkt) (stream_of lay pkts),
  length-stream_of lay pkts large w.1,
)

last_ip-peer_pkts :
    (clock : ℕ → ℕ) (j : ℕ) (ip : CString) (files : List Wire)
    → last_ip (stamp clock j (peer_pkts file_update ip files)) ip ≡ ip
unfolding last_ip peer_pkts
last_ip-peer_pkts clock j ip [] = refl
last_ip-peer_pkts clock j ip (file ∷ files) = last_ip-peer_pkts clock (suc j) ip files

handshake_stream-some :
    (lay : Layout PeerPkt) (clock : ℕ → ℕ) (rounds conn : ℕ) (w : World) (stream : List ℕ)
    (pkts : List PeerPkt)
    → receive_all lay (suc (length stream)) stream ≡ some pkts
    → handshake_stream lay clock rounds conn w stream ≡ handshake rounds conn w (stamp clock 0 pkts)
unfolding handshake_stream
handshake_stream-some lay clock rounds conn w stream pkts e = rw (e, handshake_stream) refl

handshake-announce :
    (clock : ℕ → ℕ) (rounds conn : ℕ) (w : World) (ip : CString) (table : List Node)
    → handshake rounds conn w
        (stamp clock 0 (peer_header file_update ip table ∷ peer_pkts file_update ip (wires table)))
      ≡ (announce rounds w table >>= (λ done.
          delete_peer rounds done.0.tracker conn ip
          >>= (λ tr'. ok (record done.0 { tracker = tr' }))))
unfolding handshake last_ip
handshake-announce clock rounds conn w ip table =
    rw
      (
        handshake_steps-announce rounds conn clock w ip 0 unset table,
        last_ip-peer_pkts clock 1 ip (wires table),
      )
      refl

-- Handshake on the bytes of one announcement and of a packet that breaks off is one
-- update_filetable with the announced table, one broadcast and one delete_peer with the
-- announcer's address, when each packet has the size of the struct, at least one byte, and is
-- restored from its bytes.
pub handshake_stream-announcement :
    (lay : Layout PeerPkt) (clock : ℕ → ℕ) (rounds conn : ℕ) (w : World) (ip : CString)
    (table : List Node) (broken : List ℕ)
    → 0 < lay.size
    → All (Fits lay) (peer_header file_update ip table ∷ peer_pkts file_update ip (wires table))
    → length broken < lay.size
    → handshake_stream lay clock rounds conn w (
        stream_of lay (peer_header file_update ip table ∷ peer_pkts file_update ip (wires table))
        ++ broken)
      ≡ (announce rounds w table >>= (λ done.
          delete_peer rounds done.0.tracker conn ip
          >>= (λ tr'. ok (record done.0 { tracker = tr' }))))
handshake_stream-announcement lay clock rounds conn w ip table broken large w0 short =
    let pkts : List PeerPkt =
      peer_header file_update ip table ∷ peer_pkts file_update ip (wires table) in
    let bytes : List ℕ = stream_of lay pkts ++ broken in
    handshake_stream-some lay clock rounds conn w bytes pkts (
      receive_all-stream_of lay large (suc (length bytes)) pkts broken w0 short (
        omega
          (arith, length-append (stream_of lay pkts) broken, length-stream_of lay pkts large w0)))
    ∙ handshake-announce clock rounds conn w ip table
