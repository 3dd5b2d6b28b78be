-- ===== src/Packet/Served.antt =====
-- Sending on a network where every `send` succeeds.
use mathlib.Core.List.{append_assoc, append-nil}
use dart_sync.Base.{
  CString, ℕ, ◌≡◌, refl, ◌∙◌, true, some, List, [], ◌∷◌, ◌++◌, ◌==◌, if◌then◌else◌, Bool-cases, inl,
  inr,
}
use dart_sync.Table.{Node, register, keep_alive, file_update}
use dart_sync.Packet.{
  TrackerPkt, PeerPkt, Net, peer_header, peer_pkts, peer_sendpkt, send, send_all, wires,
  tracker_pkts, tracker_header, tracker_sendpkt,
}
use dart_sync.Packet.RoundTrip.{delivered, ==_refl}

abbrev pub served : {A : Type 0} → List (ℕ × A) → List ℕ → Net A
served sent closed = record { outcomes = []; sent = sent; closed = closed }

-- The log with packets to one socket added.
abbrev pub logged : {A : Type 0} → ℕ → List A → List (ℕ × A) → List (ℕ × A)
logged conn [] sent = sent
logged conn (pkt ∷ pkts) sent = logged conn pkts ((conn, pkt) ∷ sent)

-- The packets of a table.
abbrev pub table_pkts : List Node → List TrackerPkt
table_pkts table = tracker_header table ∷ tracker_pkts (wires table)

send_all-served :
    {A : Type 0} (conn : ℕ) (pkts : List A) (sent : List (ℕ × A)) (closed : List ℕ)
    → send_all conn pkts (served sent closed) ≡ (true, served (logged conn pkts sent) closed)
unfolding send_all send
send_all-served conn [] sent closed = refl
send_all-served conn (pkt ∷ pkts) sent closed =
    send_all-served conn pkts ((conn, pkt) ∷ sent) closed

pub tracker_sendpkt-served :
    (conn : ℕ) (table : List Node) (sent : List (ℕ × TrackerPkt)) (closed : List ℕ)
    → tracker_sendpkt conn (some table) (served sent closed)
      ≡ (true, served (logged conn (table_pkts table) sent) closed)
unfolding tracker_sendpkt send
tracker_sendpkt-served conn table sent closed =
    send_all-served conn (tracker_pkts (wires table)) ((conn, tracker_header table) ∷ sent) closed

pub delivered-logged :
    {A : Type 0} (sock conn : ℕ) (pkts : List A) (sent : List (ℕ × A))
    → delivered sock (logged conn pkts sent)
      ≡ delivered sock sent ++ (if conn == sock then pkts else [])
delivered-logged sock conn [] sent = elim (Bool-cases (conn == sock)) [
  | inl e ↦ rw (e, append-nil) refl
  | inr e ↦ rw (e, append-nil) refl
]
delivered-logged sock conn (pkt ∷ pkts) sent = elim (Bool-cases (conn == sock)) [
  | inl e ↦ delivered-logged sock conn pkts ((conn, pkt) ∷ sent) ∙ rw (e, append_assoc) refl
  | inr e ↦ delivered-logged sock conn pkts ((conn, pkt) ∷ sent) ∙ rw e refl
]

-- A REGISTER packet is a single `send`.
pub peer_sendpkt-register :
    (conn : ℕ) (myip : CString) (net : Net PeerPkt)
    → net.outcomes ≡ []
    → (peer_sendpkt conn myip [] register net).0 ≡ true
unfolding peer_sendpkt send
peer_sendpkt-register conn myip net e = rw e refl

-- So is a KEEP_ALIVE packet.
pub peer_sendpkt-keep_alive :
    (conn : ℕ) (myip : CString) (table : List Node) (net : Net PeerPkt)
    → net.outcomes ≡ []
    → (peer_sendpkt conn myip table keep_alive net).1.sent
      ≡ (conn, peer_header keep_alive myip table) ∷ net.sent
unfolding peer_sendpkt send
peer_sendpkt-keep_alive conn myip table net e = rw e refl

-- The packets of an announcement reach the other end of the connection.
pub peer_sendpkt-delivered :
    (conn : ℕ) (ip : CString) (table : List Node) (sent : List (ℕ × PeerPkt)) (closed : List ℕ)
    → delivered conn (peer_sendpkt conn ip table file_update (served sent closed)).1.sent
      ≡ delivered conn sent
        ++ peer_header file_update ip table ∷ peer_pkts file_update ip (wires table)
unfolding peer_sendpkt send
peer_sendpkt-delivered conn ip table sent closed =
    let pkts : List PeerPkt = peer_pkts file_update ip (wires table) in
    let first : PeerPkt = peer_header file_update ip table in
    rw (send_all-served conn pkts ((conn, first) ∷ sent) closed)
      (delivered-logged conn conn (first ∷ pkts) sent ∙ rw (==_refl conn) refl)
