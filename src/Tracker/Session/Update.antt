-- ===== src/Tracker/Session/Update.antt =====
-- A complete announcement: what `peer_sendpkt` sends with FILE_UPDATE becomes one call of
-- `update_filetable` on the peer's table and one broadcast.
use mathlib.Core.List.{append_assoc}
use dart_sync.Base.{
  ℕ, Option, Bool, suc, ◌+◌, ◌≡◌, refl, ◌∙◌, true, false, List, [], ◌∷◌, ◌++◌, CString, arith,
  length, if◌then◌else◌, Outcome, ok, ◌>>=◌, >>=-ok, pos, minus_one, int_eq, int_lt,
}
use dart_sync.Table.{Node, file_update}
use dart_sync.Packet.{
  Wire, PeerPkt, Received, empty_table, attach, wires, peer_pkts, peer_header, to_tracker,
}
use dart_sync.Tracker.Merge.{update_filetable}
use dart_sync.Tracker.Session.{
  World, PeerFt, live, freed, Session, broadcast_filetable, take_file, collect, readable, finish,
  handshake_step, handshake_steps,
}

-- The packets with their times of arrival.
abbrev pub stamp : (ℕ → ℕ) → ℕ → List PeerPkt → List (ℕ × PeerPkt)
stamp clock i [] = []
stamp clock i (pkt ∷ pkts) = (clock i, pkt) ∷ stamp clock (suc i) pkts

-- A session that expects no entry, whatever `peer_ft` holds.
abbrev pub idle : PeerFt → Session
idle ft = record { counter = minus_one; file_table_size = minus_one; peer_ft = ft }

abbrev collecting : ℕ → ℕ → Received → Session
collecting i n r = record { counter = pos i; file_table_size = pos n; peer_ft = live r }

abbrev closed_table : List Node → Received
closed_table table = record { nodes = table; is_closed = true }

-- What one announcement does to the tracker: the update, and then the broadcast.
pub announce : ℕ → World → List Node → Outcome (World × Session)
announce rounds w table = do
  ft' ← update_filetable w.tracker.ft table
  (_, w') ← broadcast_filetable rounds (record w { tracker = record w.tracker { ft = ft' } })
  ok (w', idle freed)

pub announce-ok :
    (rounds : ℕ) (w w' : World) (table : List Node) (ft' : Option (List Node)) (b : Bool)
    → update_filetable w.tracker.ft table ≡ ok ft'
    → broadcast_filetable rounds (record w { tracker = record w.tracker { ft = ft' } }) ≡ ok (b, w')
    → announce rounds w table ≡ ok (w', idle freed)
unfolding announce
announce-ok rounds w w' table ft' b e f = rw (e, f) refl

started : (i : ℕ) (r : Received) → (if int_eq (pos (suc i)) (pos 0) then empty_table else r) ≡ r
started i r = ground arith

zero-ne-suc : (n : ℕ) → int_eq (pos 0) (pos (suc n)) ≡ false
zero-ne-suc n = ground arith

collect_entry :
    (i n : ℕ) (r : Received) (ip : CString) (file : Wire)
    → (if int_eq (pos i) (pos 0) then empty_table else r) ≡ r
    → int_lt (pos i) (pos n) ≡ true
    → collect (collecting i n r) (to_tracker file_update ip file)
      ≡ ok (collecting (suc i) n (attach r file))
unfolding collect take_file
collect_entry i n r ip file same room = rw (room, same) refl

module _ (rounds conn : ℕ) (clock : ℕ → ℕ) (w : World) (ip : CString) where
  -- The entries that are still to come, at least one.
  entries_lem :
      (j i n : ℕ) (r : Received) (t : Node) (ts : List Node)
      → (if int_eq (pos i) (pos 0) then empty_table else r) ≡ r
      → i + length (t ∷ ts) ≡ n
      → handshake_steps rounds conn w
          (collecting i n r)
          (stamp clock j (peer_pkts file_update ip (wires (t ∷ ts))))
        ≡ announce rounds w (r.nodes ++ t ∷ ts)
  unfolding handshake_steps handshake_step wires peer_pkts attach announce finish readable
  entries_lem j i n r t [] same e =
      let full : int_eq (pos (suc i)) (pos n) ≡ true = ground arith in
      rw (collect_entry i n r ip (record { entry = t; is_last = true }) same (ground arith), full)
        (>>=-ok _)
  entries_lem j i n r t (u ∷ us) same e =
      let more : int_eq (pos (suc i)) (pos n) ≡ false = ground arith in
      rw (collect_entry i n r ip (record { entry = t; is_last = false }) same (ground arith), more)
        (entries_lem (suc j) (suc i) n (attach r (record { entry = t; is_last = false })) u us
            (started i _) (omega arith)
          ∙ rw append_assoc refl)

  -- A session that expects no entry takes the packets of one announcement, at any times, as one
  -- update_filetable with the announced table and one broadcast, and then expects no entry again.
  pub handshake_steps-announce :
      (j : ℕ) (ft : PeerFt) (table : List Node)
      → handshake_steps rounds conn w (idle ft) (
          stamp clock j (peer_header file_update ip table ∷ peer_pkts file_update ip (wires table)))
        ≡ announce rounds w table
  handshake_steps-announce j ft [] =
      unfold handshake_steps handshake_step wires peer_pkts announce finish readable in >>=-ok _
  handshake_steps-announce j ft (t ∷ ts) =
      unfold handshake_steps handshake_step in
      rw (zero-ne-suc (length ts))
        (entries_lem (suc j) 0 (length (t ∷ ts)) empty_table t ts refl (omega arith))
