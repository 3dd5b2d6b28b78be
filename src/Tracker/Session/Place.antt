-- ===== src/Tracker/Session/Place.antt =====
-- The locals of `handshake`: while an update is under way, `peer_ft` is a table that can be written.
use dart_sync.Base.{
  ℕ, ◌≡◌, refl, subst, ◌⊎◌, inl, inr, arith, false, ◌&&◌, not, Outcome, ok, >>=-ok_inv, Bool-cases,
  ◌==◌, if◌then◌else◌, ℤ, minus_one, int_eq, int_lt, increment,
}
use dart_sync.Table.{register, keep_alive, file_update}
use dart_sync.Packet.{PeerPkt, Received, empty_table, attach, tracker_sendpkt}
use dart_sync.Tracker.Merge.{update_filetable}
use dart_sync.Tracker.Peers.{heard_peer}
use dart_sync.Tracker.State.{delete_peer}
use dart_sync.Tracker.Session.{
  World, Session, live, freed, broadcast_filetable, take_file, collect, readable, finish,
  file_update_step, handshake_step,
}

-- No update is under way, or its table is there.
abbrev pub InPlace : Session → Type 0
InPlace s =
    ((s.counter ≡ minus_one) × (s.file_table_size ≡ minus_one))
    ⊎ ((r : Received) × (s.peer_ft ≡ live r))

-- The session after the first packet of an update, and after an entry.
abbrev begun : Session → PeerPkt → Session
begun s pkt = record {
  counter = increment s.counter;
  file_table_size = pkt.file_table_size;
  peer_ft = live empty_table;
}

abbrev grown : Session → PeerPkt → Received → Session
grown s pkt r = record s {
  counter = increment s.counter;
  peer_ft = live (attach (if int_eq s.counter (ℤ.pos 0) then empty_table else r) pkt.file);
}

take_file-live :
    (s : Session) (pkt : PeerPkt) (r : Received)
    → s.peer_ft ≡ live r
    → take_file s pkt.file ≡ ok (grown s pkt r).peer_ft
unfolding take_file
take_file-live s pkt r e = rw (e, take_file) refl

pub collect-InPlace :
    (s : Session) (pkt : PeerPkt)
    → InPlace s
    → (s' : Session) × (collect s pkt ≡ ok s') × InPlace s'
unfolding collect
collect-InPlace s pkt w =
    elim (Bool-cases (int_eq s.counter minus_one && not (int_eq pkt.file_table_size minus_one))) [
      | inl first ↦ (begun s pkt, rw first refl, inr (empty_table, refl))
      | inr later ↦
          elim (Bool-cases
            (int_lt s.counter s.file_table_size && int_eq pkt.file_table_size minus_one)) [
              | inr other ↦ (s, rw (later, other) refl, w)
              | inl entry ↦ elim w [
                | inl (c, n) ↦
                    let never : int_lt s.counter s.file_table_size ≡ false = rw (c, n) refl in
                    absurd (ground (arith, entry, never))
                | inr (r, e) ↦
                    (grown s pkt r, rw (later, entry, take_file-live s pkt r e) refl, inr (_, refl))
              ]
            ]
    ]

-- A session that ends a step as it began it.
same-InPlace :
    (s s' : Session) (u w' : World)
    → InPlace s
    → ◌≡◌ {A = Outcome (World × Session)} (ok (u, s)) (ok (w', s'))
    → InPlace s'
same-InPlace s s' u w' p e = subst InPlace (let same : s ≡ s' = cc e in same) p

finish-InPlace :
    (rounds : ℕ) (w w' : World) (s s' : Session) → finish rounds w s ≡ ok (w', s') → InPlace s'
unfolding finish
finish-InPlace rounds w w' s s' e =
    let (files, _, after) = >>=-ok_inv (readable s.peer_ft) _ (w', s') e in
    let (ft', _, after1) = >>=-ok_inv (update_filetable w.tracker.ft files) _ (w', s') after in
    let (sent, _, after2) =
      >>=-ok_inv (broadcast_filetable rounds (record w { tracker = record w.tracker { ft = ft' } }))
        _ (w', s') after1 in
    same-InPlace (record { counter = minus_one; file_table_size = minus_one; peer_ft = freed }) s'
      sent.1 w' (inl (refl, refl)) after2

pub handshake_step-InPlace :
    (rounds conn now : ℕ) (w w' : World) (s s' : Session) (pkt : PeerPkt)
    → InPlace s
    → handshake_step rounds conn now w s pkt ≡ ok (w', s')
    → InPlace s'
unfolding handshake_step file_update_step
handshake_step-InPlace rounds conn now w w' s s' pkt p e =
    elim (Bool-cases (pkt.type == register)) [
      | inl joins ↦ elim (Bool-cases (tracker_sendpkt conn w.tracker.ft w.net).0) [
        | inl sent ↦ same-InPlace s s' _ w' p (rw (joins, sent) at e)
        | inr failed ↦
            let (tr', _, after) =
              >>=-ok_inv (delete_peer rounds w.tracker conn pkt.peer_ip) _ (w', s')
                (rw (joins, failed) at e) in
            same-InPlace s s' _ w' p after
      ]
      | inr not_join ↦ elim (Bool-cases (pkt.type == file_update)) [
        | inl update ↦
            let (s1, got, p1) = collect-InPlace s pkt p in
            let after = rw (not_join, update, got) at e in
            elim (Bool-cases (int_eq s1.counter s1.file_table_size)) [
              | inl all ↦ finish-InPlace rounds w w' s1 s' (rw all at after)
              | inr more ↦ same-InPlace s1 s' w w' p1 (rw more at after)
            ]
        | inr not_update ↦ elim (Bool-cases (pkt.type == keep_alive)) [
          | inl alive ↦
              let (found, _, after) =
                >>=-ok_inv (heard_peer rounds now w.tracker.peers conn) _ (w', s')
                  (rw (not_join, not_update, alive) at e) in
              same-InPlace s s' _ w' p after
          | inr other ↦ same-InPlace s s' w w' p (rw (not_join, not_update, other) at e)
        ]
      ]
    ]
