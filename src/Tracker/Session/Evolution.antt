-- ===== src/Tracker/Session/Evolution.antt =====
-- Every packet that `handshake` handles changes the file table by announcements and departures alone.
use dart_sync.Base.{
  ℕ, zero, suc, ◌≡◌, subst, Bool, true, false, Outcome, ok, >>=-ok_inv, ◌==◌, Bool-cases, inl, inr,
  int_eq,
}
use dart_sync.Table.{register, keep_alive, file_update}
use dart_sync.Packet.{PeerPkt, tracker_sendpkt}
use dart_sync.Tracker.Merge.{update_filetable}
use dart_sync.Tracker.Peers.{Ptr, null, load, heard_peer}
use dart_sync.Tracker.State.{delete_peer}
use dart_sync.Tracker.State.Evolution.{delete_peer-Evolves}
use dart_sync.Tracker.Session.{
  World, Session, broadcast_loop, broadcast_filetable, collect, readable, finish, file_update_step,
  handshake_step,
}
use dart_sync.Tracker.History.{Evolves, still, learns, Evolves-trans}

-- A run that ends in the world it started from.
kept-Evolves :
    {A : Type 0} (a b : A) (w w' : World)
    → ◌≡◌ {A = Outcome (A × World)} (ok (a, w)) (ok (b, w'))
    → Evolves w.tracker.ft w'.tracker.ft
kept-Evolves a b w w' e =
    subst (λ (u : World). Evolves w.tracker.ft u.tracker.ft) (let same : w ≡ w' = cc e in same)
      still

broadcast_loop-Evolves :
    (k rounds : ℕ) (w w' : World) (temp : Ptr) (b : Bool)
    → broadcast_loop k rounds w temp ≡ ok (b, w')
    → Evolves w.tracker.ft w'.tracker.ft
unfolding broadcast_loop
broadcast_loop-Evolves zero rounds w w' temp b e = cc
broadcast_loop-Evolves (suc k) rounds w w' temp b e = elim (Bool-cases (temp == null)) [
  | inl done ↦ kept-Evolves true b w w' (rw done at e)
  | inr more ↦
      let (n, _, after) = >>=-ok_inv (load w.tracker.peers.heap temp) _ (b, w') (rw more at e) in
      elim (Bool-cases (tracker_sendpkt n.sockfd w.tracker.ft w.net).0) [
        | inl sent ↦ broadcast_loop-Evolves k rounds _ w' n.next b (rw sent at after)
        | inr failed ↦
            let (tr', gone, after1) =
              >>=-ok_inv (delete_peer rounds w.tracker n.sockfd n.ip) _ (b, w')
                (rw failed at after) in
            Evolves-trans (delete_peer-Evolves rounds n.sockfd n.ip w.tracker tr' gone) (
              kept-Evolves false b
                (record { tracker = tr'; net = (tracker_sendpkt n.sockfd w.tracker.ft w.net).1 }) w'
                after1)
      ]
]

broadcast_filetable-Evolves :
    (rounds : ℕ) (w w' : World) (b : Bool)
    → broadcast_filetable rounds w ≡ ok (b, w')
    → Evolves w.tracker.ft w'.tracker.ft
unfolding broadcast_filetable
broadcast_filetable-Evolves rounds w w' b e =
    broadcast_loop-Evolves rounds rounds w w' w.tracker.peers.peer_head b e

-- A run that ends in the world `u`, whatever the session.
ends-Evolves :
    {A : Type 0} (a b : A) (w u w' : World)
    → Evolves w.tracker.ft u.tracker.ft
    → ◌≡◌ {A = Outcome (World × A)} (ok (u, a)) (ok (w', b))
    → Evolves w.tracker.ft w'.tracker.ft
ends-Evolves a b w u w' p e =
    subst (λ (v : World). Evolves w.tracker.ft v.tracker.ft) (let same : u ≡ w' = cc e in same) p

finish-Evolves :
    (rounds : ℕ) (w w' : World) (s s' : Session)
    → finish rounds w s ≡ ok (w', s')
    → Evolves w.tracker.ft w'.tracker.ft
unfolding finish
finish-Evolves rounds w w' s s' e =
    let (files, _, after) = >>=-ok_inv (readable s.peer_ft) _ (w', s') e in
    let (ft', learnt, after1) = >>=-ok_inv (update_filetable w.tracker.ft files) _ (w', s') after in
    let (sent, told, after2) =
      >>=-ok_inv (broadcast_filetable rounds (record w { tracker = record w.tracker { ft = ft' } }))
        _ (w', s') after1 in
    ends-Evolves _ s' w sent.1 w'
      (Evolves-trans (learns files still learnt)
        (broadcast_filetable-Evolves rounds _ sent.1 sent.0 told))
      after2

file_update_step-Evolves :
    (rounds : ℕ) (w w' : World) (s s' : Session) (pkt : PeerPkt)
    → file_update_step rounds w s pkt ≡ ok (w', s')
    → Evolves w.tracker.ft w'.tracker.ft
unfolding file_update_step
file_update_step-Evolves rounds w w' s s' pkt e =
    let (s1, _, after) = >>=-ok_inv (collect s pkt) _ (w', s') e in
    elim (Bool-cases (int_eq s1.counter s1.file_table_size)) [
      | inl all ↦ finish-Evolves rounds w w' s1 s' (rw all at after)
      | inr more ↦ ends-Evolves s1 s' w w w' still (rw more at after)
    ]

pub handshake_step-Evolves :
    (rounds conn now : ℕ) (w w' : World) (s s' : Session) (pkt : PeerPkt)
    → handshake_step rounds conn now w s pkt ≡ ok (w', s')
    → Evolves w.tracker.ft w'.tracker.ft
unfolding handshake_step
handshake_step-Evolves rounds conn now w w' s s' pkt e = elim (Bool-cases (pkt.type == register)) [
  | inl joins ↦ elim (Bool-cases (tracker_sendpkt conn w.tracker.ft w.net).0) [
    | inl sent ↦ ends-Evolves s s' w _ w' still (rw (joins, sent) at e)
    | inr failed ↦
        let (tr', gone, after) =
          >>=-ok_inv (delete_peer rounds w.tracker conn pkt.peer_ip) _ (w', s')
            (rw (joins, failed) at e) in
        ends-Evolves s s' w _ w' (delete_peer-Evolves rounds conn pkt.peer_ip w.tracker tr' gone)
          after
  ]
  | inr not_join ↦ elim (Bool-cases (pkt.type == file_update)) [
    | inl update ↦ file_update_step-Evolves rounds w w' s s' pkt (rw (not_join, update) at e)
    | inr not_update ↦ elim (Bool-cases (pkt.type == keep_alive)) [
      | inl alive ↦
          let (found, _, after) =
            >>=-ok_inv (heard_peer rounds now w.tracker.peers conn) _ (w', s')
              (rw (not_join, not_update, alive) at e) in
          ends-Evolves s s' w _ w' still after
      | inr other ↦ ends-Evolves s s' w w w' still (rw (not_join, not_update, other) at e)
    ]
  ]
]
