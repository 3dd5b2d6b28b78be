-- ===== src/Tracker/State/Evolution.antt =====
-- `delete_peer` and `heartbeat` change the file table by departures alone.
use dart_sync.Base.{
  ℕ, zero, suc, ◌≡◌, subst, Bool, true, false, CString, ok, >>=-ok_inv, ◌==◌, if◌then◌else◌,
  Bool-cases, inl, inr,
}
use dart_sync.Tracker.Peers.{Ptr, null, load}
use dart_sync.Tracker.State.{Tracker, delete_peer, expired, heartbeat_pass}
use dart_sync.Tracker.State.Departure.{delete_peer-ft}
use dart_sync.Tracker.History.{Evolves, still, forgets, Evolves-trans}

pub delete_peer-Evolves :
    (rounds sock : ℕ) (ip : CString) (tr tr' : Tracker)
    → delete_peer rounds tr sock ip ≡ ok tr'
    → Evolves tr.ft tr'.ft
delete_peer-Evolves rounds sock ip tr tr' e =
    forgets ip still (delete_peer-ft rounds sock ip tr tr' e)

kept-Evolves : (tr tr' : Tracker) → ok tr ≡ ok tr' → Evolves tr.ft tr'.ft
kept-Evolves tr tr' e =
    subst (λ (t : Tracker). Evolves tr.ft t.ft) (let same : tr ≡ tr' = cc e in same) still

pub heartbeat_pass-Evolves :
    (k rounds now : ℕ) (tr tr' : Tracker) (temp : Ptr)
    → heartbeat_pass k rounds now tr temp ≡ ok tr'
    → Evolves tr.ft tr'.ft
unfolding heartbeat_pass
heartbeat_pass-Evolves zero rounds now tr tr' temp e = cc
heartbeat_pass-Evolves (suc k) rounds now tr tr' temp e = elim (Bool-cases (temp == null)) [
  | inl done ↦ kept-Evolves tr tr' (rw done at e)
  | inr more ↦
      let (n, _, after) = >>=-ok_inv (load tr.peers.heap temp) _ tr' (rw more at e) in
      let (tr1, checked, after1) =
        >>=-ok_inv
          (if expired now n.last_time_stamp then delete_peer rounds tr n.sockfd n.ip else ok tr) _
          tr' after in
      let (m, _, after2) = >>=-ok_inv (load tr1.peers.heap temp) _ tr' after1 in
      Evolves-trans (one n.sockfd n.ip (expired now n.last_time_stamp) tr1 checked)
        (heartbeat_pass-Evolves k rounds now tr1 tr' m.next after2)
]
  where
    one :
        (sock : ℕ) (ip : CString) (late : Bool) (tr1 : Tracker)
        → (if late then delete_peer rounds tr sock ip else ok tr) ≡ ok tr1
        → Evolves tr.ft tr1.ft
    one sock ip true tr1 e = delete_peer-Evolves rounds sock ip tr tr1 e
    one sock ip false tr1 e = kept-Evolves tr tr1 e
