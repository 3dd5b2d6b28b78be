-- ===== src/Peer/Threads/Turns.antt =====
-- peer/peer.c: what one turn of a thread can do to the shared state, with the tests that lead there.
use dart_sync.Base.{
  ◌≡◌, refl, sym, ℕ, Bool-cases, inl, inr, List, [], ◌∷◌, ◌++◌, CString, is_empty, is_empty_iff,
  take, drop, take-append-drop, length, subst, All, ok, >>=-ok_inv,
}
use dart_sync.Table.{Node}
use dart_sync.Packet.{PeerPkt, Net, Received}
use dart_sync.Peer.Sync.{Local, Download}
use dart_sync.Peer.Sync.Compared.{Compared, compare_node-Compared}
use dart_sync.Peer.Monitor.{Watch, Stat, Change, notify_event}
use dart_sync.Peer.Monitor.Effect.{Times, Noticed}
use dart_sync.Peer.Monitor.Effect.Event.{notify_event-ok}
use dart_sync.Peer.Main.{keep_alive_round}
use dart_sync.Peer.Threads.{
  Place, Running, Action, received, compared, noticed, alive, downloaded, watch_directory,
  with_table, receive, compare_next, notice, end_download, perform, run,
}

-- The path of an event in the folder, without the folder.
abbrev pub event_path : Place → CString → CString → CString
event_path p folder name = drop (length p.sync_dir) (folder ++ name)

pub data Turn (p : Place) (s : Running) : Action → Running → Type 0 where
  unmoved : {a : Action} (net : Net PeerPkt) → Turn p s a (record s { net = net })
  by_receipt : (r : Received) → Turn p s (received r) (record s { pending = r.nodes })
  by_main :
      (seek : Node) (rest : List Node) (l : Local)
      → s.pending ≡ seek ∷ rest
      → Compared p.myip seek s.local l
      → Turn p s compared (record s { local = l; pending = rest })
  by_monitor :
      (kind : Change) (before stat : Stat) (now : ℕ) (folder name : CString) (w : Watch)
      → Noticed kind
          (Times kind stat now (folder ++ name))
          (event_path p folder name)
          (watch_directory p s)
          w
      → Turn p s
          (noticed kind before stat now folder name)
          (record (with_table s w.filetable) { net = w.net })
  by_download :
      (i : ℕ) (before after : List Download) (d : Download)
      → s.local.downloads ≡ before ++ d ∷ after
      → Turn p s (downloaded i) (end_download before (d ∷ after) s)

receive-Turn :
    (p : Place) (s s' : Running) (r : Received) (pending : List Node)
    → receive r pending s ≡ ok s'
    → Turn p s (received r) s'
receive-Turn p s s' r [] e = elim (Bool-cases r.is_closed) [
  | inl closed ↦
      let same : record s { pending = r.nodes } ≡ s' = cc (rw closed at e) in
      rw (← same) (by_receipt r)
  | inr wild ↦ cc (rw wild at e)
]
receive-Turn p s s' r (t ∷ rest) e = let same : s ≡ s' = cc e in rw (← same) (unmoved s.net)

compare_next-Turn :
    (p : Place) (s s' : Running) (pending : List Node)
    → s.pending ≡ pending
    → compare_next p pending s ≡ ok s'
    → Turn p s compared s'
compare_next-Turn p s s' [] w e = let same : s ≡ s' = cc e in rw (← same) (unmoved s.net)
compare_next-Turn p s s' (seek ∷ rest) w e =
    let (l, got, how) = compare_node-Compared p.myip seek s.local in
    let same : record s { local = l; pending = rest } ≡ s' = cc (rw got at e) in
    rw (← same) (by_main seek rest l w how)

notice-Turn :
    (p : Place) (s s' : Running) (kind : Change) (before stat : Stat) (now : ℕ)
    (folder name : CString)
    → notice p kind before stat now folder name s ≡ ok s'
    → Turn p s (noticed kind before stat now folder name) s'
unfolding notice
notice-Turn p s s' kind before stat now folder name e = elim (Bool-cases (is_empty name)) [
  | inl void ↦ let same : s ≡ s' = cc (rw void at e) in rw (← same) (unmoved s.net)
  | inr full ↦
      let (w, got, done) =
        >>=-ok_inv (notify_event kind before stat now folder name (watch_directory p s))
          (λ w. ok (record (with_table s w.filetable) { net = w.net })) s' (rw full at e) in
      let same : record (with_table s w.filetable) { net = w.net } ≡ s' = cc done in
      rw (← same) (
        by_monitor kind before stat now folder name w (
          notify_event-ok kind before stat now folder name (watch_directory p s) w
            (λ void. cc (full, (is_empty_iff name).1 void)) got))
]

end_download-Turn :
    (p : Place) (s : Running) (i : ℕ) (before after : List Download)
    → before ++ after ≡ s.local.downloads
    → Turn p s (downloaded i) (end_download before after s)
end_download-Turn p s i before [] e = unmoved s.net
end_download-Turn p s i before (d ∷ after) e = by_download i before after d (sym e)

pub perform-Turn : (p : Place) (a : Action) (s s' : Running) → perform p a s ≡ ok s' → Turn p s a s'
unfolding perform
perform-Turn p (received r) s s' e = receive-Turn p s s' r s.pending e
perform-Turn p compared s s' e = compare_next-Turn p s s' s.pending refl e
perform-Turn p (noticed kind before stat now folder name) s s' e =
    notice-Turn p s s' kind before stat now folder name e
perform-Turn p alive s s' e =
    let same : record s { net = keep_alive_round p.tracker_conn p.myip s.local.file_table s.net }
        ≡ s' =
      cc e in
    rw (← same) (unmoved (keep_alive_round p.tracker_conn p.myip s.local.file_table s.net))
perform-Turn p (downloaded i) s s' e =
    let same : end_download (take i s.local.downloads) (drop i s.local.downloads) s ≡ s' = cc e in
    rw (← same) (
      end_download-Turn p s i (take i s.local.downloads) (drop i s.local.downloads)
        (take-append-drop i s.local.downloads))

-- What every turn of the allowed actions keeps holds after all of them.
pub run_inv {ℓ κ} :
    (p : Place) (A : Action → Type κ) (I : Running → Type ℓ)
    → ((a : Action) (s s' : Running) → A a → Turn p s a s' → I s → I s')
    → (actions : List Action) (s s' : Running) → All A actions
    → run p actions s ≡ ok s'
    → I s
    → I s'
unfolding run
run_inv p A I keep [] s s' all e i = let same : s ≡ s' = cc e in subst I same i
run_inv p A I keep (a ∷ actions) s s' all e i =
    let (s1, one, more) = >>=-ok_inv (perform p a s) (λ v. run p actions v) s' e in
    run_inv p A I keep actions s1 s' (all.1) more
      (keep a s s1 (all.0) (perform-Turn p a s s1 one) i)

pub any_action : (actions : List Action) → All (λ a. Unit {0}) actions
any_action [] = tt
any_action (a ∷ actions) = (tt, any_action actions)
