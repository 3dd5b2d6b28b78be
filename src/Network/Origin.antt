-- ===== src/Network/Origin.antt =====
-- Every entry in the network was once seen by a monitor: no name and no time comes out of thin air.
use dart_sync.Base.{
  ℕ, ◌≡◌, sym, subst, inl, inr, true, Bool-cases, List, [], ◌∷◌, ◌++◌, CString, str_eq, str_eq_iff,
  All, All-append,
}
use dart_sync.Table.{Node, file_delete, file_download}
use dart_sync.Tracker.Merge.Newest.{entries}
use dart_sync.Tracker.Merge.Origin.{AllSeen, update_filetable-AllSeen}
use dart_sync.Tracker.State.Origin.{prune_ft-AllSeen}
use dart_sync.Peer.Sync.{Local, request, modified, added, add, delete, change, set_node_type}
use dart_sync.Peer.Sync.Compared.{Compared, kept, updated, deleted, fresh}
use dart_sync.Peer.Monitor.{Change, Watch, created}
use dart_sync.Peer.Monitor.Effect.{
  Times, Noticed, ignored, altered, erased, appended, erased_at, filetable-report,
}
use dart_sync.Peer.Threads.{Place, Running, Action, received, watch_directory}
use dart_sync.Peer.Threads.Turns.{
  event_path, Turn, unmoved, by_receipt, by_main, by_monitor, by_download, perform-Turn,
}
use dart_sync.Peer.Sync.Whole.{Elem}
use dart_sync.Network.{
  UnderWay, Network, deserted, Sees, closed_table, NetworkStep, turn, read, join, tracked, learn,
  forget, NetworkReach, here, further,
}

All-change {ℓ} :
    (P : Node → Type ℓ) (n : CString) (f : Node → Node) (table : List Node)
    → ((t : Node) → str_eq t.name n ≡ true → P t → P (f t))
    → All P table
    → All P (change n f table)
unfolding change
All-change P n f [] keep a = tt
All-change P n f (t ∷ rest) keep a = elim (Bool-cases (str_eq t.name n)) [
  | inl hit ↦ rw hit (keep t hit (a.0), a.1)
  | inr miss ↦ rw miss (a.0, All-change P n f rest keep (a.1))
]

All-middle {ℓ κ} :
    {A : Type ℓ} (P : A → Type κ) (xs ys : List A) (x : A) → All P (xs ++ x ∷ ys) → P x
All-middle P [] ys x a = a.0
All-middle P (y ∷ xs) ys x a = All-middle P xs ys x (a.1)

All-replace {ℓ κ} :
    {A : Type ℓ} (P : A → Type κ) (xs ys : List A) (x x' : A)
    → P x'
    → All P (xs ++ x ∷ ys)
    → All P (xs ++ x' ∷ ys)
All-replace P [] ys x x' new a = (new, a.1)
All-replace P (y ∷ xs) ys x x' new a = (a.0, All-replace P xs ys x x' new (a.1))

module _ (Seen : CString → ℕ → Type 0) where
  Compared-AllSeen :
      (myip : CString) (seek : Node) (l l' : Local)
      → Compared myip seek l l'
      → Seen seek.name seek.timestamp
      → AllSeen Seen l.file_table
      → AllSeen Seen l'.file_table
  unfolding delete add request
  Compared-AllSeen myip seek l l' (kept _) s a = a
  Compared-AllSeen myip seek l l' (updated current _ _ _) s a =
      All-change (λ t. Seen t.name t.timestamp) seek.name (modified (request seek.name seek))
        l.file_table
        (λ t hit _.
          subst (λ n. Seen n seek.timestamp) (sym ((str_eq_iff t.name seek.name).0 hit)) s)
        a
  Compared-AllSeen myip seek l l' (deleted current _ _ _ _) s a =
      All-change (λ t. Seen t.name t.timestamp) seek.name (λ t. record t { type = file_delete })
        l.file_table (λ t hit old. old) a
  Compared-AllSeen myip seek l l' (fresh absent _) s a =
      All-append (λ t. Seen t.name t.timestamp) l.file_table
        (added myip (request seek.name seek) ∷ []) a (s, tt)

  Noticed-AllSeen :
      (n : CString) (kind : Change) (times : ℕ → Type 0) (w w' : Watch)
      → Noticed kind times n w w'
      → ((time : ℕ) → times time → Seen n time)
      → AllSeen Seen w.filetable
      → AllSeen Seen w'.filetable
  Noticed-AllSeen n kind times w w' ignored s a = a
  Noticed-AllSeen n kind times w w' (altered f keep idle was at) s a = rw filetable-report (
      All-change (λ t. Seen t.name t.timestamp) n f w.filetable
        (λ t hit old. rw (keep t) (elim (at t) [
          | inl same ↦ rw same old
          | inr new ↦
              subst (λ m. Seen m (f t).timestamp) (sym ((str_eq_iff t.name n).0 hit))
                (s (f t).timestamp new)
        ]))
        a)
  Noticed-AllSeen n kind times w w' (erased now d at) s a = rw filetable-report (
      All-change (λ t. Seen t.name t.timestamp) n (erased_at now) w.filetable
        (λ t hit old. subst (λ m. Seen m now) (sym ((str_eq_iff t.name n).0 hit)) (s now at)) a)
  Noticed-AllSeen n kind times w w' (appended info same absent at) s a = rw filetable-report (
      All-append (λ t. Seen t.name t.timestamp) w.filetable (created w.myip info ∷ []) a
        (rw same (s info.last_modify_time at), tt))

  -- A peer's table and the entries that it has still to compare.
  pub record MemberSeen (s : Running) : Type 0 where
    pub table : AllSeen Seen s.local.file_table
    pub pending : AllSeen Seen s.pending

  Turn-MemberSeen :
      (p : Place) (a : Action) (s s' : Running)
      → Sees Seen p a
      → Turn p s a s'
      → MemberSeen s
      → MemberSeen s'
  unfolding set_node_type
  Turn-MemberSeen p a s s' sees (unmoved net) w = record { table = w.table; pending = w.pending }
  Turn-MemberSeen p a s s' sees (by_receipt r) w = absurd sees
  Turn-MemberSeen p a s s' sees (by_main seek rest l e how) w =
      let both = subst (AllSeen Seen) e w.pending in
      record {
        table = Compared-AllSeen p.myip seek s.local l how (both.0) w.table;
        pending = both.1;
      }
  Turn-MemberSeen p a s s' sees (by_monitor kind before stat now folder name v how) w = record {
    table =
        Noticed-AllSeen (event_path p folder name) kind (Times kind stat now (folder ++ name))
          (watch_directory p s) v how sees w.table;
    pending = w.pending;
  }
  Turn-MemberSeen p a s s' sees (by_download k before after d e) w = record {
    table =
        All-change (λ t. Seen t.name t.timestamp) d.filename
          (λ t. record t { type = file_download; size = d.size }) s.local.file_table
          (λ t hit old. old) w.table;
    pending = w.pending;
  }

  -- A table that arrives.
  read-MemberSeen :
      (p : Place) (table : List Node) (s s' : Running)
      → AllSeen Seen table
      → Turn p s (received (closed_table table)) s'
      → MemberSeen s
      → MemberSeen s'
  read-MemberSeen p table s s' new (unmoved net) w = record { table = w.table; pending = w.pending }
  read-MemberSeen p table s s' new (by_receipt r) w = record { table = w.table; pending = new }

  Elem-AllSeen :
      (node : Node) (table : List Node)
      → Elem node table
      → AllSeen Seen table
      → Seen node.name node.timestamp
  Elem-AllSeen node [] i a = absurd i
  Elem-AllSeen node (t ∷ rest) (inl e) a = rw e (a.0)
  Elem-AllSeen node (t ∷ rest) (inr i) a = Elem-AllSeen node rest i (a.1)

  UnderWay-seen :
      (node : Node) (tables : List (List Node))
      → UnderWay node tables
      → All (AllSeen Seen) tables
      → Seen node.name node.timestamp
  UnderWay-seen node [] i a = absurd i
  UnderWay-seen node (table ∷ rest) (inl e) a = Elem-AllSeen node table e (a.0)
  UnderWay-seen node (table ∷ rest) (inr i) a = UnderWay-seen node rest i (a.1)

  -- A table of entries that are under way, from whichever tables.
  mixed-AllSeen :
      (tables : List (List Node)) (table : List Node)
      → All (AllSeen Seen) tables
      → All (λ node. UnderWay node tables) table
      → AllSeen Seen table
  mixed-AllSeen tables [] a sent = tt
  mixed-AllSeen tables (t ∷ rest) a sent =
      (UnderWay-seen t tables (sent.0) a, mixed-AllSeen tables rest a (sent.1))

  pub record NetworkSeen (s : Network) : Type 0 where
    pub ft : AllSeen Seen (entries s.ft)
    pub members : All (λ m. MemberSeen m.state) s.members
    pub under_way : All (AllSeen Seen) s.under_way

  NetworkStep-NetworkSeen :
      {s s' : Network} → NetworkStep Seen s s' → NetworkSeen s → NetworkSeen s'
  NetworkStep-NetworkSeen {s} (turn before after m a state e sees done) w =
      let at =
        All-middle (λ m. MemberSeen m.state) before after m
          (subst (All (λ m. MemberSeen m.state)) e w.members) in
      let now =
        Turn-MemberSeen m.place a m.state state sees (perform-Turn m.place a m.state state done)
          at in
      record {
        ft = w.ft;
        members =
            All-replace (λ m. MemberSeen m.state) before after m (record m { state = state }) now
              (subst (All (λ m. MemberSeen m.state)) e w.members);
        under_way = (now.table, w.under_way);
      }
  NetworkStep-NetworkSeen {s} (read before after m state table e sent done) w =
      let all = subst (All (λ m. MemberSeen m.state)) e w.members in
      let new = mixed-AllSeen s.under_way table w.under_way sent in
      let now =
        read-MemberSeen m.place table m.state state new
          (perform-Turn m.place (received (closed_table table)) m.state state done)
          (All-middle (λ m. MemberSeen m.state) before after m all) in
      record {
        ft = w.ft;
        members =
            All-replace (λ m. MemberSeen m.state) before after m (record m { state = state }) now
              all;
        under_way = w.under_way;
      }
  NetworkStep-NetworkSeen {s} (join place net) w = record {
    ft = w.ft;
    members = (record { table = tt; pending = w.ft }, w.members);
    under_way = w.under_way;
  }
  NetworkStep-NetworkSeen {s} (tracked (learn table ft sent done)) w =
      let new = mixed-AllSeen s.under_way table w.under_way sent in
      let learned = update_filetable-AllSeen Seen s.ft ft table done new w.ft in
      record { ft = learned; members = w.members; under_way = (learned, w.under_way) }
  NetworkStep-NetworkSeen {s} (tracked (forget ip)) w = record {
    ft = prune_ft-AllSeen Seen ip s.ft w.ft;
    members = w.members;
    under_way = w.under_way;
  }

  -- Whatever the peers and the tracker do after the start, in any order, with any number of peers,
  -- and however late, often or misdirected tables arrive, as far as nothing faults: every entry of
  -- the tracker's table, of a peer's table, of those that a peer has still to compare and of a
  -- table under way has a name and a time that an event of some peer's monitor gave to it.
  pub NetworkReach-NetworkSeen : {s : Network} → NetworkReach Seen deserted s → NetworkSeen s
  NetworkReach-NetworkSeen here = record { ft = tt; members = tt; under_way = tt }
  NetworkReach-NetworkSeen (further run step) =
      NetworkStep-NetworkSeen step (NetworkReach-NetworkSeen run)
