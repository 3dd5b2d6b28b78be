-- ===== src/Peer/Threads/Busy.antt =====
-- peer/peer.c: a file has at most one `ptp_download` at a time as long as nobody deletes it.
use dart_sync.Base.{
  ◌≡◌, refl, ◌∙◌, subst, false, Option, none, some, List, [], ◌∷◌, ◌++◌, CString, str_eq,
  str_eq_iff, str_eq_refl, ◌==◌, All, arith, ok, Bool-cases, inl, inr,
}
use dart_sync.Table.{Node, file_download, file_downloading}
use dart_sync.Packet.{PeerPkt, Net}
use dart_sync.Peer.Sync.{Local, Download, find_node, set_node_type}
use dart_sync.Peer.Sync.Find.{find_node-change}
use dart_sync.Peer.Monitor.Effect.{Times}
use dart_sync.Peer.Threads.{Place, Running, Action, launched, watch_directory, run}
use dart_sync.Peer.Threads.Turns.{
  event_path, Turn, unmoved, by_receipt, by_main, by_monitor, by_download, run_inv,
}
use dart_sync.Peer.Threads.InStep.{
  InStepAt, InStep, Fetches, Live, Spares, downloads_of, Compared-InStep, Noticed-InStep,
}

downloads_of-append :
    (n : CString) (xs ys : List Download)
    → downloads_of n (xs ++ ys) ≡ downloads_of n xs ++ downloads_of n ys
downloads_of-append n [] ys = refl
downloads_of-append n (d ∷ xs) ys = ground (arith, downloads_of-append n xs ys)

-- Where one download is under way, it is the one that ends.
Fetches-middle :
    (t : Node) (xs ys : List Download) (d : Download)
    → Fetches t (xs ++ d ∷ ys)
    → (xs ++ ys ≡ []) × (d.size ≡ t.size)
Fetches-middle t [] [] d f = (refl, f.0)
Fetches-middle t [] (e ∷ ys) d f = absurd f
Fetches-middle t (a ∷ []) ys d f = absurd f
Fetches-middle t (a ∷ b ∷ xs) ys d f = absurd f

not-nil_middle : (xs ys : List Download) (d : Download) → xs ++ d ∷ ys ≡ [] → ⊥
not-nil_middle [] ys d e = cc
not-nil_middle (x ∷ xs) ys d e = cc

-- What is left of the downloads of a file when one of them ends.
InStep-ends :
    (o : Option Node) (xs ys : List Download) (d : Download)
    → InStep o (xs ++ d ∷ ys)
    → (t : Node) × (o ≡ some t) × (xs ++ ys ≡ []) × (d.size ≡ t.size)
InStep-ends none xs ys d i = absurd (not-nil_middle xs ys d i)
InStep-ends (some t) xs ys d i = elim (Bool-cases (t.type == file_downloading)) [
  | inl busy ↦ let (rest, size) = Fetches-middle t xs ys d (rw busy at i) in (t, refl, rest, size)
  | inr calm ↦ absurd (not-nil_middle xs ys d (rw calm at i))
]

pub ends_at :
    (before after : List Download) (d : Download) (l : Local)
    → l.downloads ≡ before ++ d ∷ after
    → InStepAt d.filename l
    → (t : Node) × (find_node d.filename l.file_table ≡ some t)
      × (downloads_of d.filename (before ++ after) ≡ [])
      × (d.size ≡ t.size)
ends_at before after d l e i =
    let (t, found, rest, size) =
      InStep-ends (find_node d.filename l.file_table) (downloads_of d.filename before)
        (downloads_of d.filename after) d
        (rw (e, downloads_of-append d.filename before (d ∷ after), str_eq_refl d.filename) at i) in
    (t, found, downloads_of-append d.filename before after ∙ rest, size)

abbrev pub ended : Download → Node → Node
ended d t = record t { type = file_download; size = d.size }

end_download-InStep_self :
    (before after : List Download) (d : Download) (l : Local)
    → l.downloads ≡ before ++ d ∷ after
    → InStepAt d.filename l
    → InStep
        (find_node d.filename (set_node_type d.filename file_download d.size l.file_table))
        (downloads_of d.filename (before ++ after))
unfolding set_node_type
end_download-InStep_self before after d l e i =
    let (t, found, rest, size) = ends_at before after d l e i in
    rw
      (
        find_node-change d.filename d.filename (ended d) l.file_table (λ t. refl),
        str_eq_refl d.filename,
        found,
      )
      rest

downloads_of-middle :
    (n : CString) (before after : List Download) (d : Download)
    → str_eq d.filename n ≡ false
    → downloads_of n (before ++ after) ≡ downloads_of n (before ++ d ∷ after)
downloads_of-middle n [] after d other = rw other refl
downloads_of-middle n (x ∷ xs) after d other =
    ground (arith, downloads_of-middle n xs after d other)

end_download-InStep :
    (n : CString) (before after : List Download) (d : Download) (l : Local)
    → l.downloads ≡ before ++ d ∷ after
    → InStepAt n l
    → InStep
        (find_node n (set_node_type d.filename file_download d.size l.file_table))
        (downloads_of n (before ++ after))
unfolding set_node_type
end_download-InStep n before after d l e i = elim (Bool-cases (str_eq d.filename n)) [
  | inl hit ↦
      subst
        (λ m.
          InStepAt m l
          → InStep (find_node m (set_node_type d.filename file_download d.size l.file_table))
              (downloads_of m (before ++ after)))
        ((str_eq_iff d.filename n).0 hit) (end_download-InStep_self before after d l e) i
  | inr other ↦
      rw
        (
          find_node-change n d.filename (ended d) l.file_table (λ t. refl),
          other,
          downloads_of-middle n before after d other,
          ← e,
        )
        i
]

-- The invariant, with the entries that `main` has still to compare.
pub record IsInStep (n : CString) (s : Running) : Type 0 where
  pub downloads : InStepAt n s.local
  pub pending : Live n s.pending

pub Turn-IsInStep :
    (n : CString) (p : Place) (a : Action) (s s' : Running)
    → Spares p n a
    → Turn p s a s'
    → IsInStep n s
    → IsInStep n s'
Turn-IsInStep n p a s s' sp (unmoved net) i = record {
  downloads = i.downloads;
  pending = i.pending;
}
Turn-IsInStep n p a s s' sp (by_receipt r) i = record { downloads = i.downloads; pending = sp }
Turn-IsInStep n p a s s' sp (by_main seek rest l e how) i =
    let (first, others) = subst (Live n) e i.pending in
    record {
      downloads = Compared-InStep n p.myip seek s.local l how first i.downloads;
      pending = others;
    }
Turn-IsInStep n p a s s' sp (by_monitor kind before stat now folder name w how) i = record {
  downloads =
      Noticed-InStep n (event_path p folder name) kind (Times kind stat now (folder ++ name))
        (watch_directory p s) w s.local.downloads how sp i.downloads;
  pending = i.pending;
}
Turn-IsInStep n p a s s' sp (by_download k before after d e) i = record {
  downloads = end_download-InStep n before after d s.local e i.downloads;
  pending = i.pending;
}

pub run-IsInStep :
    (n : CString) (p : Place) (table : List Node) (net : Net PeerPkt) (actions : List Action)
    (s : Running)
    → Live n table
    → All (Spares p n) actions
    → run p actions (launched table net) ≡ ok s
    → IsInStep n s
unfolding find_node
run-IsInStep n p table net actions s live all e =
    run_inv p (Spares p n) (IsInStep n) (Turn-IsInStep n p) actions (launched table net) s all e
      (record { downloads = refl; pending = live })

-- As long as neither a received table nor an event of the monitor deletes a file, whatever else
-- the threads of a peer do after its start, in any order and as far as no turn faults, at most one
-- download of the file is under way, one exactly while the entry of the file is FILE_DOWNLOADING,
-- and it fetches the version in that entry.
pub run-InStepAt :
    (n : CString) (p : Place) (table : List Node) (net : Net PeerPkt) (actions : List Action)
    (s : Running)
    → Live n table
    → All (Spares p n) actions
    → run p actions (launched table net) ≡ ok s
    → InStepAt n s.local
run-InStepAt n p table net actions s live all e =
    (run-IsInStep n p table net actions s live all e).downloads
