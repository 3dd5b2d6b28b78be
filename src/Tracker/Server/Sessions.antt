-- ===== src/Tracker/Server/Sessions.antt =====
-- The locals of all threads of the tracker, under every order of their steps.
use dart_sync.Base.{ℕ, ◌≡◌, subst, Bool, List, [], ◌∷◌, ◌++◌, ok, All, All-append, inl, refl}
use dart_sync.Packet.{PeerPkt}
use dart_sync.Tracker.Session.{Session, collect}
use dart_sync.Tracker.Session.Place.{InPlace, collect-InPlace, handshake_step-InPlace}
use dart_sync.Tracker.Server.{
  Server, started, Thread, Step, accept, start, packet, leave, beat, Reach, here, further,
}

abbrev AllInPlace : List Thread → Type 0
AllInPlace = All (λ (t : Thread). InPlace t.session)

-- The parts of a list around an element.
All-middle :
    (before after : List Thread) (t : Thread)
    → AllInPlace (before ++ t ∷ after)
    → AllInPlace before × InPlace t.session × AllInPlace after
All-middle [] after t (p, q) = (tt, p, q)
All-middle (u ∷ before) after t (p, q) =
    let (front, mid, back) = All-middle before after t q in ((p, front), mid, back)

Step-InPlace :
    (rounds : ℕ) {s s' : Server} → AllInPlace s.threads → Step rounds s s' → AllInPlace s'.threads
Step-InPlace rounds p (accept fresh now conn ip added peers' h e) = p
Step-InPlace rounds p (start n e) = (inl (refl, refl), p)
Step-InPlace rounds {s} p (packet before after t now pkt w' session' e e') =
    let (front, mid, back) = All-middle before after t (subst AllInPlace e p) in
    All-append (λ (u : Thread). InPlace u.session) before (_ ∷ after) front
      (
        handshake_step-InPlace rounds t.connection now s.world w' t.session session' pkt mid e',
        back,
      )
Step-InPlace rounds {s} p (leave before after t tr' e e') =
    let (front, _, back) = All-middle before after t (subst AllInPlace e p) in
    All-append (λ (u : Thread). InPlace u.session) before after front back
Step-InPlace rounds p (beat now tr' e) = p

Reach-InPlace :
    (rounds : ℕ) (outcomes : List Bool) {s : Server}
    → Reach rounds (started outcomes) s
    → AllInPlace s.threads
Reach-InPlace rounds outcomes here = tt
Reach-InPlace rounds outcomes (further run step) =
    Step-InPlace rounds (Reach-InPlace rounds outcomes run) step

-- After any steps of the tracker from its start, whatever the kernel answers to send, every thread
-- takes any packet of an update into its table without a fault: peer_ft is never unset or freed
-- when an entry is attached to it.
pub Reach-collect :
    (rounds : ℕ) (outcomes : List Bool) {s : Server} (before after : List Thread) (t : Thread)
    (pkt : PeerPkt)
    → Reach rounds (started outcomes) s
    → s.threads ≡ before ++ t ∷ after
    → (session' : Session) × (collect t.session pkt ≡ ok session')
Reach-collect rounds outcomes before after t pkt run e =
    let (_, mid, _) =
      All-middle before after t (subst AllInPlace e (Reach-InPlace rounds outcomes run)) in
    let (session', got, _) = collect-InPlace t.session pkt mid in (session', got)
