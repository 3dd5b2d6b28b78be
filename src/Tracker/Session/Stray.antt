-- ===== src/Tracker/Session/Stray.antt =====
-- An entry that no header announces: the thread goes on to use a table that it does not have.
use dart_sync.Base.{ℕ, ◌≡◌, refl, ◌⊎◌, inl, inr, CString, fault}
use dart_sync.Table.{file_update}
use dart_sync.Packet.{Wire, to_tracker}
use dart_sync.Tracker.Session.{World, PeerFt, unset, freed, finish, handshake_step}
use dart_sync.Tracker.Session.Update.{idle}

-- No table is being received.
abbrev pub IsStale : PeerFt → Type 0
IsStale ft = (ft ≡ unset) ⊎ (ft ≡ freed)

-- An entry packet that comes while none is expected makes the thread use an unset or freed table:
-- a fault.
pub handshake_step-stray :
    (rounds conn now : ℕ) (w : World) (ft : PeerFt) (ip : CString) (file : Wire)
    → IsStale ft
    → handshake_step rounds conn now w (idle ft) (to_tracker file_update ip file) ≡ fault
unfolding handshake_step finish
handshake_step-stray rounds conn now w ft ip file (inl e) = rw e refl
handshake_step-stray rounds conn now w ft ip file (inr e) = rw e refl
