-- ===== src/Peer/Pieces/Tests.antt =====
-- peer/peer.c, `ptp_download`: runs on a file of seven bytes.
use dart_sync.Base.{ℕ, ◌≡◌, arith, List, [], ◌∷◌, fault}
use dart_sync.Peer.Pieces.{ptp_download}
use dart_sync.Peer.Pieces.Cover.{slice, no_temps}
use dart_sync.Peer.Pieces.Resume.{ptp_download-starved}

abbrev seven : List ℕ
seven = 1 ∷ 2 ∷ 3 ∷ 4 ∷ 5 ∷ 6 ∷ 7 ∷ []

ptp_download-starved_example : ptp_download 0 2 5 (slice (1 ∷ 2 ∷ [])) no_temps ≡ fault
ptp_download-starved_example =
    ptp_download-starved (1 ∷ 2 ∷ []) 5 (omega arith) (omega arith) (omega arith)
