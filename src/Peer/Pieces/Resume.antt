-- ===== src/Peer/Pieces/Resume.antt =====
-- Downloads that do not give the file back: resumed ones, and ones with more sources than bytes.
use dart_sync.Base.{
  ℕ, zero, suc, ◌-◌, ◌/◌, ◌%◌, ◌<◌, ◌≡◌, refl, ◌∙◌, ap, false, List, arith, if◌then◌else◌, fault,
  length,
}
use dart_sync.Peer.Pieces.{
  Plan, divide, is_needed, joined_from, all_started, ptp_download, source_num,
}
use dart_sync.Peer.Pieces.Cover.{slice, no_temps}

abbrev undivided : ℕ → Plan
undivided size = record { peer_num = 1; piece_size = size; remainder_len = 0 }

starved_plan :
    (size sources : ℕ)
    → 2 < sources
    → size < sources - 1
    → 0 < size
    → divide size sources
      ≡ record { peer_num = suc (sources - 1); piece_size = 0; remainder_len = size }
unfolding divide
starved_plan size zero many few some_bytes = absurd (omega arith)
starved_plan size (suc n) many few some_bytes =
    let no_share : size / n ≡ 0 = grind arith in
    let all_left : size % n ≡ size = grind arith in ground (arith, no_share, all_left)

not_fetched :
    (size n : ℕ)
    → 0 < n
    → is_needed (record { peer_num = suc n; piece_size = 0; remainder_len = size }) 0 0 ≡ false
unfolding is_needed
not_fetched size n h = ground arith

-- With at least three sources and a file that is not empty but has fewer bytes than one less than
-- the number of sources, and no temporary file, the download faults: pthread_join is called for
-- pieces for which no thread was started.
pub ptp_download-starved :
    (file : List ℕ) (sources : ℕ)
    → 2 < sources
    → 0 < length file
    → length file < sources - 1
    → ptp_download 0 (length file) sources (slice file) no_temps ≡ fault
unfolding ptp_download source_num all_started
ptp_download-starved file sources many some_bytes few =
    let q : Plan = record {
      peer_num = suc (sources - 1);
      piece_size = 0;
      remainder_len = length file;
    } in
    ap
      (λ p.
        if all_started p 0 p.peer_num no_temps
        then joined_from p 0 p.peer_num (slice file) no_temps
        else fault)
      (starved_plan (length file) sources many few some_bytes)
    ∙ rw (not_fetched (length file) (sources - 1) (omega arith)) refl
