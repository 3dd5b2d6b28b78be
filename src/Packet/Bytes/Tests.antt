-- ===== src/Packet/Bytes/Tests.antt =====
-- common/pkt.c, the receivers: two packets of a tracker that take two bytes each, and a third one that
-- is cut off.
use dart_sync.Base.{ℕ, ◌*◌, ◌≤◌, ◌≡◌, refl, arith, some, List, [], ◌∷◌, ◌++◌, length, pos, ℤ}
use dart_sync.Packet.{TrackerPkt, no_file}
use dart_sync.Packet.Bytes.{Layout, Fits, receive_all}
use dart_sync.Packet.Bytes.Framing.{stream_of, receive_all-stream_of, receive_all_terminates}

abbrev sized : ℕ → TrackerPkt
sized n = record { file_table_size = pos n; file = no_file }

abbrev bytes_of : ℤ → List ℕ
bytes_of (ℤ.pos n) = n ∷ 7 ∷ []
bytes_of (ℤ.negsuc n) = n ∷ 8 ∷ []

abbrev size_in : List ℕ → ℕ
size_in [] = 0
size_in (n ∷ bytes) = n

abbrev two_bytes : Layout TrackerPkt
two_bytes = record {
  encode = λ p. bytes_of p.file_table_size;
  decode = λ bytes. sized (size_in bytes);
  size = 2;
}

sized-Fits : (n : ℕ) → Fits two_bytes (sized n)
sized-Fits n = record { restores = refl; fills = refl }

receive_all-stream_of_example :
    receive_all two_bytes 3 (stream_of two_bytes (sized 5 ∷ sized 6 ∷ []) ++ 9 ∷ [])
    ≡ some (sized 5 ∷ sized 6 ∷ [])
receive_all-stream_of_example =
    receive_all-stream_of two_bytes (omega arith) 3 (sized 5 ∷ sized 6 ∷ []) (9 ∷ [])
      (sized-Fits 5, (sized-Fits 6, tt)) (omega arith) (omega arith)

receive_all_terminates_example :
    (pkts : List TrackerPkt) × (receive_all two_bytes 6 (5 ∷ 7 ∷ 6 ∷ 7 ∷ 9 ∷ []) ≡ some pkts)
    × (length pkts * 2 ≤ 5)
receive_all_terminates_example =
    receive_all_terminates two_bytes (omega arith) 6 (5 ∷ 7 ∷ 6 ∷ 7 ∷ 9 ∷ []) (omega arith)
