-- ===== src/Peer/Transfer/Tests.antt =====
-- peer/p2p.c and peer/peer.c: a piece of five bytes through a codec that copies.
use dart_sync.Base.{
  ℕ, ◌+◌, ◌*◌, none, replicate, length-replicate, ◌≡◌, refl, arith, some, List, [], ◌∷◌, ◌≤◌, ◌<◌,
  length, ok,
}
use dart_sync.Peer.Transfer.{
  Zlib, compress_string, pkt_count, source, read_piece, overrun, taken, upload_send, arrived,
  piece_download,
}
use dart_sync.Peer.Transfer.Arrival.{Restores, Packs, line, length-source, pkt_length_small}
use dart_sync.Peer.Transfer.RoundTrip.{read_piece-within, piece_download-upload_send}
use dart_sync.Peer.Transfer.Overrun.{upload_send-overruns}

abbrev copying : Zlib
copying = record {
  compress_bound = λ n. n;
  compress = λ n xs. some xs;
  uncompress = λ n xs. some xs;
}

copying-Restores : Restores copying
unfolding compress_string
copying-Restores xs ys h e = cc e

abbrev with_zero : List ℕ
with_zero = 9 ∷ 1 ∷ 0 ∷ 3 ∷ 4 ∷ 5 ∷ 6 ∷ []

abbrev text : List ℕ
text = 9 ∷ 1 ∷ 2 ∷ 3 ∷ 4 ∷ 5 ∷ 6 ∷ []

copying-Packs :
    (buffer : List ℕ) (i : ℕ)
    → length buffer ≡ 5
    → i < pkt_count 5
    → Packs copying (source 5 i buffer)
unfolding compress_string
copying-Packs buffer i full h =
    (source 5 i buffer, refl, omega (arith, length-source 5 buffer full i h, pkt_length_small 5 i))

piece_download-upload_send_example :
    piece_download copying [] 5 (line (taken (upload_send copying (some with_zero) 1 5 [])))
    ≡ ok (arrived (1 ∷ 0 ∷ 0 ∷ 0 ∷ 0 ∷ []))
unfolding read_piece
piece_download-upload_send_example =
    piece_download-upload_send copying with_zero 1 5 copying-Restores (omega arith)
      (λ i. copying-Packs (read_piece with_zero 1 5) i refl)

-- A codec that doubles every byte.
abbrev doubled : List ℕ → List ℕ
doubled [] = []
doubled (x ∷ xs) = x ∷ x ∷ doubled xs

abbrev doubling : Zlib
doubling = record {
  compress_bound = λ n. 2 * n;
  compress = λ n xs. some (doubled xs);
  uncompress = λ n xs. none;
}

length-doubled : (xs : List ℕ) → length (doubled xs) ≡ 2 * length xs
length-doubled [] = refl
length-doubled (x ∷ xs) = omega (arith, length-doubled xs)

abbrev long_file : List ℕ
long_file = replicate 1000 7

long-pieces : (length (read_piece long_file 0 1000) ≡ 1000)
long-pieces =
    let within : 0 + 1000 ≤ length long_file = rw (length-replicate {A = ℕ} 1000 7) (omega arith) in
    (read_piece-within long_file 0 1000 within).1

upload_send-overruns_example :
    (bytes : List ℕ) × (upload_send doubling (some long_file) 0 1000 [] ≡ overrun bytes)
unfolding compress_string
upload_send-overruns_example =
    upload_send-overruns doubling long_file 0 1000 0
      (doubled (source 1000 0 (read_piece long_file 0 1000))) (λ j h. absurd (omega (arith, h)))
      (omega arith) refl
      (omega (
        arith,
        length-doubled (source 1000 0 (read_piece long_file 0 1000)),
        length-source 1000 (read_piece long_file 0 1000) long-pieces 0 (omega arith),
      ))
