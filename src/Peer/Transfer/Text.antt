-- ===== src/Peer/Transfer/Text.antt =====
-- The transfer of pieces without zero bytes.
use dart_sync.Base.{
  ℕ, zero, suc, ◌+◌, ◌*◌, ◌≤◌, ◌<◌, ◌≡◌, ◌≢◌, refl, ap, ◌∙◌, some, List, [], ◌∷◌, ◌++◌, arith,
  length, take, drop, take-append-drop, length-drop, ok, All,
}
use dart_sync.Table.{max_data_len}
use dart_sync.Peer.Transfer.{
  Zlib, pkt_count, source, read_piece, taken, upload_send, arrived, piece_download,
}
use dart_sync.Peer.Transfer.Arrival.{Restores, Packs, blank_rest, survivors, line, length-take}
use dart_sync.Peer.Transfer.RoundTrip.{piece_download-upload_send}

blank_rest_text : (xs : List ℕ) → All (λ b. b ≢ 0) xs → blank_rest xs ≡ xs
blank_rest_text [] t = refl
blank_rest_text (zero ∷ xs) t = absurd (t.0 refl)
blank_rest_text (suc b ∷ xs) t = ap (◌∷◌ (suc b)) (blank_rest_text xs (t.1))

pub All-take : (k : ℕ) (xs : List ℕ) → All (λ b. b ≢ 0) xs → All (λ b. b ≢ 0) (take k xs)
All-take zero xs t = tt
All-take (suc k) [] t = tt
All-take (suc k) (x ∷ xs) t = (t.0, All-take k xs (t.1))

pub All-drop : (k : ℕ) (xs : List ℕ) → All (λ b. b ≢ 0) xs → All (λ b. b ≢ 0) (drop k xs)
All-drop zero xs t = t
All-drop (suc k) [] t = tt
All-drop (suc k) (x ∷ xs) t = All-drop k xs (t.1)

survivors_text :
    (n : ℕ) (xs : List ℕ) → All (λ b. b ≢ 0) xs → length xs ≤ n * max_data_len → survivors n xs ≡ xs
survivors_text zero [] t h = refl
survivors_text zero (x ∷ xs) t h = absurd (omega arith)
survivors_text (suc n) xs t h =
    ap (λ bs. bs ++ survivors n (drop max_data_len xs))
      (blank_rest_text (take max_data_len xs) (All-take max_data_len xs t))
    ∙ ap (◌++◌ (take max_data_len xs)) (
        survivors_text n (drop max_data_len xs) (All-drop max_data_len xs t)
          (omega (arith, length-drop max_data_len xs)))
    ∙ take-append-drop max_data_len xs

-- Where zlib's uncompress undoes compress on up to MAX_DATA_LEN bytes, every packet of the piece is
-- compressed to at most MAX_DATA_LEN bytes, every send and recv is served in full and a zero byte
-- stands behind each decompressed packet, a piece within the file that has no zero bytes arrives as
-- it is.
pub piece_download-upload_send_text :
    (z : Zlib) (file : List ℕ) (offset size : ℕ)
    → Restores z
    → offset + size ≤ length file
    → ((i : ℕ) → i < pkt_count size → Packs z (source size i (read_piece file offset size)))
    → All (λ b. b ≢ 0) (take size (drop offset file))
    → piece_download z [] size (line (taken (upload_send z (some file) offset size [])))
      ≡ ok (arrived (take size (drop offset file)))
piece_download-upload_send_text z file offset size restores h packs text =
    piece_download-upload_send z file offset size restores h packs
    ∙ ap (λ bs. ok (arrived bs))
        (survivors_text (pkt_count size) (take size (drop offset file)) text (
          omega (
            arith,
            length-take size (drop offset file) (omega (arith, length-drop offset file)),
            enough,
          )))
  where
    enough : size ≤ pkt_count size * max_data_len
    enough = ground arith
