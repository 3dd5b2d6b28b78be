-- ===== src/Peer/Transfer/Overrun.antt =====
-- peer/p2p.c, `upload_send`: packets that zlib cannot make small enough, or fails on.
use dart_sync.Base.{
  ℕ, zero, suc, ◌+◌, ◌<◌, ◌≡◌, refl, ap, ◌∙◌, sym, subst, true, none, some, List, [], ◌++◌, arith,
  length, ltb,
}
use dart_sync.Table.{max_data_len}
use dart_sync.Peer.Transfer.{
  Zlib, compress_string, encode, Upload, halted, overrun, behind, source, send_packets, pkt_count,
  read_piece, upload_send,
}
use dart_sync.Peer.Transfer.Arrival.{Packs}
use dart_sync.Peer.Transfer.RoundTrip.{send_packets-one}

module _ (z : Zlib) (size : ℕ) (buffer : List ℕ) (stop : List ℕ → Upload)
    (stays : (a bytes : List ℕ) → behind a (stop bytes) ≡ stop (a ++ bytes)) (k : ℕ)
    (stops : (n : ℕ) → send_packets z size (suc n) k buffer [] ≡ stop []) where
  -- The packets before the one that ends the upload are sent.
  send_packets-stops :
      (d n i : ℕ)
      → i + d ≡ k
      → d < n
      → ((j : ℕ) → j < k → Packs z (source size j buffer))
      → (bytes : List ℕ) × (send_packets z size n i buffer [] ≡ stop bytes)
  send_packets-stops d zero i e h packs = absurd (omega (arith, h))
  send_packets-stops zero (suc n) i e h packs =
      let here : i ≡ k = omega (arith, e) in
      ([], subst (λ m. send_packets z size (suc n) m buffer [] ≡ stop []) (sym here) (stops n))
  send_packets-stops (suc d) (suc n) i e h packs =
      let (packet, packed, short) = packs i (omega (arith, e)) in
      let (bytes, rest) =
        send_packets-stops d n (suc i) (omega (arith, e)) (omega (arith, h)) packs in
      (
        encode 8 (length packet) ++ (packet ++ bytes),
        send_packets-one z size n i buffer packet packed short
            ∙ ap (λ u. behind (encode 8 (length packet)) (behind packet u)) rest
            ∙ ap (behind (encode 8 (length packet))) (stays packet bytes)
            ∙ stays (encode 8 (length packet)) (packet ++ bytes),
      )

-- When every send succeeds, the packets before one packet of a piece are compressed to at most
-- MAX_DATA_LEN bytes and that one to more, upload_send writes behind the packet.
pub upload_send-overruns :
    (z : Zlib) (file : List ℕ) (offset size k : ℕ) (ys : List ℕ)
    → ((j : ℕ) → j < k → Packs z (source size j (read_piece file offset size)))
    → k < pkt_count size
    → compress_string z (source size k (read_piece file offset size)) ≡ some ys
    → max_data_len < length ys
    → (bytes : List ℕ) × (upload_send z (some file) offset size [] ≡ overrun bytes)
unfolding upload_send send_packets
upload_send-overruns z file offset size k ys packs h packed long =
    let over : ltb max_data_len (length ys) ≡ true = ground (arith, long) in
    send_packets-stops z size (read_piece file offset size) overrun (λ a bytes. refl) k
      (λ n. rw (packed, send_packets, over) refl) k (pkt_count size) 0 (omega arith) h packs

-- So it does with the end of the process when `compress` fails.
pub upload_send-halts :
    (z : Zlib) (file : List ℕ) (offset size k : ℕ)
    → ((j : ℕ) → j < k → Packs z (source size j (read_piece file offset size)))
    → k < pkt_count size
    → compress_string z (source size k (read_piece file offset size)) ≡ none
    → (bytes : List ℕ) × (upload_send z (some file) offset size [] ≡ halted bytes)
unfolding upload_send send_packets
upload_send-halts z file offset size k packs h failed =
    send_packets-stops z size (read_piece file offset size) halted (λ a bytes. refl) k
      (λ n. rw (failed, send_packets) refl) k (pkt_count size) 0 (omega arith) h packs
