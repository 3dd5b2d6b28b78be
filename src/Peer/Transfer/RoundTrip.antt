-- ===== src/Peer/Transfer/RoundTrip.antt =====
-- `upload_send` followed by `piece_download`, with zlib as its documentation describes it.
use mathlib.Core.List.{append_assoc, append-nil}
use dart_sync.Base.{
  ℕ, zero, suc, ◌+◌, ◌-◌, ◌*◌, ◌≤◌, ◌<◌, ◌≡◌, refl, ap, ◌∙◌, sym, false, ltb, some, List, [], ◌++◌,
  arith, length, take, drop, replicate, length-append, take-all, drop-drop, length-drop, ok,
}
use dart_sync.Table.{max_data_len}
use dart_sync.Peer.Transfer.{
  Zlib, compress_string, encode, Upload, finished, halted, overrun, taken, behind, pkt_count,
  pkt_length, pkt_data, source, send_packets, read_piece, upload_send, arrived, recv_packets,
  piece_download,
}
use dart_sync.Peer.Transfer.Arrival.{
  Restores, Packs, blank_rest, survivors, line, recv_packet-sent, recv_packets-one, length-take,
  front_length, front_fits, last_fits, pkt_length_small, source-blank_rest, length-source,
  overlay-source,
}

taken-behind : (bytes : List ℕ) (u : Upload) → taken (behind bytes u) ≡ bytes ++ taken u
taken-behind bytes (finished done rest) = refl
taken-behind bytes (halted rest) = refl
taken-behind bytes (overrun rest) = refl

-- A packet that fits is sent behind its length.
pub send_packets-one :
    (z : Zlib) (size n i : ℕ) (buffer packet : List ℕ)
    → compress_string z (source size i buffer) ≡ some packet
    → length packet ≤ max_data_len
    → send_packets z size (suc n) i buffer []
      ≡ behind (encode 8 (length packet)) (behind packet (send_packets z size n (suc i) buffer []))
unfolding send_packets
send_packets-one z size n i buffer packet e short =
    let fits : ltb max_data_len (length packet) ≡ false = ground (arith, short) in
    rw (e, send_packets, fits) refl

module _ (z : Zlib) (restores : Restores z) (size : ℕ) (buffer : List ℕ)
    (full : length buffer ≡ size)
    (packs : (i : ℕ) → i < pkt_count size → Packs z (source size i buffer)) where
  -- One packet, from the sender's buffer to the receiver's.
  one_packet :
      (n i : ℕ) (front : List ℕ)
      → i < pkt_count size
      → length front ≡ i * max_data_len
      → recv_packets z []
          (suc n)
          i
          (line (taken (send_packets z size (suc n) i buffer [])))
          (front ++ replicate (size - i * max_data_len) 0)
        ≡ recv_packets z [] n (suc i) (line (taken (send_packets z size n (suc i) buffer []))) (
            front
            ++ (source size i buffer ++ replicate (size - i * max_data_len - pkt_length size i) 0))
  one_packet n i front h e =
      let (packet, packed, short) = packs i h in
      let rest = send_packets z size n (suc i) buffer [] in
      let bytes : taken (send_packets z size (suc n) i buffer [])
          ≡ encode 8 (length packet) ++ (packet ++ taken rest) =
        ap taken (send_packets-one z size n i buffer packet packed short)
        ∙ taken-behind (encode 8 (length packet)) (behind packet rest)
        ∙ ap (◌++◌ (encode 8 (length packet))) (taken-behind packet rest) in
      ap
        (λ bs.
          recv_packets z [] (suc n) i (line bs) (front ++ replicate (size - i * max_data_len) 0))
        bytes
      ∙ recv_packets-one z restores n i _ _ (source size i buffer)
          (front ++ replicate (size - i * max_data_len) 0) _
          (recv_packet-sent z restores (source size i buffer) packet (taken rest)
            (omega (arith, length-source size buffer full i h, pkt_length_small size i)) packed
            short)
          (overlay-source size buffer full i front h e)

  -- The last packet is what is left of the buffer.
  last_packet :
      (i : ℕ)
      → suc i ≡ pkt_count size
      → source size i buffer ≡ blank_rest (take max_data_len (drop (i * max_data_len) buffer))
  unfolding pkt_data
  last_packet i h =
      let rest : length (drop (i * max_data_len) buffer) ≡ pkt_length size i =
        omega (arith, length-drop (i * max_data_len) buffer, last_fits size i h, full) in
      source-blank_rest size buffer full i (omega (arith, h))
      ∙ ap blank_rest (
          take-all (pkt_length size i) (drop (i * max_data_len) buffer) (omega (arith, rest))
          ∙ sym (
              take-all max_data_len (drop (i * max_data_len) buffer)
                (omega (arith, rest, pkt_length_small size i))))

  front_packet :
      (i : ℕ)
      → suc i < pkt_count size
      → source size i buffer ≡ blank_rest (take max_data_len (drop (i * max_data_len) buffer))
  unfolding pkt_data
  front_packet i h =
      source-blank_rest size buffer full i (omega (arith, h))
      ∙ ap (λ m. blank_rest (take m (drop (i * max_data_len) buffer))) (front_length size i h)

  arrival :
      (n i : ℕ) (front : List ℕ)
      → i + suc n ≡ pkt_count size
      → length front ≡ i * max_data_len
      → recv_packets z []
          (suc n)
          i
          (line (taken (send_packets z size (suc n) i buffer [])))
          (front ++ replicate (size - i * max_data_len) 0)
        ≡ ok (arrived (front ++ survivors (suc n) (drop (i * max_data_len) buffer)))
  unfolding recv_packets
  arrival zero i front h e =
      let last : suc i ≡ pkt_count size = omega (arith, h) in
      let nothing : size - i * max_data_len - pkt_length size i ≡ 0 =
        omega (arith, last_fits size i last) in
      one_packet zero i front (omega (arith, h)) e
      ∙ ap (λ bs. ok (arrived (front ++ bs)))
          (ap (λ k. source size i buffer ++ replicate k 0) nothing
            ∙ ap (λ bs. bs ++ []) (last_packet i last))
  arrival (suc n) i front h e =
      let more : suc i < pkt_count size = omega (arith, h) in
      let rest : size - i * max_data_len - pkt_length size i ≡ size - suc i * max_data_len =
        omega (arith, front_length size i more, front_fits size i more) in
      let longer : length (front ++ source size i buffer) ≡ suc i * max_data_len = omega (
        arith,
        length-append front (source size i buffer),
        length-source size buffer full i (omega (arith, h)),
        front_length size i more,
        e,
      ) in
      let next : i * max_data_len + max_data_len ≡ suc i * max_data_len = omega arith in
      one_packet (suc n) i front (omega (arith, h)) e
      ∙ ap
          (recv_packets z [] (suc n) (suc i)
            (line (taken (send_packets z size (suc n) (suc i) buffer []))))
          (ap (λ k. front ++ (source size i buffer ++ replicate k 0)) rest
            ∙ sym (
                append_assoc front (source size i buffer)
                  (replicate (size - suc i * max_data_len) 0)))
      ∙ arrival n (suc i) (front ++ source size i buffer) (omega (arith, h)) longer
      ∙ ap (λ bs. ok (arrived bs))
          (append_assoc front (source size i buffer) _
            ∙ ap (λ bs. front ++ bs)
                (ap (λ src. src ++ survivors (suc n) (drop (suc i * max_data_len) buffer))
                    (front_packet i more)
                  ∙ ap
                      (λ d.
                        blank_rest (take max_data_len (drop (i * max_data_len) buffer))
                        ++ survivors (suc n) d)
                      (sym (
                        drop-drop (i * max_data_len) max_data_len buffer
                        ∙ ap (λ k. drop k buffer) next))))

pub read_piece-within :
    (file : List ℕ) (offset size : ℕ)
    → offset + size ≤ length file
    → (read_piece file offset size ≡ take size (drop offset file))
      × (length (read_piece file offset size) ≡ size)
unfolding read_piece
read_piece-within file offset size h =
    let got : length (take size (drop offset file)) ≡ size =
      length-take size (drop offset file) (omega (arith, length-drop offset file)) in
    let whole : take size (drop offset file)
          ++ replicate (size - length (take size (drop offset file))) 0
        ≡ take size (drop offset file) =
      ap (λ k. take size (drop offset file) ++ replicate k 0)
        (let nothing : size - length (take size (drop offset file)) ≡ 0 = omega (arith, got) in
          nothing)
      ∙ append-nil (take size (drop offset file)) in
    (whole, ap length whole ∙ got)

-- Where zlib's uncompress undoes compress on up to MAX_DATA_LEN bytes, every packet of the piece
-- is compressed to at most MAX_DATA_LEN bytes, every send and recv is served in full and a zero
-- byte stands behind each decompressed packet, piece_download takes what upload_send sends of a
-- piece within the file for the piece in which every packet is zero from its first zero byte on.
pub piece_download-upload_send :
    (z : Zlib) (file : List ℕ) (offset size : ℕ)
    → Restores z
    → offset + size ≤ length file
    → ((i : ℕ) → i < pkt_count size → Packs z (source size i (read_piece file offset size)))
    → piece_download z [] size (line (taken (upload_send z (some file) offset size [])))
      ≡ ok (arrived (survivors (pkt_count size) (take size (drop offset file))))
unfolding piece_download upload_send
piece_download-upload_send z file offset size restores h packs =
    let (same, full) = read_piece-within file offset size h in
    by_count (read_piece file offset size) full packs (pkt_count size) refl
    ∙ ap (λ piece. ok (arrived (survivors (pkt_count size) piece))) same
  where
    by_count :
        (buffer : List ℕ)
        → length buffer ≡ size
        → ((i : ℕ) → i < pkt_count size → Packs z (source size i buffer))
        → (n : ℕ) → n ≡ pkt_count size
        → recv_packets z [] n 0
            (line (taken (send_packets z size n 0 buffer [])))
            (replicate size 0)
          ≡ ok (arrived (survivors n buffer))
    by_count buffer full packs zero e =
        unfold recv_packets in
        let empty : size ≡ 0 = ground (arith, e) in ap (λ k. ok (arrived (replicate k 0))) empty
    by_count buffer full packs (suc n) e =
        let start : 0 * max_data_len ≡ 0 = omega arith in
        let all : size - 0 * max_data_len ≡ size = omega arith in
        ap
          (λ k.
            recv_packets z [] (suc n) 0 (line (taken (send_packets z size (suc n) 0 buffer [])))
              (replicate k 0))
          (sym all)
        ∙ arrival z restores size buffer full packs n 0 [] (omega (arith, e)) (sym start)
        ∙ ap (λ k. ok (arrived (survivors (suc n) (drop k buffer)))) start
