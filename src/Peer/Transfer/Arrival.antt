-- ===== src/Peer/Transfer/Arrival.antt =====
-- What arrives of a piece that `upload_send` sends and `piece_download` receives.
use mathlib.Core.List.{append_assoc, append-nil}
use dart_sync.Base.{
  ℕ, zero, suc, ◌+◌, ◌-◌, ◌*◌, ◌≤◌, ◌<◌, ◌≡◌, refl, ap, ◌∙◌, sym, subst, none, some, List, [], ◌∷◌,
  ◌++◌, arith, length, take, drop, replicate, length-drop, ok, ◌>>=◌,
}
use dart_sync.Table.{max_data_len}
use dart_sync.Peer.Transfer.{
  Zlib, compress_string, decompress_string, until_zero, strncpy, encode, decode, pkt_count,
  pkt_length, pkt_data, source, Line, recv, overlay, exited, recv_packet, recv_packets,
}
use dart_sync.Peer.Transfer.Bytes.{
  length-encode, decode-encode, length-until_zero, until_zero-padded, length-strncpy, replicate-add,
  overlay-zeros, recv-front,
}

-- The bytes of a packet with everything behind the first zero byte replaced by zeroes.
abbrev pub blank_rest : List ℕ → List ℕ
blank_rest [] = []
blank_rest (zero ∷ bs) = replicate (suc (length bs)) 0
blank_rest (suc b ∷ bs) = suc b ∷ blank_rest bs

-- This done to each of `n` packets of MAX_DATA_LEN bytes; the last one may be shorter.
abbrev pub survivors : ℕ → List ℕ → List ℕ
survivors zero piece = []
survivors (suc n) piece =
    blank_rest (take max_data_len piece) ++ survivors n (drop max_data_len piece)

-- A socket on which the kernel hands over all that is asked for.
abbrev pub line : List ℕ → Line
line stream = record { stream = stream; limits = [] }

strncpy-blank_rest : (n : ℕ) (xs : List ℕ) → length xs ≡ n → strncpy n xs ≡ blank_rest xs
unfolding strncpy
strncpy-blank_rest n [] e = ap (λ k. replicate k 0) (let m : n - 0 ≡ 0 = omega (arith, e) in m)
strncpy-blank_rest n (zero ∷ xs) e =
    ap (λ k. replicate k 0) (let m : n - 0 ≡ suc (length xs) = omega (arith, e) in m)
strncpy-blank_rest n (suc b ∷ xs) e =
    let m : n - suc (length (until_zero xs)) ≡ length xs - length (until_zero xs) =
      omega (arith, e) in
    ap (λ k. suc b ∷ (until_zero xs ++ replicate k 0)) m
    ∙ ap (◌∷◌ (suc b)) (strncpy-blank_rest (length xs) xs refl)

-- zlib's `uncompress` undoes `compress` on what fits into a packet.
abbrev pub Restores : Zlib → Type 0
Restores z =
    (xs ys : List ℕ)
    → length xs ≤ max_data_len
    → compress_string z xs ≡ some ys
    → decompress_string z ys ≡ some xs

-- The compressed form of a packet fits into `pkt->data`.
abbrev pub Packs : Zlib → List ℕ → Type 0
Packs z xs = (ys : List ℕ) × (compress_string z xs ≡ some ys) × (length ys ≤ max_data_len)

module _ (z : Zlib) (restores : Restores z) where
  -- One packet is read whole and uncompressed.
  pub recv_packet-sent :
      (src packet rest : List ℕ)
      → length src ≤ max_data_len
      → compress_string z src ≡ some packet
      → length packet ≤ max_data_len
      → recv_packet z (line (encode 8 (length packet) ++ (packet ++ rest))) ≡ (some src, line rest)
  unfolding recv_packet
  recv_packet-sent src packet rest small packed short =
      let number : decode (encode 8 (length packet)) ≡ length packet =
        decode-encode 8 (length packet) (omega (arith, short)) in
      let head : recv 8 (line (encode 8 (length packet) ++ (packet ++ rest)))
          ≡ (some (encode 8 (length packet)), line (packet ++ rest)) =
        subst
          (λ k.
            recv k (line (encode 8 (length packet) ++ (packet ++ rest)))
            ≡ (some (encode 8 (length packet)), line (packet ++ rest)))
          (length-encode 8 (length packet))
          (recv-front (encode 8 (length packet)) (packet ++ rest)) in
      let nothing : length packet - length packet ≡ 0 = omega arith in
      rw
        (
          head,
          number,
          recv-front packet rest,
          nothing,
          append-nil packet,
          restores src packet small packed,
        )
        refl

  -- Then its bytes before the first zero are written into the buffer.
  pub recv_packets-one :
      (n i : ℕ) (l after : Line) (src buffer buffer' : List ℕ)
      → recv_packet z l ≡ (some src, after)
      → overlay (i * max_data_len) (until_zero src) buffer ≡ ok buffer'
      → recv_packets z [] (suc n) i l buffer ≡ recv_packets z [] n (suc i) after buffer'
  unfolding recv_packets
  recv_packets-one n i l after src buffer buffer' got written =
      subst
        (λ r. recv_packets z [] (suc n) i l buffer ≡ (elim r.0 [
          | none ↦ ok exited
          | some bytes ↦
              (overlay (i * max_data_len) (until_zero (bytes ++ [])) buffer
                >>= (λ b. recv_packets z [] n (suc i) r.1 b))
        ]))
        got refl
      ∙ rw (append-nil src, written) refl

pub length-take : (n : ℕ) (xs : List ℕ) → n ≤ length xs → length (take n xs) ≡ n
length-take zero xs h = refl
length-take (suc n) [] h = absurd (omega arith)
length-take (suc n) (x ∷ xs) h = ap suc (length-take n xs (omega arith))

-- Where the packets of a piece lie.
pub front_length : (size i : ℕ) → suc i < pkt_count size → pkt_length size i ≡ max_data_len
front_length size i h = ground arith

pub front_fits : (size i : ℕ) → suc i < pkt_count size → i * max_data_len + max_data_len ≤ size
front_fits size i h = ground arith

pub last_fits : (size i : ℕ) → suc i ≡ pkt_count size → i * max_data_len + pkt_length size i ≡ size
last_fits size i h = ground arith

pub pkt_length_small : (size i : ℕ) → pkt_length size i ≤ max_data_len
pkt_length_small size i = ground arith

pkt_fits : (size i : ℕ) → i < pkt_count size → i * max_data_len + pkt_length size i ≤ size
pkt_fits size i h = ground arith

module _ (size : ℕ) (buffer : List ℕ) (full : length buffer ≡ size) where
  pub length-pkt_data :
      (i : ℕ) → i < pkt_count size → length (pkt_data size i buffer) ≡ pkt_length size i
  unfolding pkt_data
  length-pkt_data i h =
      length-take (pkt_length size i) (drop (i * max_data_len) buffer)
        (omega (arith, length-drop (i * max_data_len) buffer, pkt_fits size i h, full))

  pub source-blank_rest :
      (i : ℕ) → i < pkt_count size → source size i buffer ≡ blank_rest (pkt_data size i buffer)
  unfolding source
  source-blank_rest i h =
      strncpy-blank_rest (pkt_length size i) (pkt_data size i buffer) (length-pkt_data i h)

  pub length-source :
      (i : ℕ) → i < pkt_count size → length (source size i buffer) ≡ pkt_length size i
  unfolding source
  length-source i h =
      length-strncpy (pkt_length size i) (pkt_data size i buffer)
        (omega (arith, length-pkt_data i h))

  -- The bytes before the first zero, over zeroes, are the packet.
  pub overlay-source :
      (i : ℕ) (front : List ℕ)
      → i < pkt_count size
      → length front ≡ i * max_data_len
      → overlay
          (i * max_data_len)
          (until_zero (source size i buffer))
          (front ++ replicate (size - i * max_data_len) 0)
        ≡ ok (
            front
            ++ (source size i buffer ++ replicate (size - i * max_data_len - pkt_length size i) 0))
  unfolding source strncpy
  overlay-source i front h e =
      let bytes : List ℕ = pkt_data size i buffer in
      let m : ℕ = pkt_length size i in
      let u : List ℕ = until_zero bytes in
      let short : length u ≤ m = omega (arith, length-until_zero bytes, length-pkt_data i h) in
      let split : size - i * max_data_len - length u
          ≡ (m - length u) + (size - i * max_data_len - m) =
        omega (arith, short, pkt_fits size i h) in
      rw (until_zero-padded bytes (m - length u)) (
        overlay-zeros (i * max_data_len) (size - i * max_data_len) front u e
          (omega (arith, short, pkt_fits size i h))
        ∙ ap (λ bs. ok (front ++ bs))
            (ap (λ k. u ++ replicate k 0) split
              ∙ ap (◌++◌ u) (replicate-add (m - length u) (size - i * max_data_len - m) 0)
              ∙ sym (
                  append_assoc u (replicate (m - length u) 0)
                    (replicate (size - i * max_data_len - m) 0))))
