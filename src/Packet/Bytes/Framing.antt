-- ===== src/Packet/Bytes/Framing.antt =====
-- The byte streams of packets: where one packet ends the next one starts, and nothing is lost.
use mathlib.Core.List.{append_assoc}
use dart_sync.Base.{
  ℕ, zero, suc, ◌+◌, ◌*◌, ◌≡◌, ◌<◌, ◌≤◌, refl, ap, ◌∙◌, true, false, none, some, List, [], ◌∷◌,
  ◌++◌, ◌==◌, length, arith, Bool-cases, inl, inr, ◌⊎◌, subst, length-append, All,
}
use dart_sync.Packet.Bytes.{Layout, Fits, receive_loop, receive_packet, receive_all}

-- What a stream holds after one round of reading: a whole buffer and the rest, or too little.
pub receive_loop_cases :
    (bufsize idx : ℕ) (buf stream : List ℕ)
    → idx < bufsize
    → ((length stream + idx < bufsize) × (receive_loop bufsize idx buf stream ≡ (none, [])))
      ⊎ ((front : List ℕ) × (rest : List ℕ) × (receive_loop bufsize idx buf stream
            ≡ (some (buf ++ front), rest))
          × (stream ≡ front ++ rest)
          × (length front + idx ≡ bufsize))
unfolding receive_loop
receive_loop_cases bufsize idx buf [] h = inl (omega arith, refl)
receive_loop_cases bufsize idx buf (c ∷ stream) h = elim (Bool-cases (suc idx == bufsize)) [
  | inl last ↦ inr (c ∷ [], stream, rw last refl, refl, ground (arith, last))
  | inr more ↦
      elim (receive_loop_cases bufsize (suc idx) (buf ++ c ∷ []) stream (ground (arith, more, h))) [
        | inl (short, e) ↦ inl (omega (arith, short), rw more e)
        | inr (front, rest, e, split, full) ↦ inr (
          c ∷ front,
          rest,
          rw more (e ∙ rw append_assoc refl),
          ap (◌∷◌ c) split,
          omega (arith, full),
        )
      ]
]

receive_loop-front :
    (bufsize idx : ℕ) (buf front rest : List ℕ)
    → 0 < length front
    → length front + idx ≡ bufsize
    → receive_loop bufsize idx buf (front ++ rest) ≡ (some (buf ++ front), rest)
unfolding receive_loop
receive_loop-front bufsize idx buf [] rest some_bytes e = absurd (omega arith)
receive_loop-front bufsize idx buf (c ∷ []) rest some_bytes e =
    let last : (suc idx == bufsize) ≡ true = ground (arith, e) in rw last refl
receive_loop-front bufsize idx buf (c ∷ d ∷ front) rest some_bytes e =
    let more : (suc idx == bufsize) ≡ false = ground (arith, e) in
    rw more (
      receive_loop-front bufsize (suc idx) (buf ++ c ∷ []) (d ∷ front) rest (omega arith)
        (omega (arith, e))
      ∙ rw append_assoc refl)

-- The bytes of packets that were sent one after the other.
abbrev pub stream_of : {A : Type 0} → Layout A → List A → List ℕ
stream_of lay [] = []
stream_of lay (pkt ∷ pkts) = lay.encode pkt ++ stream_of lay pkts

module _ {A : Type 0} (lay : Layout A) (large : 0 < lay.size) where
  pub receive_packet-encode :
      (pkt : A) (rest : List ℕ)
      → Fits lay pkt
      → receive_packet lay (lay.encode pkt ++ rest) ≡ (some pkt, rest)
  unfolding receive_packet
  receive_packet-encode pkt rest w =
      rw
        (
          receive_loop-front lay.size 0 [] (lay.encode pkt) rest (omega (arith, w.fills, large))
              (omega (arith, w.fills)),
          w.restores,
        )
        refl

  pub receive_packet-short :
      (stream : List ℕ) → length stream < lay.size → (receive_packet lay stream).0 ≡ none
  unfolding receive_packet
  receive_packet-short stream h = elim (receive_loop_cases lay.size 0 [] stream large) [
    | inl (_, e) ↦ rw (e, receive_packet) refl
    | inr (front, rest, e, split, full) ↦
        absurd (omega (arith, ap length split, length-append front rest, full))
  ]

  receive_all-none :
      (k : ℕ) (stream : List ℕ)
      → (receive_packet lay stream).0 ≡ none
      → receive_all lay (suc k) stream ≡ some []
  unfolding receive_all
  receive_all-none k stream e = rw (e, receive_all) refl

  receive_all-some :
      (k : ℕ) (stream rest : List ℕ) (pkt : A) (pkts : List A)
      → receive_packet lay stream ≡ (some pkt, rest)
      → receive_all lay k rest ≡ some pkts
      → receive_all lay (suc k) stream ≡ some (pkt ∷ pkts)
  unfolding receive_all
  receive_all-some k stream rest pkt pkts e got =
      subst
        (λ r. receive_all lay (suc k) stream ≡ (elim r.0 [
          | none ↦ some []
          | some a ↦ (elim (receive_all lay k r.1) [ none ↦ none | some later ↦ some (a ∷ later) ])
        ]))
        e refl
      ∙ rw got refl

  -- A receiver that reads byte by byte gives back exactly the packets whose bytes were sent, in
  -- order, when each has the size of the struct and is restored from its bytes, a broken packet at
  -- the end is shorter than that, a struct has at least one byte, and there are more rounds than
  -- packets.
  pub receive_all-stream_of :
      (k : ℕ) (pkts : List A) (broken : List ℕ)
      → All (Fits lay) pkts
      → length broken < lay.size
      → length pkts < k
      → receive_all lay k (stream_of lay pkts ++ broken) ≡ some pkts
  receive_all-stream_of zero pkts broken w short h = absurd (omega arith)
  receive_all-stream_of (suc k) [] broken w short h =
      receive_all-none k broken (receive_packet-short broken short)
  receive_all-stream_of (suc k) (pkt ∷ pkts) broken w short h =
      receive_all-some k _ (stream_of lay pkts ++ broken) pkt pkts
        (rw append_assoc (receive_packet-encode pkt (stream_of lay pkts ++ broken) w.0))
        (receive_all-stream_of k pkts broken w.1 short (omega arith))

  -- With more rounds than bytes the loop around the receiver ends, whatever the bytes are, with
  -- packets that together have no more bytes than arrived, if a struct has at least one byte.
  pub receive_all_terminates :
      (k : ℕ) (stream : List ℕ)
      → length stream < k
      → (pkts : List A) × (receive_all lay k stream ≡ some pkts)
        × (length pkts * lay.size ≤ length stream)
  unfolding receive_packet
  receive_all_terminates zero stream h = absurd (omega arith)
  receive_all_terminates (suc k) stream h = elim (receive_loop_cases lay.size 0 [] stream large) [
    | inl (_, e) ↦ ([], receive_all-none k stream (rw (e, receive_packet) refl), omega arith)
    | inr (front, rest, e, split, full) ↦
        let sizes : length stream ≡ lay.size + length rest =
          omega (arith, ap length split, length-append front rest, full) in
        let (pkts, got, small) = receive_all_terminates k rest (omega (arith, sizes, large, h)) in
        let here : receive_packet lay stream ≡ (some (lay.decode front), rest) =
          rw (e, receive_packet) refl in
        (
          lay.decode front ∷ pkts,
          receive_all-some k stream rest (lay.decode front) pkts here got,
          grind (arith, small, sizes),
        )
  ]
