-- ===== src/Peer/Pieces/Cover.antt =====
-- The pieces of a fresh download cover the file without gap or overlap.
use mathlib.Core.List.{append-nil}
use native.Mathlib.Nat.{div-add-mod, mul_comm, suc-mul, mul-le-mul_right}
use dart_sync.Base.{
  ℕ, zero, suc, ◌+◌, ◌-◌, ◌*◌, ◌/◌, ◌%◌, ◌≤◌, ◌<◌, ◌≡◌, ◌∙◌, ap, sym, subst, true, false, List,
  arith, Option, none, some, refl, ok, fault, take-append-drop, take-all, drop-drop, length-drop,
  length, take, drop, ltb, ◌==◌, if◌then◌else◌, Bool-cases, inl, inr,
}
use dart_sync.Peer.Pieces.{
  Plan, Piece, divide, piece, is_needed, fetched, joined_from, all_started, ptp_download,
  source_num,
}

-- The bytes of a file in a piece.
abbrev pub slice : List ℕ → Piece → List ℕ
slice file p = take p.size (drop p.offset file)

-- What a plan has to satisfy: `n` pieces of which the last may be shorter.
abbrev pub Covers : Plan → ℕ → Type 0
Covers p file_size =
    (0 < p.peer_num)
    × (p.piece_size * (p.peer_num - 1)
          + (if ltb 0 p.remainder_len then p.remainder_len else p.piece_size)
        ≡ file_size)

-- The division by `k` sources.
shares-Covers :
    (file_size k : ℕ)
    → 0 < k
    → Covers
        (record {
          peer_num = if ltb 0 (file_size % k) then suc k else k;
          piece_size = file_size / k;
          remainder_len = file_size % k;
        })
        file_size
shares-Covers file_size zero h = absurd (omega arith)
shares-Covers file_size (suc j) h = elim (Bool-cases (ltb 0 (file_size % suc j))) [
  | inl e ↦ rw e (
    omega arith,
    let e' : suc (suc j) - 1 ≡ suc j = omega arith in
        rw e' (rw mul_comm (div-add-mod file_size (suc j))),
  )
  | inr e ↦ rw e (omega arith, grind (arith, div-add-mod file_size (suc j)))
]

pub divide-Covers :
    (file_size sources : ℕ)
    → 1 < file_size
    → 0 < sources
    → Covers (divide file_size sources) file_size
unfolding divide
divide-Covers file_size sources large some_source = elim (Bool-cases (sources == 1)) [
  | inl one ↦ rw one (omega arith, omega arith)
  | inr not_one ↦ elim (Bool-cases (sources == 2)) [
    | inl two ↦ rw (not_one, two) (omega arith, ground arith)
    | inr not_two ↦
        rw (not_one, not_two, more) (shares-Covers file_size (sources - 1) (ground arith))
  ]
]
  where
    more : (sources == 0) ≡ false
    more = ground arith

div-pos : (n k : ℕ) → 0 < k → k ≤ n → 0 < n / k
div-pos n k h le = grind arith

pub divide-filled :
    (file_size sources : ℕ)
    → 1 < file_size
    → 0 < sources
    → sources - 1 ≤ file_size
    → 0 < (divide file_size sources).piece_size
unfolding divide
divide-filled file_size sources large some_source enough = grind (arith, div-pos)

-- No temporary file yet.
abbrev pub no_temps : ℕ → Option (List ℕ)
no_temps i = none

module _ (p : Plan) (file : List ℕ) (cover : Covers p (length file))
    (filled : 0 < p.piece_size) where
  last_size : ℕ
  last_size = if ltb 0 p.remainder_len then p.remainder_len else p.piece_size

  needed_last : (i : ℕ) → suc i ≡ p.peer_num → is_needed p i 0 ≡ true
  unfolding is_needed
  needed_last i e = ground arith

  piece_last :
      (i : ℕ)
      → suc i ≡ p.peer_num
      → piece p i ≡ record { offset = i * p.piece_size; size = last_size }
  unfolding piece last_size
  piece_last i e = ground arith

  rest_fits : (i : ℕ) → suc i ≡ p.peer_num → length (drop (i * p.piece_size) file) ≤ last_size
  unfolding last_size
  rest_fits i e =
      let n-pred : p.peer_num - 1 ≡ i = omega arith in
      let total = rw (n-pred, mul_comm p.piece_size i) at (cover.1) in
      omega (arith, length-drop (i * p.piece_size) file, total)

  last_piece :
      (i : ℕ)
      → suc i ≡ p.peer_num
      → fetched p i (slice file) none ≡ some (drop (i * p.piece_size) file)
  unfolding fetched
  last_piece i e =
      rw (needed_last i e, piece_last i e)
        (ap some (take-all last_size (drop (i * p.piece_size) file) (rest_fits i e)))

  front_piece :
      (i : ℕ)
      → suc i < p.peer_num
      → fetched p i (slice file) none ≡ some (take p.piece_size (drop (i * p.piece_size) file))
  unfolding fetched piece is_needed
  front_piece i h = ground arith

  needed : (i : ℕ) → i < p.peer_num → is_needed p i 0 ≡ true
  unfolding is_needed
  needed i h = elim (Bool-cases (suc i == p.peer_num)) [
    | inl last ↦ needed_last i (ground (arith, last))
    | inr front ↦ ground (arith, front, h)
  ]

  -- A fresh download starts a thread for every piece.
  pub all_started-no_temps : (i n : ℕ) → i + n ≤ p.peer_num → all_started p i n no_temps ≡ true
  unfolding all_started
  all_started-no_temps i zero h = refl
  all_started-no_temps i (suc n) h =
      rw (needed i (omega (arith, h)), all_started-no_temps (suc i) n (omega (arith, h))) refl

  next_offset : (i : ℕ) → suc i * p.piece_size ≡ i * p.piece_size + p.piece_size
  next_offset i = suc-mul i p.piece_size

  joined_from-file :
      (i n : ℕ)
      → i + suc n ≡ p.peer_num
      → joined_from p i (suc n) (slice file) no_temps ≡ ok (drop (i * p.piece_size) file)
  unfolding joined_from
  joined_from-file i zero e =
      rw (last_piece i (omega arith), joined_from)
        (ap ok (append-nil (drop (i * p.piece_size) file)))
  joined_from-file i (suc n) e =
      rw (front_piece i (omega arith), joined_from, joined_from-file (suc i) n (omega arith))
        (ap ok (
          rw (next_offset i, ← drop-drop (i * p.piece_size) p.piece_size file)
            (take-append-drop p.piece_size (drop (i * p.piece_size) file))))

  -- Every piece lies within the file.
  pub piece_fits : (i : ℕ) → i < p.peer_num → (piece p i).offset + (piece p i).size ≤ length file
  piece_fits i h = elim (Bool-cases (suc i == p.peer_num)) [
    | inl last ↦
        let e : suc i ≡ p.peer_num = ground (arith, last) in
        let n-pred : p.peer_num - 1 ≡ i = omega (arith, e) in
        let total = rw (n-pred, mul_comm p.piece_size i) at (cover.1) in
        rw (piece_last i e) (unfold last_size in omega (arith, total))
    | inr front ↦
        let more : suc i ≤ p.peer_num - 1 = ground (arith, front, h) in
        unfold piece in
        ground (
          arith,
          front,
          cover.1,
          next_offset i,
          mul-le-mul_right p.piece_size more,
          mul_comm p.piece_size (p.peer_num - 1),
        )
  ]

-- With no temporary file left over, a file of at least two bytes, at least one source and at least
-- as many bytes as one less than the number of sources, ptp_download writes the file when every
-- peer sends its slice.
pub ptp_download-file :
    (file : List ℕ) (sources : ℕ)
    → 1 < length file
    → 0 < sources
    → sources - 1 ≤ length file
    → ptp_download 0 (length file) sources (slice file) no_temps ≡ ok file
unfolding ptp_download source_num
ptp_download-file file sources large some_source enough =
    whole (divide (length file) sources) (divide-Covers (length file) sources large some_source)
      (divide-filled (length file) sources large some_source enough)
  where
    whole :
        (p : Plan)
        → Covers p (length file)
        → 0 < p.piece_size
        → (if all_started p 0 p.peer_num no_temps
            then joined_from p 0 p.peer_num (slice file) no_temps
            else fault)
          ≡ ok file
    whole p cover filled =
        let e : p.peer_num ≡ suc (p.peer_num - 1) = omega (arith, cover.0) in
        let start : 0 * p.piece_size ≡ 0 = omega arith in
        rw (all_started-no_temps p file cover filled 0 p.peer_num (omega arith)) (
          subst (λ n. joined_from p 0 n (slice file) no_temps ≡ ok file) (sym e)
            (joined_from-file p file cover filled 0 (p.peer_num - 1) (omega arith)
              ∙ ap (λ k. ok (drop k file)) start))
