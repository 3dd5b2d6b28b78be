-- ===== src/Peer/Pieces/Fetch.antt =====
-- A download is settled by what is fetched of the pieces of the file.
use dart_sync.Base.{
  fault, Outcome, ◌>>=◌, ◌++◌, ℕ, zero, suc, ◌+◌, ◌-◌, ◌≤◌, ◌<◌, ◌≡◌, refl, ◌∙◌, ap, List, arith,
  Option, none, some, ok, length, if◌then◌else◌,
}
use dart_sync.Peer.Pieces.{
  Plan, Piece, divide, piece, is_needed, fetched, joined_from, all_started, ptp_download,
  source_num, length_of, contents,
}
use dart_sync.Peer.Pieces.Cover.{
  slice, no_temps, divide-Covers, divide-filled, piece_fits, ptp_download-file,
}

-- What is fetched matters for the pieces of the file alone.
fetched_same :
    (p : Plan) (i : ℕ) (fetch fetch' : Piece → List ℕ) (temp : Option (List ℕ))
    → fetch (piece p i) ≡ fetch' (piece p i)
    → fetched p i fetch temp ≡ fetched p i fetch' temp
unfolding fetched
fetched_same p i fetch fetch' temp e =
    ap (λ bytes. if is_needed p i (length_of temp) then some (contents temp ++ bytes) else temp) e

joined_from_same :
    (p : Plan) (i n : ℕ) (fetch fetch' : Piece → List ℕ) (temps : ℕ → Option (List ℕ))
    → ((j : ℕ) → j < i + n → fetch (piece p j) ≡ fetch' (piece p j))
    → joined_from p i n fetch temps ≡ joined_from p i n fetch' temps
unfolding joined_from
joined_from_same p i zero fetch fetch' temps h = refl
joined_from_same p i (suc n) fetch fetch' temps h =
    ap
      (λ (temp : Option (List ℕ)). elim temp [
        | none ↦ fault
        | some bytes ↦ joined_from p (suc i) n fetch temps >>= (λ rest. ok (bytes ++ rest))
      ])
      (fetched_same p i fetch fetch' (temps i) (h i (omega arith)))
    ∙ ap
        (λ (later : Outcome (List ℕ)). elim (fetched p i fetch' (temps i)) [
          | none ↦ fault
          | some bytes ↦ later >>= (λ rest. ok (bytes ++ rest))
        ])
        (joined_from_same p (suc i) n fetch fetch' temps (λ j le. h j (omega (arith, le))))

pub ptp_download-fetch :
    (file : List ℕ) (sources : ℕ) (fetch : Piece → List ℕ)
    → 1 < length file
    → 0 < sources
    → sources - 1 ≤ length file
    → ((p : Piece) → p.offset + p.size ≤ length file → fetch p ≡ slice file p)
    → ptp_download 0 (length file) sources fetch no_temps ≡ ok file
unfolding ptp_download source_num
ptp_download-fetch file sources fetch large some_source enough h =
    let q : Plan = divide (length file) sources in
    ap (λ (r : Outcome (List ℕ)). if all_started q 0 q.peer_num no_temps then r else fault)
      (joined_from_same q 0 q.peer_num fetch (slice file) no_temps (λ j lt. h (piece q j) (
        piece_fits q file (divide-Covers (length file) sources large some_source)
          (divide-filled (length file) sources large some_source enough) j (omega (arith, lt)))))
    ∙ ptp_download-file file sources large some_source enough
