-- ===== src/Peer/Pieces.antt =====
-- peer/peer.c: `ptp_download`, the division of a file into pieces that are fetched from different
-- peers, and the joining of the pieces. How many temporary files `find` reports, and how long each
-- of them is, is the file system's: `tempnum` and `cur_length`.
pub mod Cover
pub mod Fetch
pub mod Resume
mod Tests
use dart_sync.Base.{
  ℕ, zero, suc, ◌+◌, ◌-◌, ◌*◌, ◌/◌, ◌%◌, ◌^◌, Bool, true, false, ◌&&◌, ◌||◌, List, [], ◌∷◌, ◌++◌,
  ltb, ◌==◌, if◌then◌else◌, length, Option, none, some, Outcome, ok, fault, ◌>>=◌,
}

-- `peerNum`, `pieceSize` and `remainder_len`.
pub record Plan : Type 0 where
  pub peer_num : ℕ
  pub piece_size : ℕ
  pub remainder_len : ℕ

-- The number of pieces before it is adjusted: the temporary files that were found, if there are any.
pub source_num : ℕ → ℕ → ℕ
source_num tempnum peer_num = if tempnum == 0 then peer_num else tempnum

-- From three sources on one of them is kept for the rest of the division. With none, `peerNum` is
-- -1, the division by it as an `unsigned long` gives 0, and `peerNum` ends at 0, as long as the
-- size is below 2^31.
pub divide : ℕ → ℕ → Plan
divide file_size sources =
    if sources == 1
    then record { peer_num = 1; piece_size = file_size; remainder_len = 0 }
    else if sources == 2
    then record {
      peer_num = 2;
      piece_size = (file_size + 1) / 2;
      remainder_len = file_size - (file_size + 1) / 2;
    }
    else if sources == 0
    then record { peer_num = 0; piece_size = 0; remainder_len = file_size }
    else record {
      peer_num = if ltb 0 (file_size % (sources - 1)) then suc (sources - 1) else sources - 1;
      piece_size = file_size / (sources - 1);
      remainder_len = file_size % (sources - 1);
    }

-- `piece_download_arg_t` of the piece `i`, which is fetched from the address `i`.
pub record Piece : Type 0 where
  pub offset : ℕ
  pub size : ℕ

pub piece : Plan → ℕ → Piece
piece p i = record {
  offset = i * p.piece_size;
  size = if ltb 0 p.remainder_len && suc i == p.peer_num then p.remainder_len else p.piece_size;
}

-- The test for a piece that is still to be fetched.
pub is_needed : Plan → ℕ → ℕ → Bool
is_needed p i cur_length =
    (ltb (suc i) p.peer_num && ltb cur_length p.piece_size)
    || (suc i == p.peer_num && ltb cur_length p.piece_size && p.remainder_len == 0)
    || (suc i == p.peer_num && ltb cur_length p.remainder_len && ltb 0 p.remainder_len)

-- `ftell` at the end of a temporary file, 0 if there is none.
abbrev pub length_of : Option (List ℕ) → ℕ
length_of none = 0
length_of (some temp) = length temp

abbrev pub contents : Option (List ℕ) → List ℕ
contents none = []
contents (some temp) = temp

-- `piece_download` opens the temporary file for appending and writes the whole piece.
pub fetched : Plan → ℕ → (Piece → List ℕ) → Option (List ℕ) → Option (List ℕ)
fetched p i fetch temp =
    if is_needed p i (length_of temp) then some (contents temp ++ fetch (piece p i)) else temp

-- The temporary files joined in order; `fseek` on a file that is not there is a fault.
pub joined_from : Plan → ℕ → ℕ → (Piece → List ℕ) → (ℕ → Option (List ℕ)) → Outcome (List ℕ)
joined_from p i zero fetch temps = ok []
joined_from p i (suc n) fetch temps = elim (fetched p i fetch (temps i)) [
  | none ↦ fault
  | some bytes ↦ do rest ← joined_from p (suc i) n fetch temps; ok (bytes ++ rest)
]

-- Whether a thread was started for every piece. `pthread_join` of a piece for which none was started
-- reads a `tid[i]` that was never set.
pub all_started : Plan → ℕ → ℕ → (ℕ → Option (List ℕ)) → Bool
all_started p i zero temps = true
all_started p i (suc n) temps = is_needed p i (length_of (temps i)) && all_started p (suc i) n temps

-- The file that `ptp_download` writes, for the size and number of peers in its argument.
pub ptp_download : ℕ → ℕ → ℕ → (Piece → List ℕ) → (ℕ → Option (List ℕ)) → Outcome (List ℕ)
ptp_download tempnum file_size peer_num fetch temps =
    let p = divide file_size (source_num tempnum peer_num) in
    if all_started p 0 p.peer_num temps then joined_from p 0 p.peer_num fetch temps else fault
