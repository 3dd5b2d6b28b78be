-- ===== src/Peer/Transfer.antt =====
-- peer/p2p.c `upload_send` and peer/peer.c `piece_download`: one piece of a file, sent in packets of
-- at most MAX_DATA_LEN bytes, each behind the length of its compressed form; and the calls of zlib in
-- peer/datacompress.c. zlib is a parameter. Sizes are those that fit into `int`, as the code converts
-- them.
pub mod Bytes
pub mod Arrival
pub mod RoundTrip
pub mod Text
pub mod Overrun
mod Tests
use dart_sync.Base.{
  ℕ, zero, suc, ◌+◌, ◌-◌, ◌*◌, ◌/◌, ◌%◌, ◌^◌, Bool, true, false, ◌&&◌, Option, none, some, List, [],
  ◌∷◌, ◌++◌, ltb, leb, ◌==◌, if◌then◌else◌, length, take, drop, replicate, Outcome, ok, fault,
  ◌>>=◌,
}
use dart_sync.Table.{max_data_len}
use dart_sync.Packet.{next_outcome}

-- zlib: `compressBound`, and `compress` and `uncompress` into a buffer of a size; `none` for any code
-- but `Z_OK`.
pub record Zlib : Type 0 where
  pub compress_bound : ℕ → ℕ
  pub compress : ℕ → List ℕ → Option (List ℕ)
  pub uncompress : ℕ → List ℕ → Option (List ℕ)

-- `none` stands for `exit(0)`.
unfoldable pub compress_string : Zlib → List ℕ → Option (List ℕ)
compress_string z source = z.compress (z.compress_bound (length source)) source

-- The same; `*destLen` is MAX_DATA_LEN.
abbrev pub decompress_string : Zlib → List ℕ → Option (List ℕ)
decompress_string z source = z.uncompress max_data_len source

-- The bytes before the first zero: `strlen` is their number.
abbrev pub until_zero : List ℕ → List ℕ
until_zero [] = []
until_zero (zero ∷ bs) = []
until_zero (suc b ∷ bs) = suc b ∷ until_zero bs

-- `strncpy` of at most `n` bytes into `n` zeroed ones, from `n` bytes.
unfoldable pub strncpy : ℕ → List ℕ → List ℕ
strncpy n src = until_zero src ++ replicate (n - length (until_zero src)) 0

-- An `unsigned long` in memory, the lowest byte first.
unfoldable pub encode : ℕ → ℕ → List ℕ
encode zero n = []
encode (suc k) n = n % 256 ∷ encode k (n / 256)

unfoldable pub decode : List ℕ → ℕ
decode [] = 0
decode (b ∷ bs) = b + 256 * decode bs

-- `pkt_count` and the length of the packet `i`, on both sides.
abbrev pub pkt_count : ℕ → ℕ
pkt_count size =
    if ltb 0 (size % max_data_len) then suc (size / max_data_len) else size / max_data_len

abbrev pub pkt_length : ℕ → ℕ → ℕ
pkt_length size i =
    if ltb 0 (size % max_data_len) && suc i == pkt_count size
    then size % max_data_len
    else max_data_len

-- The part of the buffer that goes into the packet `i`.
unfoldable pub pkt_data : ℕ → ℕ → List ℕ → List ℕ
pkt_data size i buffer = take (pkt_length size i) (drop (i * max_data_len) buffer)

-- What is compressed: `strncpy` stops at the first zero byte of the packet.
unfoldable pub source : ℕ → ℕ → List ℕ → List ℕ
source size i buffer = strncpy (pkt_length size i) (pkt_data size i buffer)

-- What becomes of an upload, with the bytes that the socket has taken: the result, where the flag is
-- true for 1 and false for -1, the end of the process in `compressString`, or a write behind
-- `pkt->data`.
pub data Upload : Type 0 where
  finished : Bool → List ℕ → Upload
  halted : List ℕ → Upload
  overrun : List ℕ → Upload

abbrev pub taken : Upload → List ℕ
taken (finished done bytes) = bytes
taken (halted bytes) = bytes
taken (overrun bytes) = bytes

-- Bytes that were taken before.
abbrev pub behind : List ℕ → Upload → Upload
behind first (finished done bytes) = finished done (first ++ bytes)
behind first (halted bytes) = halted (first ++ bytes)
behind first (overrun bytes) = overrun (first ++ bytes)

-- The loop of `upload_send` over `n` packets from `i` on. `strncpy` writes all `compLen` bytes to
-- `pkt->data`. It stops at the first `send` that fails, by the list of the kernel's answers.
pub send_packets : Zlib → ℕ → ℕ → ℕ → List ℕ → List Bool → Upload
send_packets z size zero i buffer outcomes = finished true []
send_packets z size (suc n) i buffer outcomes = elim (compress_string z (source size i buffer)) [
  | none ↦ halted []
  | some packet ↦
      let (has_length, outcomes1) = next_outcome outcomes in
      let (has_data, outcomes2) = next_outcome outcomes1 in
      let rest = send_packets z size n (suc i) buffer outcomes2 in
      if ltb max_data_len (length packet)
      then overrun []
      else if has_length
      then (if has_data
          then behind (encode 8 (length packet)) (behind packet rest)
          else finished false (encode 8 (length packet)))
      else finished false []
]

-- `calloc` and `fread` of one block: a block that is not there in full leaves what was read.
unfoldable pub read_piece : List ℕ → ℕ → ℕ → List ℕ
read_piece file offset size =
    let got = take size (drop offset file) in got ++ replicate (size - length got) 0

-- `none` is a file that cannot be opened.
pub upload_send : Zlib → Option (List ℕ) → ℕ → ℕ → List Bool → Upload
upload_send z none offset size outcomes = finished false []
upload_send z (some file) offset size outcomes =
    send_packets z size (pkt_count size) 0 (read_piece file offset size) outcomes

-- The receiving end: the bytes that are still to come, and for each `recv` the most that the kernel
-- hands over in one call, `none` where it gives -1; past the end of the list it hands over all that is
-- asked for.
pub record Line : Type 0 where
  pub stream : List ℕ
  pub limits : List (Option ℕ)

abbrev pub smaller : ℕ → ℕ → ℕ
smaller m n = if leb m n then m else n

unfoldable pub recv : ℕ → Line → Option (List ℕ) × Line
recv n l = elim l.limits [
  | [] ↦ (some (take n l.stream), record l { stream = drop n l.stream })
  | next ∷ limits ↦ elim next [
    | none ↦ (none, record l { limits = limits })
    | some limit ↦ (
      some (take (smaller limit n) l.stream),
      record { stream = drop (smaller limit n) l.stream; limits = limits },
    )
  ]
]

-- `memmove(&buffer[at], bytes, length)`: a fault out of bounds.
unfoldable pub overlay : ℕ → List ℕ → List ℕ → Outcome (List ℕ)
overlay at bytes buffer =
    if leb (at + length bytes) (length buffer)
    then ok (take at buffer ++ (bytes ++ drop (at + length bytes) buffer))
    else fault

-- The bytes of the piece, or the end of the process.
pub data Arrived : Type 0 where
  arrived : List ℕ → Arrived
  exited : Arrived

-- The packet from what `recv` gives of `comp_len` bytes: a short answer leaves the rest zero.
abbrev pub unpack : Zlib → ℕ → Option (List ℕ) × Line → Option (List ℕ) × Line
unpack z comp_len (none, l) = (none, l)
unpack z comp_len (some got, l) =
    (decompress_string z (got ++ replicate (comp_len - length got) 0), l)

-- The packet behind the bytes of its length.
abbrev pub recv_body : Zlib → Option (List ℕ) × Line → Option (List ℕ) × Line
recv_body z (none, l) = (none, l)
recv_body z (some head, l) = unpack z (decode head) (recv (decode head) l)

-- One round of `piece_download` up to `decompressString`; `none` is `exit(1)` after a `recv` of -1 or
-- the `exit(0)` of `decompressString`.
pub recv_packet : Zlib → Line → Option (List ℕ) × Line
recv_packet z l = recv_body z (recv 8 l)

-- The loop of `piece_download`. `beyond` is what lies in memory behind the decompressed bytes: they
-- have no terminating zero, and `strlen` reads on.
pub recv_packets : Zlib → List ℕ → ℕ → ℕ → Line → List ℕ → Outcome Arrived
recv_packets z beyond zero i l buffer = ok (arrived buffer)
recv_packets z beyond (suc n) i l buffer = elim (recv_packet z l).0 [
  | none ↦ ok exited
  | some bytes ↦ do
    buffer' ← overlay (i * max_data_len) (until_zero (bytes ++ beyond)) buffer
    recv_packets z beyond n (suc i) (recv_packet z l).1 buffer'
]

-- What `piece_download` appends to the temporary file.
pub piece_download : Zlib → List ℕ → ℕ → Line → Outcome Arrived
piece_download z beyond size l = recv_packets z beyond (pkt_count size) 0 l (replicate size 0)
