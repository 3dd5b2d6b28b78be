-- ===== src/Peer/Request.antt =====
-- peer/p2p.c and peer/peer.c: the request for a piece, from `download_send` in the thread that wants
-- it over `ptp_listening` and `ptp_upload` of a peer that holds it to `piece_download`. The directory
-- that `readConfigFile` names, and the files in it, are arguments.
pub mod Delivery
mod Tests
use dart_sync.Base.{
  ℕ, ◌+◌, Bool, true, false, Option, none, some, List, [], CString, ◌++◌, ltb, if◌then◌else◌,
  length, Outcome, ok, fault, ◌>>=◌,
}
use dart_sync.Table.{file_name_len}
use dart_sync.Packet.{Net, send}
use dart_sync.Packet.Bytes.{Layout, receive_packet}
use dart_sync.Peer.Pieces.{Piece}
use dart_sync.Peer.Transfer.{Zlib, Arrived, taken, upload_send, piece_download}
use dart_sync.Peer.Transfer.Arrival.{line}

-- `ptp_request_t`
pub record Request : Type 0 where
  pub filename : CString
  pub offset : ℕ
  pub size : ℕ
  pub piece_num : ℕ

-- `upload_arg_t`, less the socket.
pub record UploadArg : Type 0 where
  pub file_path : CString
  pub piece_num : ℕ
  pub offset : ℕ
  pub size : ℕ

-- `ptp_data_pkt_t` (`bytes` is its `data`), which the source declares and its transfers have given up.
pub record DataPkt : Type 0 where
  pub filename : CString
  pub piece_num : ℕ
  pub size : ℕ
  pub bytes : List ℕ

-- The flag is true for 1 and false for -1.
pub ptp_sendpkt : ℕ → DataPkt → Net DataPkt → Bool × Net DataPkt
ptp_sendpkt conn pkt net = send conn pkt net

-- `*pkt` after the call, which returns 1 also when the connection ends before the packet does, and
-- the bytes behind it.
pub ptp_recvpkt : Layout DataPkt → DataPkt → List ℕ → DataPkt × List ℕ
ptp_recvpkt lay pkt stream =
    let (got, rest) = receive_packet lay stream in (elim got [ none ↦ pkt | some new ↦ new ], rest)

-- The flag is true for 1 and false for -1.
pub download_send : ℕ → Request → Net Request → Bool × Net Request
download_send conn request_pkt net = send conn request_pkt net

-- A connection that ends too early leaves the request unset, and it is read nevertheless.
pub recv_data_request : Layout Request → List ℕ → Outcome Request
recv_data_request lay stream = elim (receive_packet lay stream).0 [
  | none ↦ fault
  | some request_pkt ↦ ok request_pkt
]

-- `strcpy` of the directory and `strcat` of the name into `char[FILE_NAME_LEN]`: a fault past its end.
pub path_of : CString → CString → Outcome CString
path_of dir filename =
    if ltb (length dir + length filename) file_name_len then ok (dir ++ filename) else fault

-- The body of the loop of `ptp_listening`, from the accepted connection to the thread's argument.
pub ptp_listening : Layout Request → CString → List ℕ → Outcome UploadArg
unfolding recv_data_request path_of
ptp_listening lay dir stream = do
  r ← recv_data_request lay stream
  path ← path_of dir r.filename
  ok (record { file_path = path; piece_num = r.piece_num; offset = r.offset; size = r.size })

-- A peer that serves pieces: its directory, and its file system.
pub record Source : Type 0 where
  pub dir : CString
  pub files : CString → Option (List ℕ)

-- The bytes that the requesting peer gets from `ptp_upload` for the bytes of a request, if every
-- `send` succeeds.
pub ptp_upload : Zlib → Source → UploadArg → List ℕ
ptp_upload z s arg = taken (upload_send z (s.files arg.file_path) arg.offset arg.size [])

-- The request that `piece_download` fills in for the piece `i`.
abbrev pub piece_request : CString → ℕ → Piece → Request
piece_request filename i p = record {
  filename = filename;
  offset = p.offset;
  size = p.size;
  piece_num = i;
}

-- `request_pkt->pieceNum` after `download_send` has freed the request: what the memory gives, or a
-- fault.
abbrev pub freed_num : Option ℕ → Outcome ℕ
freed_num none = fault
freed_num (some n) = ok n

-- `piece_download` of the piece `i` up to the number of the temporary file and the bytes that it
-- appends to it, when its request arrives in full.
pub transfer :
    Zlib → Layout Request → Option ℕ → Source → CString → ℕ → Piece → Outcome (ℕ × Arrived)
unfolding ptp_listening ptp_upload
transfer z lay freed s filename i p = do
  arg ← ptp_listening lay s.dir (lay.encode (piece_request filename i p))
  piece_num ← freed_num freed
  bytes ← piece_download z [] p.size (line (ptp_upload z s arg))
  ok (piece_num, bytes)
