-- ===== src/Table.antt =====
-- common/constant.h: the constants of the protocol and the entry of a file table, `struct node`.
-- A file table (`file_t`) is a linked list of entries that only grows at its end, so a table in
-- memory is the list of its entries. `unsigned long` values are only stored and compared.
pub mod Memory
use dart_sync.Base.{ℕ, List, [], ◌∷◌, CString}

-- Packet types.
abbrev pub register : ℕ
register = 0

abbrev pub keep_alive : ℕ
keep_alive = 1

abbrev pub file_update : ℕ
file_update = 2

-- Types of an entry.
abbrev pub file_create : ℕ
file_create = 3

abbrev pub file_modify : ℕ
file_modify = 4

abbrev pub file_delete : ℕ
file_delete = 5

abbrev pub file_download : ℕ
file_download = 8

abbrev pub file_downloading : ℕ
file_downloading = 9

abbrev pub is_file : ℕ
is_file = 1

abbrev pub max_peer_num : ℕ
max_peer_num = 5

abbrev pub heartbeat_timeout : ℕ
heartbeat_timeout = 240

abbrev pub file_name_len : ℕ
file_name_len = 256

abbrev pub max_data_len : ℕ
max_data_len = 1464

-- `newpeerip` is an array of `MAX_PEER_NUM` strings; the empty string marks a free place.
pub record Node : Type 0 where
  pub status : ℕ
  pub size : ℕ
  pub name : CString
  pub timestamp : ℕ
  pub type : ℕ
  pub newpeerip : List CString

-- Five free places, as `calloc` leaves them.
abbrev pub no_peers : List CString
no_peers = [] ∷ [] ∷ [] ∷ [] ∷ [] ∷ []

-- The zeroed entry of `calloc(1, sizeof(Node))`.
abbrev pub blank : Node
blank = record { status = 0; size = 0; name = []; timestamp = 0; type = 0; newpeerip = no_peers }

abbrev pub handshake_port : ℕ
handshake_port = 3078

abbrev pub p2p_port : ℕ
p2p_port = 3578
