-- ===== src/Peer/Request/Tests.antt =====
-- The request for a file of three bytes, which two peers hold.
use dart_sync.Base.{ℕ, some, List, [], ◌∷◌}
use dart_sync.Examples.{todo}
use dart_sync.Packet.Bytes.{Layout}
use dart_sync.Peer.Transfer.{Zlib}
use dart_sync.Peer.Request.{Request, Source}

abbrev copying : Zlib
copying = record {
  compress_bound = λ n. n;
  compress = λ n xs. some xs;
  uncompress = λ n xs. some xs;
}

-- The name is not in the bytes: all requests are for the same file.
abbrev request_in : List ℕ → Request
request_in (a ∷ b ∷ c ∷ rest) = record { filename = todo; offset = a; size = b; piece_num = c }
request_in other = record { filename = todo; offset = 0; size = 0; piece_num = 0 }

abbrev three : Layout Request
three = record { encode = λ r. r.offset ∷ r.size ∷ r.piece_num ∷ []; decode = request_in; size = 3 }

abbrev content : List ℕ
content = 70 ∷ 71 ∷ 72 ∷ []

abbrev holder : Source
holder = record { dir = 46 ∷ 47 ∷ []; files = λ path. some content }
