-- ===== src/Peer/Request/Delivery.antt =====
-- What a request brings back: the piece, when the peer holds the file and it has no zero bytes; and a
-- whole download made of such pieces.
use dart_sync.Base.{
  ℕ, ◌+◌, ◌≤◌, ◌<◌, ◌≡◌, ◌≢◌, refl, ◌∙◌, ap, subst, arith, Option, some, List, [], CString, ◌++◌,
  drop, length, Outcome, ok, ◌>>=◌, fault, All,
}
use mathlib.Core.List.{append-nil}
use dart_sync.Table.{file_name_len}
use dart_sync.Packet.Bytes.{Layout, Fits, receive_packet}
use dart_sync.Packet.Bytes.Framing.{receive_packet-encode, receive_packet-short}
use dart_sync.Peer.Pieces.{Piece}
use dart_sync.Peer.Pieces.Cover.{slice}
use dart_sync.Peer.Transfer.{
  Zlib, pkt_count, source, read_piece, taken, upload_send, Arrived, arrived, piece_download,
}
use dart_sync.Peer.Transfer.Arrival.{Restores, Packs, line}
use dart_sync.Peer.Transfer.Text.{All-take, All-drop, piece_download-upload_send_text}
use dart_sync.Peer.Request.{
  piece_request, Request, recv_data_request, path_of, ptp_listening, ptp_upload, Source, transfer,
}

recv_data_request-encode :
    (lay : Layout Request) (r : Request)
    → 0 < lay.size
    → Fits lay r
    → recv_data_request lay (lay.encode r) ≡ ok r
unfolding recv_data_request
recv_data_request-encode lay r large w =
    rw
      (
        subst (λ bytes. receive_packet lay bytes ≡ (some r, [])) (append-nil (lay.encode r))
            (receive_packet-encode lay large r [] w),
        recv_data_request,
      )
      refl

-- A connection that ends before the request is complete makes ptp_listening use an unset one.
pub recv_data_request-short :
    (lay : Layout Request) (dir : CString) (stream : List ℕ)
    → 0 < lay.size
    → length stream < lay.size
    → ptp_listening lay dir stream ≡ fault
unfolding ptp_listening recv_data_request
recv_data_request-short lay dir stream large short =
    rw (receive_packet-short lay large stream short, recv_data_request) refl

path_of-ok :
    (dir filename : CString)
    → length dir + length filename < file_name_len
    → path_of dir filename ≡ ok (dir ++ filename)
unfolding path_of
path_of-ok dir filename h = ground arith

-- A peer whose directory holds the file under this name, with a path that fits into its buffer.
pub record Holds (s : Source) (filename : CString) (file : List ℕ) : Type 0 where
  pub stored : s.files (s.dir ++ filename) ≡ some file
  pub fits : length s.dir + length filename < file_name_len

abbrev pub IsText : List ℕ → Type 0
IsText = All (λ b. b ≢ 0)

-- Every packet of the piece fits into `pkt->data` when it is compressed.
abbrev pub AllPack : Zlib → List ℕ → Piece → Type 0
AllPack z file p =
    (i : ℕ) → i < pkt_count p.size → Packs z (source p.size i (read_piece file p.offset p.size))

module _ (z : Zlib) (restores : Restores z) (lay : Layout Request) (large : 0 < lay.size) where
  -- The piece arrives as it stands in the file.
  pub transfer-slice :
      (s : Source) (filename : CString) (file : List ℕ) (i : ℕ) (p : Piece)
      → Fits lay (piece_request filename i p)
      → Holds s filename file
      → IsText file
      → p.offset + p.size ≤ length file
      → AllPack z file p
      → transfer z lay (some i) s filename i p ≡ ok (i, arrived (slice file p))
  unfolding transfer ptp_listening ptp_upload
  transfer-slice s filename file i p fit h text within packs =
      rw
        (
          recv_data_request-encode lay (piece_request filename i p) large fit,
          path_of-ok s.dir filename h.fits,
        )
        (ap
            (λ (f : Option (List ℕ)).
              piece_download z [] p.size (line (taken (upload_send z f p.offset p.size [])))
              >>= (λ bytes. ok (i, bytes)))
            h.stored
          ∙ ap (λ (r : Outcome Arrived). r >>= (λ bytes. ok (i, bytes)))
              (piece_download-upload_send_text z file p.offset p.size restores within packs
                (All-take p.size (drop p.offset file) (All-drop p.offset file text))))
