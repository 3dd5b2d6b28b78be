-- ===== src/Peer/Folders/Reads/Tests.antt =====
-- peer/monitor.c, `read`: two calls with three events about one file, and a failure between them.
use dart_sync.Base.{
  ℕ, suc, ◌≡◌, refl, arith, Bool, true, false, none, some, List, [], ◌∷◌, Option, ◌==◌,
}
use dart_sync.Examples.{alice, notes}
use dart_sync.Packet.Bytes.{Layout}
use dart_sync.Peer.Folders.Bounds.{watching}
use dart_sync.Peer.Folders.Reads.{Header, Around, Watching, notify_loop}
use dart_sync.Peer.Folders.Reads.Whole.{Event, Written, reads_of, handle, notify_loop-events_of}

abbrev bit : Bool → ℕ
bit true = 1
bit false = 0

abbrev header : ℕ → ℕ → ℕ → ℕ → ℕ → ℕ → ℕ → Header
header wd creates opens deletes modifies is_dir len = record {
  wd = wd;
  creates = creates == 1;
  opens = opens == 1;
  deletes = deletes == 1;
  modifies = modifies == 1;
  is_dir = is_dir == 1;
  len = len;
}

abbrev header_of : List ℕ → Header
header_of (wd ∷ creates ∷ opens ∷ deletes ∷ modifies ∷ is_dir ∷ len ∷ []) =
    header wd creates opens deletes modifies is_dir len
header_of bytes = header 0 0 0 0 0 0 0

abbrev bytes : Layout Header
bytes = record {
  encode = λ h.
      h.wd
      ∷ bit h.creates
      ∷ bit h.opens
      ∷ bit h.deletes
      ∷ bit h.modifies
      ∷ bit h.is_dir
      ∷ h.len
      ∷ [];
  decode = header_of;
  size = 7;
}

abbrev creation : Event
creation = record { header = header 1 1 0 0 0 0 4; name = notes }

abbrev change : Event
change = record { header = header 1 0 0 0 1 0 4; name = notes }

abbrev nameless : Event
nameless = record { header = header 1 0 0 1 0 0 0; name = [] }

abbrev calls : List (Option (List Event))
calls = some (creation ∷ change ∷ []) ∷ none ∷ some (nameless ∷ []) ∷ []

abbrev around : ℕ → Around
around i = record { before = λ p. some (20, i); stat = λ p. some (20, i); now = i; fresh = suc i }

abbrev start : Watching
start = record {
  monitor = record {
    watch = record {
      sync_dir = 115 ∷ 47 ∷ [];
      conn = 3;
      myip = alice;
      filetable = [];
      net = record { outcomes = []; sent = []; closed = [] };
    };
    folders =
        watching
          (record { nodes = record { addr = 16; dirpath = 115 ∷ 47 ∷ [] } ∷ []; dir_num = 1 });
  };
  handled = 0;
}

creation-Written : Written bytes creation
creation-Written = record {
  fits = record { restores = refl; fills = refl };
  text = refl;
  short = omega arith;
}

change-Written : Written bytes change
change-Written = record {
  fits = record { restores = refl; fills = refl };
  text = refl;
  short = omega arith;
}

nameless-Written : Written bytes nameless
nameless-Written = record {
  fits = record { restores = refl; fills = refl };
  text = refl;
  short = omega arith;
}

notify_loop-events_of_example :
    notify_loop bytes around 3 (reads_of bytes calls) start
    ≡ handle bytes around (creation ∷ change ∷ nameless ∷ []) start
notify_loop-events_of_example = notify_loop-events_of bytes (omega arith) around 3 calls start (
  ((creation-Written, (change-Written, tt)), omega arith),
  (tt, (((nameless-Written, tt), omega arith), tt)),
)
