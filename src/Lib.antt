-- ===== src/Lib.antt =====
-- DartSync keeps a folder equal on several computers. A tracker (tracker/) holds a table of all
-- files with their versions and the addresses of the peers that have them; each peer (peer/) watches
-- its folder, announces its own table to the tracker, receives the tracker's table and fetches
-- missing or newer files in pieces from the peers that hold them. Both sides share the packets of
-- common/.
--
-- Files and code. Table: the entry of a file table and the constants (common/constant.h). Packet:
-- the packets and `tracker_sendpkt`, `peer_sendpkt`, `peer_recvpkt`; Packet.Bytes: `peer_receiver`,
-- `tracker_receiver`, `tracker_recvpkt`, which read single bytes (common/pkt.h, common/pkt.c).
-- Tracker.Slots: the array `newpeerip`; Tracker.Merge: `update_filetable`, `display_filetable`;
-- Tracker.Peers: the list of peers with `add_peer`, `heard_peer` and the list loop of `delete_peer`;
-- Tracker.State: `delete_peer` and `heartbeat`; Tracker.Session: `handshake` and
-- `broadcast_filetable`; Tracker.Server: `main` with all its threads, as a step relation;
-- Tracker.History: how the table may change; Tracker.Stop: `free_ft`, `tracker_stop` (all
-- tracker/tracker.c). Socket: how both programs open the socket on which they listen; Table.Memory:
-- file tables as blocks of memory. Peer.Sync: `compareNode`, `add`, `modify`, `delete`,
-- `setNodeType`; Peer.Pieces: `ptp_download`; Peer.Main: `main`, `connect_to_tracker`, `keep_alive`;
-- Peer.Threads: all threads of the peer over one file table, turn by turn, with `watchDirectory` and
-- `ptp_listen_thread_init`; Peer.Stop: `ft_destroy`, `peer_stop` (all peer/peer.c). Peer.Transfer:
-- `upload_send`, `piece_download`, `compressString`, `decompressString`; Peer.Request:
-- `download_send`, `recv_data_request`, `ptp_listening`, `ptp_upload` (peer/p2p.c,
-- peer/datacompress.c, peer/peer.c). Peer.Monitor: `getFileInfo`, `fileAdded`, `fileDeleted`,
-- `fileModified` and the events of `notify` for files; Peer.Folders: `addDirNode`, `deleteDirNode`,
-- `print_directory_tree` and the start and the events of `notify` for directories, with Reads for
-- its loops over what `read` brings; Peer.Config: `readConfigFile` (all peer/monitor.c). System
-- follows an edit, an announcement, the start of a peer and the heartbeat over time (Beats) through
-- all of them; Network is the tracker with any number of peers, each with all its threads, as a step
-- relation in which tables may come late, twice, mixed or to anybody. Examples holds the data of the
-- tests, which stand in the modules called Tests.
--
-- How the parts meet. An announcement is the packet list of `peer_sendpkt`, which `handshake`
-- collects into a table for `update_filetable`; what `tracker_sendpkt` broadcasts is what
-- `peer_recvpkt` reads and `compareNode` takes in. The monitor and `compareNode` change the same
-- table of the peer. A download is divided by `ptp_download`; each piece is a request that another
-- peer serves.
--
-- Conventions. A function keeps its name, with _ between words. State is passed on explicitly. A
-- fault stands for a read through a pointer that is null, freed or not set, for a buffer of C that
-- is too small for a path, for a `sprintf` into its own argument and for a `pthread_join` of a
-- thread that was never started; what `piece_download` reads from its freed request is a parameter.
-- A file table is the list of its entries; the list of peers and the list of directories have
-- addresses, because pointers into them outlive their nodes. Strings are lists of bytes without the
-- terminating zero; where no path is built of them their lengths are not bounded by the arrays of C.
-- `unsigned long` values are only stored and compared, except for the age of a peer, which is taken
-- modulo 2^64; the sizes in `ptp_download` are assumed to fit into `int`. A step of Tracker.Server
-- and a turn of Peer.Threads is one iteration of a loop of one thread, although the source takes no
-- lock; a step that faults leads nowhere.
--
-- Rounds. Each loop over the list of peers takes the number of rounds that it may run, and ends in
-- `out_of_fuel` after that many. One more than the length of the list is enough, and the theorems on
-- these loops ask for that and state the result. The loops around a receiver take rounds too: one
-- more than the number of bytes or packets is enough, as each round uses at least one, and theorems
-- say so. So do the loops of `free_ft` over the nodes of a table and of `notify` over the events in
-- the buffer. All other loops recurse on a list or on the rest of an array.
--
-- Parameters. zlib (peer/datacompress.c calls it), how a struct lies in memory, the kernel's answers
-- to `socket`, `bind`, `listen`, `send`, `recv`, `read`, `stat` and `nftw`, its events, the clock,
-- addresses from `calloc`, the temporary files and the contents of other peers' folders are
-- arguments.
--
-- Not modelled: the binding of signal handlers, printing, interleavings finer than one iteration of
-- a loop, a session of the tracker that waits for a negative number of entries, the unused list
-- common/list.c, whose types are declared nowhere, and the trial programs peer/test.c and
-- peer/.monitor2.c.
pub mod Base
pub mod Table
pub mod Socket
pub mod Packet
pub mod Tracker
pub mod Peer
pub mod Examples
pub mod System
pub mod Network
