-- ===== src/Lib.antt =====
-- DawnTorrent, a BitTorrent client in Go: the logic of its core, modelled function by function.
--
-- The program and its parts. The torrent manager starts three routines: the announcer asks trackers
-- for peers, the peer manager connects to them and reads their messages, and the downloader hands
-- pieces to workers, which request blocks from peers; completed pieces are written to the files.
--
-- Files (all paths from the repository's root):
-- - Base: shared names, lists over the native numbers, Go results (a value, an error value or a
--   panic), byte order, integers and decimals.
-- - Utils: utils/utils.go, `BitMask`, `IsBitOn` and `IntToByte`; Utils/Names: `GetPath`,
--   `GetFileName` and `GetRandomId`.
-- - Wire: core/torrent_message.go; Wire/Parser: core/msg_parser.go, `ParseMsg`.
-- - Peer: core/peer.go; Piece: core/piece.go and core/BockRequest.go.
-- - Torrent: core/torrent/Torrent.go, `buildFileSegment`, `Serialize` and `CreateNewTorrent`.
-- - Writer: core/writer.go, `writePiece`; Writer/Routine: `write` of core/downloader.go.
-- - Tracker/Udp: core/tracker/udp_msg_parser.go; Tracker/Announcer: core/tracker/scrapper.go, with
--   `NewAnnouncer` and `Serialize` in Tracker/Announcer/Listing.
-- - Tracker/Requests: core/tracker/scrape_strategy.go, the exchange with a UDP tracker;
--   Tracker/Requests/Http: the request to an HTTP tracker.
-- - Bencode: the trees of parser/bencode_parser.go and `ToBencode`; Bencode/Field: `getField`;
--   Bencode/Parser: `Parse` and `Unmarshall`; Bencode/Documents: the documents that it supports.
-- - TorrentFile: core/torrent.go, `CreateNewTorrent` on the parser's trees.
-- - Manager: core/torrent_manager.go, the state machine of start, pause, stop and completion;
--   Manager/Signals: the channel of its signals; Manager/Assembly: `NewTorrentManager`, the routing of
--   messages, and the state that subscribers are told.
-- - Swarm: core/peer_manager.go, streams of messages, connections and the choice of a peer;
--   Swarm/Upkeep: `updateInterest`, `serialize`, the accepting loop and core/peer_operation.go.
-- - Api: api/app.go and api/server.go, the requests of the server; Api/Commands: the loop of main.go.
-- - Downloader: core/downloader.go, the pieces and their selection; Downloader/Queue:
--   core/downloadQueue.go with the operations of Go's `container/heap`; Downloader/Workers: the workers
--   and the routine that hands out pieces, whose interleavings are lists of events; Downloader/Saving:
--   the workers, the writing routine and the files together.
-- - Handlers: core/msg_handler.go, what each message does to the peers and the downloader.
-- - Tests: runs at concrete inputs.
--
-- State and operations. A Go struct is a record, a method that changes its receiver returns the
-- changed record, and a value receiver changes a copy only. Each operation is named as its function,
-- in snake case. A pointer to a peer is an index into the list of all peers, a connection or a
-- context is a number. `panic` also stands for `log.Fatal` and `os.Exit`.
--
-- Numbers. Lengths, indices and byte values are natural numbers; an `int` has 64 bits and does not
-- overflow at the sizes of torrents. Where the code narrows a number the wrap-around is written out,
-- and the fields of the wire format are bounded by hypotheses.
--
-- Loops are structural, or on fuel: a message stream takes four bytes at least in each round, so
-- that its length and one more is enough; the requests of a piece are counted by their number, the list
-- of compact addresses by its length, and the heap by its length or the place that moves up.
--
-- The bencode parser can run for ever, so that it takes fuel, and running out of it is an outcome of
-- its own; a fuel of twice the bytes is enough for the encodings of supported documents. The loops of
-- a tracker request run over the rounds that the network offers, with a clock that is tested against
-- the deadline; one round is always enough.
--
-- Parameters: bencode-go and SHA-1 (a record `Codec`), `filepath.Join`, `url.Parse` and `String`, the
-- random permutation, the answers of trackers, and what the other side of a connection does (a record
-- `Remote`, or the index of a peer at which a write fails), and whether the wait for a download that is
-- cancelled returns. A disk is the contents of its files, known by what `GetPath` gives without the
-- home directory in front, with the paths at which it fails.
--
-- Not modelled: dialling and the HTTP client, opening and closing the listener, logging, gRPC and its
-- generated code, the search for local addresses and port forwarding, and the interleaving of the other
-- goroutines, of which each step is a function. A URL is a value, so that the query which an HTTP
-- announce writes into the URL that it shares with the list of the trackers is left out.
pub mod Api
pub mod Base
pub mod Utils
pub mod Wire
pub mod Peer
pub mod Piece
pub mod Torrent
pub mod TorrentFile
pub mod Writer
pub mod Tracker
pub mod Manager
pub mod Swarm
pub mod Downloader
pub mod Handlers
pub mod Bencode
pub mod Tests
