-- ===== src/Tests/Assembling.antt =====
-- The manager of a torrent of two files, and the server and the terminal in front of it.
use dawn_torrent.Base.{
  length, replicate, length-replicate, length-append, ◌∙◌, sym, get_elem?, ℕ, ◌≡◌, refl, List, [],
  ◌∷◌, Bytes, Option, none, some, ok, panic, arith,
}
use dawn_torrent.Torrent.{Torrent, Codec, create_new_torrent}
use dawn_torrent.Tracker.Announcer.{Url}
use dawn_torrent.Tracker.Announcer.Listing.{parse_all}
use dawn_torrent.Manager.Assembly.{
  msg_router, TorrentManager, TorrentState, new_torrent_manager, serialize, notify,
}
use dawn_torrent.Manager.Assembly.Ready.{IsReady, new_torrent_manager-IsReady}
use dawn_torrent.Manager.Assembly.Telling.{notify_same}
use dawn_torrent.Manager.Assembly.Receiving.{joined, pieces_of, msg_router-handle_msg_stream}
use dawn_torrent.Piece.{
  Piece, BlockRequest, new_piece, start_download, download_round, get_next_request, request_loop,
  new_block_request,
}
use dawn_torrent.Piece.Awaited.{IsAwaited, download_round-IsAwaited, start_download-IsAwaited}
use dawn_torrent.Swarm.{handle_msg_stream}
use dawn_torrent.Swarm.Blocks.{Block, blocks_bytes}
use dawn_torrent.Api.{
  new_control, subscribe, remove_torrent, add_torrent, subscribed, unimplemented, serve,
}
use dawn_torrent.Api.Serving.{serve_all}
use dawn_torrent.Tests.Saving.{album, join}

-- A library that reads every file as the album.
abbrev codec : Codec
codec = record {
  unmarshal_torrent = λ file. some (record album { announce_list = (b'a' ∷ []) ∷ [] });
  unmarshal_single = λ file. none;
  unmarshal_multiple = λ file. some album.multiple;
  marshal_single = λ info. none;
  marshal_multiple = λ info. some (1 ∷ 2 ∷ []);
  sha1 = λ bytes. 171 ∷ bytes;
}

abbrev parse : Bytes → Option Url
parse text = some (record { scheme = []; address = text })

abbrev to_text : Url → Bytes
to_text url = url.address

loaded : (u : Torrent) × (create_new_torrent codec (some []) ≡ ok u)
unfolding create_new_torrent
loaded = (_, refl)

new_torrent_manager-IsReady_example :
    (m : TorrentManager) × (new_torrent_manager codec parse (some []) ≡ ok m)
    × IsReady loaded.0 (record { scheme = []; address = b'a' ∷ [] } ∷ []) m
unfolding loaded parse_all
new_torrent_manager-IsReady_example =
    new_torrent_manager-IsReady codec parse [] loaded.0 _ _ loaded.1 (omega arith) refl refl

assembled_manager : (m : TorrentManager) × (new_torrent_manager codec parse (some []) ≡ ok m)
unfolding new_torrent_manager
assembled_manager = (_, refl)

abbrev watched : TorrentManager
watched = record (assembled_manager.0) { subscribers = 5 ∷ 7 ∷ [] }

notify_same_example :
    let state = (serialize join to_text watched).0 in
    let told : List (ℕ × TorrentState) = (5, state) ∷ (7, state) ∷ [] in
    ((notify join to_text watched).0 ≡ told)
    × ((notify join to_text (notify join to_text watched).1).0 ≡ told)
notify_same_example = notify_same join to_text watched

abbrev read : Bytes → Option Bytes
read path = some []

serve_all_example :
    serve codec parse read (subscribe 3 ∷ remove_torrent ∷ []) new_control
    ≡ ok (subscribed ∷ unimplemented ∷ [], new_control)
serve_all_example = serve_all codec parse read (subscribe 3 ∷ remove_torrent ∷ []) new_control

serve_all_panics : serve codec parse read (subscribe 3 ∷ add_torrent [] ∷ []) new_control ≡ panic
serve_all_panics = serve_all codec parse read (subscribe 3 ∷ add_torrent [] ∷ []) new_control

-- A piece of one block that two peers own, behind the first round of its download.
abbrev owned : Piece
owned = record (new_piece 0 16384 16384 0) { owners = (1 ∷ []) ∷ (2 ∷ []) ∷ [] }

requested :
    (rs : List BlockRequest) × (q : Piece) × (download_round (start_download owned) ≡ ok (rs, q))
unfolding download_round start_download new_piece get_next_request request_loop new_block_request
requested = (_, _, refl)

requested-IsAwaited : IsAwaited requested.1
unfolding new_piece
requested-IsAwaited =
    download_round-IsAwaited (start_download owned) requested.1 requested.0
      (start_download-IsAwaited owned refl refl) requested.2

abbrev receiving : TorrentManager
receiving = record (assembled_manager.0) {
  downloader = record (assembled_manager.0.downloader) {
    queue = record { pieces = requested.1 ∷ []; queue = [] };
  };
}

abbrev blocks : List Block
blocks = (0, replicate 16384 7) ∷ []

block_size : length (replicate {A = ℕ} 16384 7) ≡ 16384
block_size = length-replicate {A = ℕ} 16384 7

one_block : length (joined blocks) ≡ 16384
one_block = omega (arith, length-append {A = ℕ} (replicate 16384 7) [], block_size)

requested_length : requested.1.piece_length ≡ 16384
unfolding requested start_download new_piece
requested_length = refl

msg_router-handle_msg_stream_example :
    (after : TorrentManager) × (q : Piece) × (msg_router
        (handle_msg_stream 2 (blocks_bytes 0 blocks) (some 1)).0
        receiving
      ≡ ok after)
    × (get_elem? (pieces_of after) 0 ≡ some q)
    × (q.buffer ≡ joined blocks)
    × (q.downloaded ≡ requested.1.piece_length)
msg_router-handle_msg_stream_example =
    msg_router-handle_msg_stream receiving blocks 0 2 requested.1 (some 1) refl requested-IsAwaited
      (omega arith) (refl, omega arith, omega (arith, block_size), omega (arith, block_size), tt)
      (one_block ∙ sym requested_length) (omega arith)
