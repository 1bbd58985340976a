-- ===== src/Tests/Downloading.antt =====
-- A downloader for forty bytes in pieces of sixteen, and messages to it.
use dawn_torrent.Base.{◌≡◌, refl, [], ◌∷◌, some, ok, length, arith}
use dawn_torrent.Base.Int.{pos}
use dawn_torrent.Wire.{Header, interested}
use dawn_torrent.Peer.{new_peer}
use dawn_torrent.Downloader.{Downloader, downloader_with, build_queue}
use dawn_torrent.Downloader.Queue.{DownloadQueue}
use dawn_torrent.Downloader.Pieces.{Tiles, upto, build_queue-Tiles}
use dawn_torrent.Handlers.{Session, handle_msg}
use dawn_torrent.Handlers.Interest.{NobodyIsInterested, handle_msg-NobodyIsInterested}

build_queue-Tiles_example :
    (q : DownloadQueue) × (build_queue 40 16 ≡ ok q)
    × Tiles 16 0 0 40 q.pieces
    × (q.queue ≡ upto (length q.pieces))
build_queue-Tiles_example = build_queue-Tiles 40 16 (omega arith)

abbrev session : Session
session = record {
  peers = new_peer [] [] (7 ∷ []) ∷ [];
  downloader = downloader_with (record { pieces = []; queue = [] }) 40 16;
}

abbrev head : Header
head = record { id = pos 2; length = 1; peer = some 0 }

took : handle_msg (interested head) session ≡ ok session
unfolding handle_msg new_peer
took = refl

handle_msg-NobodyIsInterested_example : NobodyIsInterested session
unfolding new_peer
handle_msg-NobodyIsInterested_example =
    handle_msg-NobodyIsInterested (interested head) session session (refl, tt) took

abbrev heap : DownloadQueue
heap = record { pieces = []; queue = 0 ∷ 1 ∷ 2 ∷ [] }
