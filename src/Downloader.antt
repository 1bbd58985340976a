-- ===== src/Downloader.antt =====
-- core/downloader.go: the pieces of a torrent, and which one a worker gets next.
-- A `*Piece` is an index into the list of all pieces.
pub mod Queue
pub mod Pieces
pub mod Selection
pub mod Workers
pub mod Saving
use dawn_torrent.Base.{
  ℕ, zero, suc, ◌+◌, ◌-◌, ◌*◌, Bool, true, false, List, [], ◌∷◌, ◌++◌, Bytes, Option, none, some,
  Result, ok, err, panic, ◌>>=◌, or_panic, length, get_elem?, set, replicate, ltb, leb, ◌==◌,
  if◌then◌else◌,
}
use dawn_torrent.Base.Int.{ℤ, pos, negsuc}
use dawn_torrent.Peer.{Peer}
use dawn_torrent.Piece.{
  Piece, ceil_div, new_piece, not_started, put_piece, update_availability, increment_availability,
}
use dawn_torrent.Downloader.Queue.{DownloadQueue, push, init, pop, remove_at, fix_queue}

-- The constants of the modes.
abbrev pub random : ℕ
random = 0

abbrev pub rarest_first : ℕ
rarest_first = 1

abbrev pub sequential : ℕ
sequential = 3

pub record Downloader : Type 0 where
  pub queue : DownloadQueue
  pub torrent_length : ℕ
  pub torrent_piece_length : ℕ
  pub mode : ℕ
  pub selected_piece : Option ℕ
  pub bitfield : Bytes
  pub last_selected_piece_index : ℕ
  pub total_selected_piece : ℕ
  pub n_piece : ℕ

-- The piece at an index: the last one ends with the torrent.
unfoldable pub piece_at : ℕ → ℕ → ℕ → Piece
unfolding new_piece
piece_at total piece_length i =
    let start = i * piece_length in
    new_piece i piece_length
      (if ltb total (start + piece_length) then total - start else piece_length) not_started

-- The loop of `buildQueue`, with the number of pieces that are still to be made.
build_loop : ℕ → ℕ → ℕ → ℕ → DownloadQueue → Result DownloadQueue
unfolding piece_at push
build_loop zero total piece_length i q = ok q
build_loop (suc left) total piece_length i q =
    push i (record q { pieces = q.pieces ++ (piece_at total piece_length i ∷ []) })
    >>= build_loop left total piece_length (i + 1)

-- The pieces and the queue.
unfoldable pub build_queue : ℕ → ℕ → Result DownloadQueue
unfolding build_loop init
build_queue total piece_length =
    build_loop (ceil_div total piece_length) total piece_length 0
      (record { pieces = []; queue = [] })
    >>= init

abbrev pub downloader_with : DownloadQueue → ℕ → ℕ → Downloader
downloader_with q total piece_length =
    let n = ceil_div total piece_length in
    record {
      queue = q;
      torrent_length = total;
      torrent_piece_length = piece_length;
      mode = sequential;
      selected_piece = none;
      bitfield = replicate (ceil_div n 8) 0;
      last_selected_piece_index = 0;
      total_selected_piece = 0;
      n_piece = n;
    }

-- `NewTorrentDownloader`: workers and channels have no part in the state.
unfoldable pub new_torrent_downloader : ℕ → ℕ → Result Downloader
unfolding build_queue
new_torrent_downloader total piece_length =
    build_queue total piece_length >>= λ q. ok (downloader_with q total piece_length)

-- `selectPiece`: the piece, and whether all were selected. `draw` is what `Intn` gives; it panics
-- for an empty queue, and so does the conversion of what `Pop` returns then.
unfoldable pub select_piece : ℕ → Downloader → Result (Option ℕ × Bool × Downloader)
unfolding remove_at pop
select_piece draw d =
    let all = length d.queue.pieces in
    let drawn : Result (Option ℕ × Bool × Downloader) = remove_at draw d.queue >>= λ r.
    ok (some r.0, false, record d { queue = r.1; selected_piece = some r.0 }) in
    let rarest : Result (Option ℕ × Bool × Downloader) =
      pop d.queue >>= λ r. or_panic r.0 >>= λ i. ok (some i, false, record d { queue = r.1 }) in
    let next : Result (Option ℕ × Bool × Downloader) =
      or_panic (get_elem? d.queue.pieces d.last_selected_piece_index) >>= λ p. ok (
        some d.last_selected_piece_index,
        false,
        record d {
          selected_piece = some d.last_selected_piece_index;
          last_selected_piece_index = d.last_selected_piece_index + 1;
          total_selected_piece = d.total_selected_piece + 1;
        },
      ) in
    if leb all d.total_selected_piece
    then ok (none, true, d)
    else if d.mode == random
    then (if length d.queue.queue == 0 then panic else drawn)
    else if d.mode == rarest_first
    then rarest
    else next

-- `putBlock`: an index out of range panics.
unfoldable pub put_block : ℕ → ℕ → Bytes → Downloader → Result Downloader
put_block index begin payload d = do
  piece ← or_panic (get_elem? d.queue.pieces index)
  piece' ← put_piece piece begin payload
  ok (record d { queue = record (d.queue) { pieces = set d.queue.pieces index piece' } })

-- A queue index above -1 is fixed.
unfoldable pub fix_at : ℤ → DownloadQueue → Result DownloadQueue
unfolding fix_queue
fix_at (pos k) q = fix_queue k q
fix_at (negsuc k) q = ok q

-- The loop of `updatePiecePriority`, with the number of pieces that are left.
unfoldable pub priority_loop : ℕ → ℕ → Peer → DownloadQueue → Result (Peer × DownloadQueue)
unfolding fix_at update_availability
priority_loop zero i peer q = ok (peer, q)
priority_loop (suc left) i peer q = do
  piece ← or_panic (get_elem? q.pieces i)
  let r = update_availability piece increment_availability peer
  q' ← fix_at piece.queue_index (record q { pieces = set q.pieces i r.0 })
  priority_loop left (i + 1) r.1 q'

unfoldable pub update_piece_priority : Peer → Downloader → Result (Peer × Downloader)
unfolding priority_loop
update_piece_priority peer d =
    priority_loop (length d.queue.pieces) 0 peer d.queue >>= λ r. ok (r.0, record d { queue = r.1 })
