-- ===== src/Downloader/Selection.antt =====
-- The pieces that `selectPiece` gives in its sequential mode.
use dawn_torrent.Base.{
  ℕ, ◌+◌, ◌≤◌, ◌<◌, ◌≡◌, refl, true, false, List, [], ◌∷◌, Option, none, some, Result, ok, ◌>>=◌,
  length, get_elem?-some, ltb, if◌then◌else◌, arith,
}
use dawn_torrent.Downloader.{
  Downloader, downloader_with, select_piece, new_torrent_downloader, sequential,
}
use dawn_torrent.Downloader.Pieces.{Tiles, build_queue-Tiles}

-- One selection for each draw.
pub select_times : List ℕ → Downloader → Result (List (Option ℕ) × Downloader)
select_times [] d = ok ([], d)
select_times (draw ∷ draws) d =
    select_piece draw d >>= λ r. select_times draws r.2 >>= λ s. ok (r.0 ∷ s.0, s.1)

-- In the sequential mode, with as many pieces selected as the index of the next one.
pub record IsSequential (d : Downloader) : Type 0 where
  pub mode : d.mode ≡ sequential
  pub selected : d.total_selected_piece ≡ d.last_selected_piece_index

abbrev pub advance : Downloader → Downloader
advance d = record d {
  selected_piece = some d.last_selected_piece_index;
  last_selected_piece_index = d.last_selected_piece_index + 1;
  total_selected_piece = d.total_selected_piece + 1;
}

pub select_next :
    (draw : ℕ) (d : Downloader)
    → IsSequential d
    → d.last_selected_piece_index < length d.queue.pieces
    → select_piece draw d ≡ ok (some d.last_selected_piece_index, false, advance d)
unfolding select_piece
select_next draw d s more =
    let (p, at) = get_elem?-some d.queue.pieces d.last_selected_piece_index more in
    ground (arith, s.mode, s.selected, at)

pub select_done :
    (draw : ℕ) (d : Downloader)
    → length d.queue.pieces ≤ d.total_selected_piece
    → select_piece draw d ≡ ok (none, true, d)
unfolding select_piece
select_done draw d done = ground arith

-- The answers where `n` pieces are there and the next one is `t`.
replies : List ℕ → ℕ → ℕ → List (Option ℕ)
replies [] n t = []
replies (draw ∷ draws) n t =
    let later = replies draws n (t + 1) in
    let over = replies draws n t in if ltb t n then some t ∷ later else none ∷ over

pub new_torrent_downloader-IsSequential :
    (total size : ℕ)
    → 0 < size
    → (d : Downloader) × (new_torrent_downloader total size ≡ ok d)
      × IsSequential d
      × (d.last_selected_piece_index ≡ 0)
      × Tiles size 0 0 total d.queue.pieces
unfolding new_torrent_downloader
new_torrent_downloader-IsSequential total size h =
    let (q, built, tiles, order) = build_queue-Tiles total size h in
    (
      downloader_with q total size,
      rw built refl,
      record { mode = refl; selected = refl },
      refl,
      tiles,
    )
