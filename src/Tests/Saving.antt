-- ===== src/Tests/Saving.antt =====
-- A torrent of two files, fifteen and twenty-five bytes, in pieces of sixteen: downloaded and saved.
use dawn_torrent.Base.{
  ℕ, ◌+◌, ◌≡◌, ◌<◌, refl, false, true, [], ◌∷◌, ◌++◌, Bytes, Option, none, some, ok, map, take,
  drop, get_elem?, arith,
}
use dawn_torrent.Torrent.{FileSegment, Torrent, multiple_mode, build_file_segment, get_path}
use dawn_torrent.Piece.{Piece, new_piece, not_started}
use dawn_torrent.Writer.{Disk}
use dawn_torrent.Writer.Plan.Placement.{HasDistinctPaths}
use dawn_torrent.Writer.Routine.{write}
use dawn_torrent.Downloader.{Downloader, new_torrent_downloader}
use dawn_torrent.Downloader.Pieces.{upto}
use dawn_torrent.Downloader.Workers.{Crew, start_crew, run}
use dawn_torrent.Downloader.Saving.{IsFilled, write-run_reported}
use dawn_torrent.Tests.Working.{alone}

-- Paths are joined by a slash.
abbrev pub join : Bytes → Bytes → Bytes
join a b = a ++ (b'/' ∷ b)

abbrev pub album : Torrent
album = record {
  announce = [];
  announce_list = [];
  comment = [];
  single_info = record { piece_length = 0; pieces = []; length = 0; name = [] };
  multiple = record {
    piece_length = 16;
    pieces = [];
    name = b't' ∷ [];
    files =
        record { length = 15; path = (b'a' ∷ []) ∷ [] }
        ∷ record { length = 25; path = (b'b' ∷ []) ∷ [] }
        ∷ [];
  };
  info_hash_hex = [];
  info_hash = [];
  file_mode = multiple_mode;
  file_segments = [];
  piece_length = 0;
  length = 0;
  pieces = [];
  serialized_state = none;
}

built : (u : Torrent) × (build_file_segment album ≡ ok u)
unfolding build_file_segment
built = (_, refl)

-- The bytes 0 to 39.
abbrev content : Bytes
content = upto 40

made : (d : Downloader) × (new_torrent_downloader 40 16 ≡ ok d)
unfolding new_torrent_downloader
made = (_, refl)

saved :
    (s : Crew) × (run alone (start_crew made.0) ≡ some s)
    × (s.reported ≡ true)
    × (s.cancelled ≡ false)
unfolding made run
saved = (_, refl, refl, refl)

abbrev fill : Option Piece → Piece
fill none = new_piece 0 16 16 not_started
fill (some p) = record p { buffer = take p.piece_length (drop p.piece_start_index content) }

abbrev filled : ℕ → Piece
filled i = fill (get_elem? made.0.queue.pieces i)

filled-IsFilled : IsFilled content made.0 filled
filled-IsFilled = record {
  start = λ i p at. rw at refl;
  size = λ i p at. rw at refl;
  buffer = λ i p at. rw at refl;
}

abbrev empty_disk : Disk
empty_disk = record { content = λ q. []; cannot_open = λ q. false; cannot_write = λ q. false }

distinct : HasDistinctPaths join built.0.file_segments
unfolding built get_path
distinct = ((λ e. absurd (ground (arith, e)), tt), (tt, tt))

write-run_reported_example :
    (after : Disk) × (write join built.0.file_segments (map filled saved.0.written) empty_disk
      ≡ ok after)
    × ((k o : ℕ) (f : FileSegment)
        → get_elem? built.0.file_segments k ≡ some f
        → o < f.file.length
        → get_elem? (after.content (get_path join f)) o ≡ get_elem? content (f.start_index + o))
unfolding built
write-run_reported_example =
    write-run_reported join album built.0 content made.0 alone saved.0 filled empty_disk built.1
      distinct (omega arith) (record { opens = λ q. refl; writes = λ q. refl }) refl made.1 saved.1
      saved.3 saved.2 filled-IsFilled
