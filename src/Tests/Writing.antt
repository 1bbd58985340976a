-- ===== src/Tests/Writing.antt =====
-- A torrent of two files, laid out and written.
use dawn_torrent.Base.{
  ℕ, ◌+◌, ◌^◌, ap, ◌≡◌, refl, true, false, List, [], ◌∷◌, ◌++◌, Bytes, Option, none, some, ok,
  get_elem?, arith,
}
use dawn_torrent.Base.Int.{pos}
use dawn_torrent.Torrent.{File, FileSegment, Torrent, multiple_mode, build_file_segment, get_path}
use dawn_torrent.Torrent.Segments.{IsLaidOut, build_file_segment-IsLaidOut}
use dawn_torrent.Piece.{Piece}
use dawn_torrent.Writer.{Disk, write_piece}
use dawn_torrent.Writer.Heads.{IsWritable}
use dawn_torrent.Writer.Plan.{place, write_piece-place}
use dawn_torrent.Writer.Plan.Placement.{HasDistinctPaths, write_piece_bytes}

-- Paths are joined by a slash.
abbrev join : Bytes → Bytes → Bytes
join a b = a ++ (b'/' ∷ b)

abbrev first_file : File
first_file = record { length = 3; path = (b'a' ∷ []) ∷ [] }

abbrev second_file : File
second_file = record { length = 5; path = (b'b' ∷ []) ∷ [] }

abbrev torrent : Torrent
torrent = record {
  announce = [];
  announce_list = [];
  comment = [];
  single_info = record { piece_length = 0; pieces = []; length = 0; name = [] };
  multiple = record {
    piece_length = 4;
    pieces = [];
    name = b't' ∷ [];
    files = first_file ∷ second_file ∷ [];
  };
  info_hash_hex = [];
  info_hash = [];
  file_mode = multiple_mode;
  file_segments = [];
  piece_length = 0;
  length = 2 ^ 31 + 5;
  pieces = [];
  serialized_state = none;
}

build_file_segment-IsLaidOut_example :
    (u : Torrent) × (build_file_segment torrent ≡ ok u) × IsLaidOut multiple_mode torrent u
build_file_segment-IsLaidOut_example = build_file_segment-IsLaidOut torrent

abbrev segment : File → ℕ → FileSegment
segment f start = record {
  file = f;
  start_index = start;
  end_index = start + f.length;
  parent_name = b't' ∷ [];
  mode = multiple_mode;
}

abbrev segments : List FileSegment
segments = segment first_file 0 ∷ segment second_file 3 ∷ []

-- The bytes 2 to 5 of the torrent.
abbrev piece : Piece
piece = record {
  piece_length = 4;
  downloaded = 4;
  piece_index = 1;
  state = 1;
  buffer = 11 ∷ 12 ∷ 13 ∷ 14 ∷ [];
  queue_index = pos 0;
  availability = pos 0;
  sub_piece_mask = 0 ∷ [];
  piece_start_index = 2;
  piece_end_index = 6;
  owners = [];
  request_index = 1;
  end_of_piece = true;
  n_pending_request = pos 0;
}

abbrev disk : Disk
disk = record {
  content = λ path. 1 ∷ 2 ∷ [];
  cannot_open = λ path. false;
  cannot_write = λ path. false;
}

disk-IsWritable : IsWritable disk
disk-IsWritable = record { opens = λ path. refl; writes = λ path. refl }

distinct : HasDistinctPaths join segments
unfolding get_path
distinct = ((λ e. absurd (other (ap (λ path. get_elem? path 3) e)), tt), (tt, tt))
  where
    other : ◌≡◌ {A = Option ℕ} (some b'b') (some b'a') → ⊥
    other e = ground (arith, e)

write_piece-place_example :
    write_piece join piece segments disk ≡ ok (place join piece 0 segments disk)
write_piece-place_example =
    write_piece-place join piece segments 8 disk (refl, refl, (refl, refl, refl)) (omega arith) refl
      (omega arith) disk-IsWritable

write_piece_bytes_example :
    (after : Disk) × (write_piece join piece segments disk ≡ ok after)
    × (get_elem? (after.content (get_path join (segment second_file 3))) 2 ≡ some 14)
write_piece_bytes_example =
    write_piece_bytes join piece segments 8 disk (refl, refl, (refl, refl, refl)) distinct
      (omega arith) refl (omega arith) disk-IsWritable 1 2 (segment second_file 3) refl
      (omega arith) (omega arith) (omega arith)
