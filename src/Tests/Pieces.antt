-- ===== src/Tests/Pieces.antt =====
-- Pieces, their requests, blocks and owners.
use dawn_torrent.Base.{
  ℕ, ◌-◌, ◌/◌, ◌%◌, ◌≡◌, refl, true, false, ◌==◌, ◌&&◌, ◌||◌, List, [], ◌∷◌, ok, length, get_elem?,
  ltb, leb, if◌then◌else◌, arith,
}
use dawn_torrent.Base.Int.{pos}
use dawn_torrent.Utils.{is_bit_on}
use dawn_torrent.Peer.{Peer, new_peer, has_piece, update_bitfield as mark_piece}
use dawn_torrent.Peer.Bitfield.{has_piece-update_bitfield}
use dawn_torrent.Piece.{Piece, BlockRequest, new_piece, get_next_request, has_sub_piece, put_piece}
use dawn_torrent.Piece.Requests.{Covers, IsOpen, Asked, position, get_next_request-Asked}
use dawn_torrent.Piece.Rounds.{ask_all, ask_all-new_piece}
use dawn_torrent.Piece.Buffer.{put_piece_writes}

abbrev seeder : Peer
seeder = record (new_peer [] [] (7 ∷ [])) { bitfield = 176 ∷ 3 ∷ [] }

has_piece-update_bitfield_example : has_piece (mark_piece seeder 9) 14 ≡ (
    (ltb (9 / 8) (length seeder.bitfield) && (14 / 8 == 9 / 8) && (14 % 8 == 9 / 8 % 8))
    || has_piece seeder 14)
has_piece-update_bitfield_example =
    has_piece-update_bitfield seeder 9 14 (omega arith, (omega arith, tt))

abbrev piece : Piece
piece = new_piece 3 40000 40000 0

piece-IsOpen : IsOpen piece
unfolding new_piece
piece-IsOpen = record { whole_block = omega arith; inside = λ open_end. omega arith }

get_next_request-Asked_example : Asked piece (position piece) 2 (get_next_request piece 2)
get_next_request-Asked_example = get_next_request-Asked piece 2 piece-IsOpen

ask_all-new_piece_example :
    (rs : List BlockRequest) × (q : Piece) × (ask_all (new_piece 3 40000 40000 0) (2 ∷ 1 ∷ 5 ∷ [])
      ≡ ok (rs, q))
    × Covers 3 0 40000 rs
ask_all-new_piece_example =
    ask_all-new_piece 3 40000 40000 0 (2 ∷ 1 ∷ 5 ∷ []) (omega arith) (omega arith)

abbrev asked : Piece
asked = record piece { end_of_piece = true }

-- A piece of four bytes.
abbrev small : Piece
small = record {
  piece_length = 4;
  downloaded = 0;
  piece_index = 3;
  state = 1;
  buffer = 0 ∷ 0 ∷ 0 ∷ 0 ∷ [];
  queue_index = pos 0;
  availability = pos 0;
  sub_piece_mask = 0 ∷ [];
  piece_start_index = 12;
  piece_end_index = 16;
  owners = [];
  request_index = 1;
  end_of_piece = true;
  n_pending_request = pos 1;
}

missing : has_sub_piece small 1 ≡ ok false
unfolding has_sub_piece is_bit_on
missing = refl

put_piece_writes_example :
    (q : Piece) × (put_piece small 1 (8 ∷ 9 ∷ []) ≡ ok q)
    × (length q.buffer ≡ 4)
    × ((j : ℕ)
        → get_elem? q.buffer j ≡ (
            if leb 1 j && ltb j 3
            then get_elem? (8 ∷ 9 ∷ []) (j - 1)
            else get_elem? (0 ∷ 0 ∷ 0 ∷ 0 ∷ []) j))
    × (q.downloaded ≡ 2)
    × (q.n_pending_request ≡ pos 0)
    × (q.sub_piece_mask ≡ 0 ∷ [])
put_piece_writes_example = put_piece_writes small 1 (8 ∷ 9 ∷ []) missing (omega arith) (omega arith)

abbrev wide : Piece
wide = record piece { sub_piece_mask = 128 ∷ [] }

has_third : has_piece seeder 3 ≡ true
unfolding has_piece is_bit_on
has_third = refl
