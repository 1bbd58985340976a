-- ===== src/Piece.antt =====
-- core/piece.go and core/BockRequest.go: a piece, its block requests and its buffer.
-- The fields that nothing reads are left out; `owners` keeps the ids, the map's keys.
pub mod Requests
pub mod Rounds
pub mod Buffer
pub mod Awaited
pub mod Blocks
pub mod Owners
use dawn_torrent.Base.{
  ℕ, zero, suc, ◌+◌, ◌-◌, ◌*◌, ◌/◌, ◌%◌, Bool, true, false, not, ◌&&◌, none, List, [], ◌∷◌, ◌++◌,
  Bytes, Result, ok, panic, ◌>>=◌, length, get_elem?, set, take, drop, replicate, or_panic, ltb,
  leb, ◌==◌, if◌then◌else◌, equal_bytes,
}
use dawn_torrent.Base.Int.{ℤ, pos, negsuc, pred_ℤ, suc_ℤ}
use dawn_torrent.Base.Decimal.{format_uint}
use dawn_torrent.Utils.{bit_mask, is_bit_on}
use dawn_torrent.Wire.{Header, TorrentMsg, request, request_msg_id, request_msg_len}
use dawn_torrent.Peer.{Peer, has_piece, set_interest_point}

abbrev pub block_len : ℕ
block_len = 16384

abbrev pub max_pending_request : ℕ
max_pending_request = 10

-- The states of a request, numbered by `iota` in their block of constants.
abbrev pub fulfilled : ℕ
fulfilled = 2

abbrev pub timeout : ℕ
timeout = 3

abbrev pub unfulfilled : ℕ
unfulfilled = 4

-- The states of a piece.
abbrev pub not_started : ℕ
not_started = 0

abbrev pub increment_availability : ℕ
increment_availability = 0

abbrev pub decrement_availability : ℕ
decrement_availability = 1

pub record Piece : Type 0 where
  pub piece_length : ℕ
  pub downloaded : ℕ
  pub piece_index : ℕ
  pub state : ℕ
  pub buffer : Bytes
  pub queue_index : ℤ
  pub availability : ℤ
  pub sub_piece_mask : Bytes
  pub piece_start_index : ℕ
  pub piece_end_index : ℕ
  pub owners : List Bytes
  pub request_index : ℕ
  pub end_of_piece : Bool
  pub n_pending_request : ℤ

pub record BlockRequest : Type 0 where
  pub msg_header : Header
  pub piece_index : ℕ
  pub begin_index : ℕ
  pub block_length : ℕ
  pub id : Bytes
  pub state : ℕ
  pub providers : List ℕ

-- `int(math.Ceil(float64(a) / float64(b)))` for b > 0, exact below 2 ^ 53.
abbrev pub ceil_div : ℕ → ℕ → ℕ
ceil_div a b = (a + (b - 1)) / b

unfoldable pub new_piece : ℕ → ℕ → ℕ → ℕ → Piece
new_piece index standard_piece_length piece_length status = record {
  piece_length = piece_length;
  downloaded = 0;
  piece_index = index;
  state = status;
  buffer = [];
  queue_index = pos 0;
  availability = pos 0;
  sub_piece_mask = replicate (ceil_div piece_length block_len) 0;
  piece_start_index = index * standard_piece_length;
  piece_end_index = index * standard_piece_length + piece_length;
  owners = [];
  request_index = 0;
  end_of_piece = false;
  n_pending_request = pos 0;
}

-- The start, the length, and whether the block ends the piece. `%` by 0 panics.
unfoldable pub get_block_request_info : Piece → ℕ → Result (ℕ × ℕ × Bool)
get_block_request_info piece index =
    let start = block_len * index in
    let total = block_len + start in
    if ltb piece.piece_length total
    then (if start == 0
        then panic
        else let last = piece.piece_length % start in
          ok (start, last, start + last == piece.piece_length))
    else ok (start, block_len, total == piece.piece_length)

-- core/torrent.go.
unfoldable pub get_request_id : ℕ → ℕ → Bytes
unfolding format_uint
get_request_id piece_index start_index = format_uint piece_index ++ (b'-' ∷ format_uint start_index)

unfoldable pub new_block_request : Piece → ℕ → ℕ → BlockRequest
new_block_request piece start block = record {
  msg_header = record { id = pos request_msg_id; length = request_msg_len + block; peer = none };
  piece_index = piece.piece_index;
  begin_index = start;
  block_length = block;
  id = get_request_id piece.piece_index start;
  state = unfulfilled;
  providers = [];
}

-- The embedded `RequestMsg`.
abbrev pub request_msg : BlockRequest → TorrentMsg
request_msg r = request r.msg_header r.piece_index r.begin_index r.block_length

-- The loop from `i` with `left` rounds to go; `requests` is what it has appended.
unfoldable pub request_loop : Piece → ℕ → ℕ → List BlockRequest → Result (List BlockRequest × Piece)
unfolding get_block_request_info new_block_request
request_loop piece zero i requests =
    ok (requests, record piece { request_index = piece.request_index + length requests })
request_loop piece (suc left) i requests =
    get_block_request_info piece i >>= λ (start, block, ends).
    let requests' = requests ++ (new_block_request piece start block ∷ []) in
    let rest = request_loop piece left (i + 1) requests' in
    if ends
    then ok (
      requests',
      record piece { request_index = piece.request_index + length requests'; end_of_piece = true },
    )
    else rest

-- The argument is a count; the loop makes no round for a negative one.
unfoldable pub get_next_request : Piece → ℕ → Result (List BlockRequest × Piece)
unfolding request_loop
get_next_request piece n =
    if piece.end_of_piece then ok ([], piece) else request_loop piece n piece.request_index []

-- The position of a block's bit: its byte, and the bit from the top.
abbrev pub mask_byte : ℕ → ℕ
mask_byte start = start / block_len / 8

abbrev pub mask_bit : ℕ → ℕ
mask_bit start = 7 - start / block_len % 8

unfoldable pub has_sub_piece : Piece → ℕ → Result Bool
has_sub_piece piece start = or_panic (get_elem? piece.sub_piece_mask (mask_byte start)) >>= λ b.
    ok (is_bit_on b (mask_bit start))

unfoldable pub update_bitfield : Piece → ℕ → Result Piece
update_bitfield piece start = or_panic (get_elem? piece.sub_piece_mask (mask_byte start)) >>= λ b.
    ok (record piece {
      sub_piece_mask =
          set piece.sub_piece_mask (mask_byte start) (bit_mask b 1 (mask_bit start ∷ []));
    })

-- `copy(buffer[start:start+len(data)], data)`: out of the buffer's bounds it panics.
unfoldable pub write_to_buffer : Piece → Bytes → ℕ → Result (Piece × Bool)
write_to_buffer piece bytes start =
    let stop = start + length bytes in
    if ltb piece.downloaded piece.piece_length
    then (if leb stop (length piece.buffer)
        then ok (
          record piece {
            buffer = take start piece.buffer ++ (bytes ++ drop stop piece.buffer);
            downloaded = piece.downloaded + length bytes;
          },
          piece.downloaded + length bytes == piece.piece_length,
        )
        else panic)
    else ok (piece, piece.downloaded == piece.piece_length)

-- `putPiece`, on the begin index and the payload of a piece message.
unfoldable pub put_piece : Piece → ℕ → Bytes → Result Piece
unfolding has_sub_piece write_to_buffer
put_piece piece begin_index payload = do
  known ← has_sub_piece piece begin_index
  let fewer = record piece { n_pending_request = pred_ℤ piece.n_pending_request }
  let written : Result (Piece × Bool) = write_to_buffer fewer payload begin_index
  let accepted : Result Piece = written >>= λ r. ok r.0
  if not known && ltb piece.downloaded piece.piece_length then accepted else ok piece

-- What a failed `download` does before it returns its error.
unfoldable pub reset : Piece → Piece
reset piece = record piece { downloaded = 0; buffer = []; request_index = 0 }

-- The first statement of `download`: a fresh buffer.
unfoldable pub start_download : Piece → Piece
start_download piece = record piece { buffer = replicate piece.piece_length 0 }

abbrev pub room : ℤ → ℕ
room (pos n) = max_pending_request - n
room (negsuc n) = max_pending_request + suc n

pub add_pending : ℕ → ℤ → ℤ
add_pending zero z = z
add_pending (suc n) z = add_pending n (suc_ℤ z)

-- One round of the loop of `download`, where every write to the peer succeeds: the requests are
-- sent and counted.
unfoldable pub download_round : Piece → Result (List BlockRequest × Piece)
unfolding get_next_request add_pending
download_round piece =
    let asked = get_next_request piece (room piece.n_pending_request) in
    let counted : Result (List BlockRequest × Piece) = asked >>= λ (requests, piece'). ok (
      requests,
      record piece' { n_pending_request = add_pending (length requests) piece'.n_pending_request },
    ) in
    if ltb piece.downloaded piece.piece_length then counted else ok ([], piece)

unfoldable pub owns : Bytes → List Bytes → Bool
owns id [] = false
owns id (x ∷ xs) = if equal_bytes x id then true else owns id xs

unfoldable pub disown : Bytes → List Bytes → List Bytes
disown id [] = []
disown id (x ∷ xs) = if equal_bytes x id then disown id xs else x ∷ disown id xs

-- The receiver is a copy of the piece: the map of owners is shared with the original, while the
-- counter that is added to is the copy's. What is returned is the original piece, and the peer.
unfoldable pub update_availability : Piece → ℕ → Peer → Piece × Peer
unfolding owns disown
update_availability piece action peer =
    if action == increment_availability
    then (if has_piece peer piece.piece_index && not (owns peer.id piece.owners)
        then (
          record piece { owners = peer.id ∷ piece.owners },
          if piece.state == not_started
              then set_interest_point peer (peer.interest_point + 1)
              else peer,
        )
        else (piece, peer))
    else if has_piece peer piece.piece_index
    then (record piece { owners = disown peer.id piece.owners }, peer)
    else (piece, peer)
