-- ===== src/Wire/Parser.antt =====
-- core/msg_parser.go: a framed message read into its type.
pub mod Totality
pub mod RoundTrip
use Prim.Native.Nat.{bit_and}
use dawn_torrent.Base.{
  ℕ, zero, suc, ◌+◌, ◌-◌, ◌*◌, ◌%◌, ◌^◌, Option, some, List, [], ◌∷◌, ◌&&◌, Bytes, Result, ok,
  ◌>>=◌, ltb, ◌==◌, if◌then◌else◌, slice, uint32, read_uint32,
}
use dawn_torrent.Base.Int.{ℤ, pos, negsuc}
use dawn_torrent.Wire.{
  Header, TorrentMsg, plain, choke, unchoke, interested, uninterested, have, bitfield, request,
  cancel, piece, choke_msg_id, unchoke_msg_id, interested_msg_id, uninterested_msg_id, have_msg_id,
  bitfield_msg_id, request_msg_id, piece_msg_id, cancel_msg_id, default_msg_len, piece_msg_len,
}

-- `int(math.Abs(float64(a - b)))`, exact for the 32-bit lengths that reach it.
abbrev abs_diff : ℕ → ℕ → ℕ
abs_diff a b = (a - b) + (b - a)

parse_bitfield : Bytes → Header → Result TorrentMsg
parse_bitfield raw h =
    let size = abs_diff h.length default_msg_len in
    slice raw 5 (size + 5) >>= λ bits. ok (bitfield h bits size)

parse_have : Bytes → Header → Result TorrentMsg
parse_have raw h = do index ← read_uint32 raw 5; ok (have h index)

parse_request : Bytes → Header → Result TorrentMsg
parse_request raw h = do
  index ← read_uint32 raw 5
  begin ← read_uint32 raw 9
  block ← read_uint32 raw 13
  ok (request h index begin block)

parse_cancel : Bytes → Header → Result TorrentMsg
parse_cancel raw h = do
  index ← read_uint32 raw 5
  begin ← read_uint32 raw 9
  block ← read_uint32 raw 13
  ok (cancel h index begin block)

-- `copy` into a payload made of `BlockLength` bytes takes the whole source slice.
parse_piece : Bytes → Header → Result TorrentMsg
parse_piece raw h = do
  index ← read_uint32 raw 5
  begin ← read_uint32 raw 9
  let block = abs_diff h.length piece_msg_len
  payload ← slice raw 13 (block + 13)
  ok (piece h index begin block payload)

-- The value of `binary.Uvarint`: 0 where the buffer ends inside a number, or on overflow.
uvarint : ℕ → ℕ → Bytes → ℕ
uvarint i acc [] = 0
uvarint i acc (b ∷ bs) =
    let more = uvarint (i + 1) (acc + b % 128 * 2 ^ (7 * i)) bs in
    if i == 10
    then 0
    else if ltb b 128
    then (if i == 9 && ltb 1 b then 0 else acc + b * 2 ^ (7 * i))
    else more

-- The `switch` over the id.
dispatch : ℕ → Bytes → Header → Result TorrentMsg
unfolding parse_bitfield parse_have parse_request parse_cancel parse_piece
dispatch id raw h =
    if id == bitfield_msg_id
    then parse_bitfield raw h
    else if id == request_msg_id
    then parse_request raw h
    else if id == piece_msg_id
    then parse_piece raw h
    else if id == have_msg_id
    then parse_have raw h
    else if id == cancel_msg_id
    then parse_cancel raw h
    else if id == unchoke_msg_id
    then ok (unchoke h)
    else if id == choke_msg_id
    then ok (choke h)
    else if id == interested_msg_id
    then ok (interested h)
    else if id == uninterested_msg_id
    then ok (uninterested h)
    else ok (plain h)

unfoldable pub parse_msg : Bytes → Option ℕ → Result TorrentMsg
unfolding uvarint dispatch
parse_msg raw peer = do
  len ← read_uint32 raw 0
  if len == 0 then ok (plain (record { id = negsuc 0; length = len; peer = peer })) else do
    head ← slice raw 4 5
    let id = uvarint 0 0 head
    dispatch id raw (record { id = pos id; length = len; peer = peer })
