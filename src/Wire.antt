-- ===== src/Wire.antt =====
-- core/torrent_message.go and core/msg_parser.go: the peer protocol's messages as bytes.
-- A `*Peer` in a header is an index into the swarm's peers, `none` for nil.
pub mod Parser
pub mod HandShakes
use dawn_torrent.Base.{
  ℕ, ◌+◌, ◌-◌, ◌≡◌, Option, none, some, List, [], ◌∷◌, ◌++◌, Bytes, Result, ok, err, panic, ◌>>=◌,
  could_not_parse, length, replicate, ltb, if◌then◌else◌, slice,
}
use dawn_torrent.Base.Int.{ℤ, pos}
use dawn_torrent.Utils.{int_to_byte}

abbrev pub handshake_msg_id : ℕ
handshake_msg_id = 19

abbrev pub choke_msg_id : ℕ
choke_msg_id = 0

abbrev pub unchoke_msg_id : ℕ
unchoke_msg_id = 1

abbrev pub interested_msg_id : ℕ
interested_msg_id = 2

abbrev pub uninterested_msg_id : ℕ
uninterested_msg_id = 3

abbrev pub have_msg_id : ℕ
have_msg_id = 4

abbrev pub bitfield_msg_id : ℕ
bitfield_msg_id = 5

abbrev pub request_msg_id : ℕ
request_msg_id = 6

abbrev pub piece_msg_id : ℕ
piece_msg_id = 7

abbrev pub cancel_msg_id : ℕ
cancel_msg_id = 8

abbrev pub default_msg_len : ℕ
default_msg_len = 1

abbrev pub request_msg_len : ℕ
request_msg_len = 13

abbrev pub piece_msg_len : ℕ
piece_msg_len = 9

abbrev pub handshake_len : ℕ
handshake_len = 68

-- The ASCII codes of "BitTorrent protocol".
abbrev pub bittorrent_identifier : Bytes
bittorrent_identifier =
    b'B' ∷ b'i' ∷ b't' ∷ b'T' ∷ b'o' ∷ b'r' ∷ b'r' ∷ b'e' ∷ b'n' ∷ b't' ∷ b' ' ∷ b'p' ∷ b'r' ∷ b'o'
    ∷ b't' ∷ b'o' ∷ b'c' ∷ b'o' ∷ b'l' ∷ []

pub record Header : Type 0 where
  pub id : ℤ
  pub length : ℕ
  pub peer : Option ℕ

-- The types that implement `TorrentMsg`, with their embedded header.
pub data TorrentMsg : Type 0 where
  plain choke unchoke interested uninterested : Header → TorrentMsg
  have : Header → ℕ → TorrentMsg
  bitfield : Header → Bytes → ℕ → TorrentMsg
  request cancel : Header → ℕ → ℕ → ℕ → TorrentMsg
  piece : Header → ℕ → ℕ → ℕ → Bytes → TorrentMsg

pub header_of : TorrentMsg → Header
header_of (plain h) = h
header_of (choke h) = h
header_of (unchoke h) = h
header_of (interested h) = h
header_of (uninterested h) = h
header_of (have h i) = h
header_of (bitfield h b n) = h
header_of (request h i b l) = h
header_of (cancel h i b l) = h
header_of (piece h i b l p) = h

unfoldable pub get_peer : TorrentMsg → Option ℕ
unfolding header_of
get_peer msg = (header_of msg).peer

-- Only `InterestedMsg` and `RequestMsg` have a `Marshal` of their own; the header's panics.
unfoldable pub marshal : TorrentMsg → Result Bytes
unfolding int_to_byte
marshal (interested h) = do
  len ← int_to_byte default_msg_len 4
  id ← int_to_byte interested_msg_id 1
  ok (len ++ id)
marshal (request h index begin block) = do
  len ← int_to_byte request_msg_len 4
  id ← int_to_byte request_msg_id 1
  i ← int_to_byte index 4
  b ← int_to_byte begin 4
  n ← int_to_byte block 4
  ok (len ++ id ++ i ++ b ++ n)
marshal _ = panic

pub record HandShake : Type 0 where
  pub pstrlen : Bytes
  pub pstr : Bytes
  pub info_hash : Bytes
  pub reserved_bytes : Bytes
  pub peer_id : Bytes

pub marshal_handshake : HandShake → Bytes
marshal_handshake h =
    (handshake_msg_id ∷ []) ++ bittorrent_identifier ++ replicate 8 0 ++ h.info_hash ++ h.peer_id

unfoldable pub new_handshake_msg : Bytes → Bytes → Bytes
unfolding marshal_handshake
new_handshake_msg infohash peer_id = marshal_handshake (record {
  pstrlen = [];
  pstr = [];
  info_hash = infohash;
  reserved_bytes = [];
  peer_id = peer_id;
})

unfoldable pub parse_handshake : Bytes → Result HandShake
parse_handshake raw = if ltb (length raw) handshake_len then err could_not_parse else do
  pstrlen ← slice raw 0 1
  pstr ← slice raw 1 20
  reserved ← slice raw 20 28
  info_hash ← slice raw 28 48
  peer_id ← slice raw 48 68
  ok (record {
    pstrlen = pstrlen;
    pstr = pstr;
    info_hash = info_hash;
    reserved_bytes = reserved;
    peer_id = peer_id;
  })
