-- ===== src/Peer.antt =====
-- core/peer.go: a remote peer. The fields for times and rates, which nothing reads, are left out.
-- A connection is a socket's number, `none` for nil.
pub mod Bitfield
use dawn_torrent.Base.{
  ℕ, ◌+◌, ◌-◌, ◌*◌, ◌/◌, ◌%◌, Bool, true, false, not, ◌||◌, Option, none, some, List, [], ◌∷◌, ◌++◌,
  Bytes, Result, ok, panic, ◌>>=◌, length, get_elem?, set, leb, ◌==◌, if◌then◌else◌, slice, uint16,
}
use dawn_torrent.Base.Int.{ℤ, pos, equal_ℤ}
use dawn_torrent.Base.Decimal.{format_uint}
use dawn_torrent.Utils.{bit_mask, is_bit_on}

abbrev pub max_piece_per_peer : ℕ
max_piece_per_peer = 3

pub record Peer : Type 0 where
  pub ip : Bytes
  pub port : Bytes
  pub id : Bytes
  pub is_interesting : Bool
  pub is_choked : Bool
  pub is_choking : Bool
  pub is_interested : Bool
  pub connection : Option ℕ
  pub is_free : ℤ
  pub bitfield : Bytes
  pub interest_point : ℕ

-- The byte of a bitfield at an index inside of it.
abbrev pub byte_at : Bytes → ℕ → ℕ
byte_at bits i = elim (get_elem? bits i) [ none ↦ 0 | some b ↦ b ]

unfoldable pub has_piece : Peer → ℕ → Bool
has_piece peer piece_index =
    let byte_index = piece_index / 8 in
    if leb (length peer.bitfield) byte_index
    then false
    else is_bit_on (byte_at peer.bitfield byte_index) (7 - piece_index % 8)

unfoldable pub is_available : Peer → ℕ → Bool
unfolding has_piece
is_available peer piece_index =
    if peer.is_choking
      || not (has_piece peer piece_index)
      || equal_ℤ peer.is_free (pos max_piece_per_peer)
    then false
    else true

-- As written: the bit is taken from the byte's index, not from the piece's.
unfoldable pub update_bitfield : Peer → ℕ → Peer
update_bitfield peer piece_index =
    let byte_index = piece_index / 8 in
    let bit_index = 7 - byte_index % 8 in
    if leb (length peer.bitfield) byte_index then peer else record peer {
      bitfield =
          set peer.bitfield byte_index
            (bit_mask (byte_at peer.bitfield byte_index) 1 (bit_index ∷ []));
    }

abbrev pub set_interest : Peer → Bool → Peer
set_interest peer x = record peer { is_interested = x }

abbrev pub set_choke : Peer → Bool → Peer
set_choke peer x = record peer { is_choking = x }

abbrev pub set_bit_field : Peer → Bytes → Peer
set_bit_field peer bits = record peer { bitfield = bits }

abbrev pub set_connection : Peer → ℕ → Peer
set_connection peer conn = record peer { connection = some conn }

abbrev pub set_interest_point : Peer → ℕ → Peer
set_interest_point peer i = record peer { interest_point = i }

unfoldable pub new_peer : Bytes → Bytes → Bytes → Peer
new_peer ip port id = record {
  ip = ip;
  port = port;
  id = id;
  is_interesting = false;
  is_choked = true;
  is_choking = true;
  is_interested = false;
  connection = none;
  is_free = pos 0;
  bitfield = [];
  interest_point = 0;
}

-- The loop over the four address bytes: each in decimal, with a dot behind all but the last.
unfoldable pub dotted : Bytes → Bytes
unfolding format_uint
dotted [] = []
dotted (b ∷ []) = format_uint b
dotted (b ∷ c ∷ cs) = format_uint b ++ (b'.' ∷ dotted (c ∷ cs))

unfoldable pub new_peer_from_bytes : Bytes → Result Peer
unfolding new_peer dotted
new_peer_from_bytes peer_data = do
  ip_byte ← slice peer_data 0 4
  let ip = dotted ip_byte
  port_byte ← slice peer_data 4 6
  port_number ← uint16 port_byte
  let port = format_uint port_number
  ok (new_peer ip port (ip ++ (b':' ∷ port)))
