-- ===== src/Peer/Bitfield.antt =====
-- What a `have` message changes in a peer's bitfield.
use dawn_torrent.Base.{
  ℕ, ◌-◌, ◌/◌, ◌%◌, ◌<◌, ◌≡◌, ◌≢◌, zero, suc, ltb, ◌&&◌, ◌||◌, [], ◌∷◌, Bytes, IsByte, All, length,
  set, length-set, get_elem?-set_self, get_elem?-set_ne, ◌==◌, arith,
}
use dawn_torrent.Utils.{bit_mask}
use dawn_torrent.Utils.Bits.{is_bit_on-bit_mask_set}
use dawn_torrent.Peer.{Peer, has_piece, update_bitfield, byte_at}

pub byte_at-IsByte : (bits : Bytes) (i : ℕ) → All IsByte bits → byte_at bits i < 256
byte_at-IsByte [] i h = omega arith
byte_at-IsByte (b ∷ bs) zero h = h.0
byte_at-IsByte (b ∷ bs) (suc i) h = byte_at-IsByte bs i h.1

byte_at-set_self : (bits : Bytes) (i v : ℕ) → i < length bits → byte_at (set bits i v) i ≡ v
byte_at-set_self bits i v h = rw (get_elem?-set_self bits i v h, byte_at)

byte_at-set_ne : (bits : Bytes) (i j v : ℕ) → i ≢ j → byte_at (set bits i v) j ≡ byte_at bits j
byte_at-set_ne bits i j v h = rw (get_elem?-set_ne bits i j v h, byte_at)

-- After `UpdateBitfield` for piece i the peer has piece j if it had it before, or if j lies in the
-- byte of i at the position i / 8 % 8; nothing changes where the byte lies outside of the bitfield.
pub has_piece-update_bitfield :
    (peer : Peer) (i j : ℕ)
    → All IsByte peer.bitfield
    → has_piece (update_bitfield peer i) j ≡ (
        (ltb (i / 8) (length peer.bitfield) && (j / 8 == i / 8) && (j % 8 == i / 8 % 8))
        || has_piece peer j)
unfolding has_piece update_bitfield
has_piece-update_bitfield peer i j bytes = ground (
  arith,
  length-set peer.bitfield (i / 8)
      (bit_mask (byte_at peer.bitfield (i / 8)) 1 ((7 - i / 8 % 8) ∷ [])),
  byte_at-set_self peer.bitfield (i / 8)
      (bit_mask (byte_at peer.bitfield (i / 8)) 1 ((7 - i / 8 % 8) ∷ [])),
  byte_at-set_ne peer.bitfield (i / 8) (j / 8)
      (bit_mask (byte_at peer.bitfield (i / 8)) 1 ((7 - i / 8 % 8) ∷ [])),
  is_bit_on-bit_mask_set (byte_at peer.bitfield (i / 8)) (7 - i / 8 % 8) (7 - j % 8)
      (byte_at-IsByte peer.bitfield (i / 8) bytes) (omega arith) (omega arith),
)
