-- ===== src/Piece/Blocks.antt =====
-- The mask of received blocks: `hasSubPiece` after `UpdateBitfield`.
use dawn_torrent.Base.{
  ℕ, zero, suc, ◌/◌, ◌<◌, ◌≡◌, Bool, ◌||◌, some, [], ◌∷◌, Bytes, IsByte, All, ok, length, get_elem?,
  set, get_elem?-set_self, get_elem?-set_ne, get_elem?-some, ◌==◌, arith,
}
use dawn_torrent.Utils.{bit_mask, is_bit_on}
use dawn_torrent.Utils.Bits.{is_bit_on-bit_mask_set}
use dawn_torrent.Piece.{Piece, has_sub_piece, update_bitfield, mask_byte, mask_bit, block_len}

byte-IsByte : (bits : Bytes) (i b : ℕ) → All IsByte bits → get_elem? bits i ≡ some b → b < 256
byte-IsByte [] i b h e = cc
byte-IsByte (x ∷ xs) zero b h e = ground (arith, h.0)
byte-IsByte (x ∷ xs) (suc i) b h e = byte-IsByte xs i b h.1 e

-- Where both blocks have a byte in the mask, `UpdateBitfield` succeeds, and afterwards exactly the
-- updated block is known besides the blocks known before.
pub has_sub_piece-update_bitfield :
    (p : Piece) (i j : ℕ)
    → All IsByte p.sub_piece_mask
    → mask_byte i < length p.sub_piece_mask
    → mask_byte j < length p.sub_piece_mask
    → (q : Piece) × (known : Bool) × (update_bitfield p i ≡ ok q)
      × (has_sub_piece p j ≡ ok known)
      × (has_sub_piece q j ≡ ok ((i / block_len == j / block_len) || known))
unfolding has_sub_piece update_bitfield
has_sub_piece-update_bitfield p i j bytes hi hj =
    let (b, eb) = get_elem?-some p.sub_piece_mask (mask_byte i) hi in
    let (c, ec) = get_elem?-some p.sub_piece_mask (mask_byte j) hj in
    let new = bit_mask b 1 (mask_bit i ∷ []) in
    (
      record p { sub_piece_mask = set p.sub_piece_mask (mask_byte i) new },
      is_bit_on c (mask_bit j),
      ground (arith, eb),
      ground (arith, ec),
      ground (
        arith,
        eb,
        ec,
        get_elem?-set_self p.sub_piece_mask (mask_byte i) new hi,
        get_elem?-set_ne p.sub_piece_mask (mask_byte i) (mask_byte j) new,
        is_bit_on-bit_mask_set b (mask_bit i) (mask_bit j)
            (byte-IsByte p.sub_piece_mask (mask_byte i) b bytes eb) (omega arith) (omega arith),
      ),
    )
