-- ===== src/Utils.antt =====
-- utils/utils.go: bit masks on a byte, and integers as big-endian bytes.
-- An `int` argument is the 64-bit pattern of its two's complement, a number below 2 ^ 64.
pub mod Bits
pub mod Names
use Prim.Native.Nat.{bit_and, bit_or}
use mathlib.Core.List.{foldl}
use dawn_torrent.Base.{
  ℕ, zero, suc, ◌+◌, ◌-◌, ◌/◌, ◌%◌, ◌^◌, Bool, not, List, [], ◌∷◌, ◌++◌, Result, ok, panic, ◌>>=◌,
  Bytes, length, drop, replicate, ltb, leb, ◌==◌, if◌then◌else◌, put_uint16, put_uint32, put_uint64,
  ◌&&◌, true, false,
}

-- `uint8(math.Exp2(float64(v)))`. Go leaves the conversion open above 255; every caller passes
-- a position from 0 to 7.
abbrev pub exp2_byte : ℕ → ℕ
exp2_byte v = 2 ^ v % 256

-- `255 &^ b`: a byte has no bit outside of 255.
unfoldable pub flip_bit : ℕ → ℕ
flip_bit b = 255 - bit_and 255 b

set_bit : ℕ → ℕ → ℕ
set_bit b v = bit_or b (exp2_byte v)

clear_bit : ℕ → ℕ → ℕ
unfolding flip_bit
clear_bit b v = bit_and b (flip_bit (exp2_byte v))

unfoldable pub bit_mask : ℕ → ℕ → List ℕ → ℕ
unfolding set_bit clear_bit
bit_mask b action bits =
    if action == 1 then foldl set_bit b bits else if action == 0 then foldl clear_bit b bits else b

unfoldable pub is_bit_on : ℕ → ℕ → Bool
is_bit_on b pos = not (bit_and b (exp2_byte pos) == 0)

-- `binary.PutUvarint(b, x)`: it panics where the buffer is too short.
unfoldable pub put_uvarint : Bytes → ℕ → Result Bytes
put_uvarint [] x = panic
put_uvarint (b ∷ bs) x = elim (ltb x 128) [
  | true ↦ ok (x ∷ bs)
  | false ↦ put_uvarint bs (x / 128) >>= λ rest. ok ((x % 128 + 128) ∷ rest)
]

-- The front of a buffer that is long enough, overwritten.
abbrev over : Bytes → Bytes → Bytes
over front b = front ++ drop (length front) b

unfoldable pub int_to_byte : ℕ → ℕ → Result Bytes
unfolding put_uvarint
int_to_byte n n_byte =
    let b = replicate n_byte 0 in
    if ltb n_byte 2
    then put_uvarint b n
    else if leb 2 n_byte && ltb n_byte 4
    then ok (over (put_uint16 n) b)
    else if leb 4 n_byte && ltb n_byte 8
    then ok (over (put_uint32 n) b)
    else if n_byte == 8
    then ok (over (put_uint64 n) b)
    else ok b
