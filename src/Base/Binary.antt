-- ===== src/Base/Binary.antt =====
-- Byte slices, and what the program takes from Go's `encoding/binary`.
use Prim.Native.Nat.{ℕ, ◌+◌, ◌-◌, ◌*◌, ◌/◌, ◌%◌, ◌^◌, ◌≤◌, ◌<◌}
use mathlib.Core.Path.{◌≡◌, refl}
use mathlib.Core.Bool.{Bool, ◌&&◌, true, false}
use mathlib.Core.Logic.{◌↔◌}
use mathlib.Core.List.{List, [], ◌∷◌, ◌++◌}
use native.Mathlib.Omega.{arith}
use dawn_torrent.Base.Tests.{leb, ◌==◌, if◌then◌else◌}
use dawn_torrent.Base.Lists.{
  length, take, drop, length-append, take-append_length, drop-append_length, length-take,
  length-drop,
}
use dawn_torrent.Base.Results.{Result, ok, panic, ◌>>=◌}

abbrev pub Bytes : Type 0
Bytes = List ℕ

abbrev pub IsByte : ℕ → Type 0
IsByte b = b < 256

-- `xs[lo:hi]` on a slice whose capacity is its length.
abbrev pub slice : Bytes → ℕ → ℕ → Result Bytes
slice xs lo hi = if leb lo hi && leb hi (length xs) then ok (take (hi - lo) (drop lo xs)) else panic

-- `binary.BigEndian.Uint16`, `Uint32` and `Uint64`: they read the first bytes and panic on fewer.
abbrev pub uint16 : Bytes → Result ℕ
uint16 (a ∷ b ∷ _) = ok (a * 256 + b)
uint16 _ = panic

abbrev pub uint32 : Bytes → Result ℕ
uint32 (a ∷ b ∷ c ∷ d ∷ _) = ok (a * 16777216 + b * 65536 + c * 256 + d)
uint32 _ = panic

abbrev pub uint64 : Bytes → Result ℕ
uint64 (a ∷ b ∷ c ∷ d ∷ rest) = do
  low ← uint32 rest
  ok ((a * 16777216 + b * 65536 + c * 256 + d) * 4294967296 + low)
uint64 _ = panic

-- `PutUint16`, `PutUint32` and `PutUint64` as the bytes that they write.
abbrev pub put_uint16 : ℕ → Bytes
put_uint16 n = (n / 256 % 256) ∷ (n % 256) ∷ []

abbrev pub put_uint32 : ℕ → Bytes
put_uint32 n = (n / 16777216 % 256) ∷ (n / 65536 % 256) ∷ (n / 256 % 256) ∷ (n % 256) ∷ []

abbrev pub put_uint64 : ℕ → Bytes
put_uint64 n = put_uint32 (n / 4294967296) ++ put_uint32 n

-- `binary.BigEndian.Uint32(raw[lo:lo+4])`.
abbrev pub read_uint32 : Bytes → ℕ → Result ℕ
read_uint32 raw lo = slice raw lo (lo + 4) >>= uint32

pub uint32-put_uint32 : (n : ℕ) → n < 2 ^ 32 → uint32 (put_uint32 n) ≡ ok n
uint32-put_uint32 n h = ground arith

uint32_total : (xs : Bytes) → 4 ≤ length xs → (n : ℕ) × (uint32 xs ≡ ok n)
uint32_total [] h = absurd (omega arith)
uint32_total (a ∷ []) h = absurd (omega arith)
uint32_total (a ∷ b ∷ []) h = absurd (omega arith)
uint32_total (a ∷ b ∷ c ∷ []) h = absurd (omega arith)
uint32_total (a ∷ b ∷ c ∷ d ∷ rest) h = (_, refl)

pub read_uint32_total :
    (raw : Bytes) (lo : ℕ) → lo + 4 ≤ length raw → (n : ℕ) × (read_uint32 raw lo ≡ ok n)
read_uint32_total raw lo h =
    let (n, e) =
      uint32_total (take (lo + 4 - lo) (drop lo raw))
        (omega (arith, length-take (lo + 4 - lo) (drop lo raw), length-drop lo raw)) in
    (n, ground (arith, e))

pub read_uint32_short : (raw : Bytes) (lo : ℕ) → length raw < lo + 4 → read_uint32 raw lo ≡ panic
read_uint32_short raw lo h = ground arith

-- A slice that is the middle of three parts.
pub slice_middle :
    (front xs back : Bytes) (lo hi : ℕ)
    → lo ≡ length front
    → hi ≡ lo + length xs
    → slice (front ++ (xs ++ back)) lo hi ≡ ok xs
slice_middle front xs back lo hi at size =
    let low = drop-append_length front (xs ++ back) in
    let cut = take-append_length xs back in
    let whole = length-append front (xs ++ back) in
    let part = length-append xs back in
    let width : hi - lo ≡ length xs = omega arith in
    rw (width, at, low, cut) (ground (arith, whole, part))

-- Go's `==` on strings.
unfoldable pub equal_bytes : Bytes → Bytes → Bool
equal_bytes [] [] = true
equal_bytes (x ∷ xs) (y ∷ ys) = x == y && equal_bytes xs ys
equal_bytes _ _ = false

pub equal_bytes_iff : (a b : Bytes) → (equal_bytes a b ≡ true) ↔ (a ≡ b)
unfolding equal_bytes
equal_bytes_iff (x ∷ a) (y ∷ b) = ground (arith, equal_bytes_iff a b)
equal_bytes_iff _ _ = ground arith

pub equal_bytes_self : (a : Bytes) → equal_bytes a a ≡ true
equal_bytes_self a = (equal_bytes_iff a a).1 refl
