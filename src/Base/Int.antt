-- ===== src/Base/Int.antt =====
-- Signed integers over the native numbers, under the library's names.
use dawn_torrent.Base.{ℕ, zero, suc, ◌+◌, ◌-◌, Bool, false, ◌==◌, leb, if◌then◌else◌}

-- `negsuc n` is -(n + 1).
pub data ℤ : Type 0 where
  pos : ℕ → ℤ
  negsuc : ℕ → ℤ

-- Go's `==`, and the steps by one that the counters take.
abbrev pub equal_ℤ : ℤ → ℤ → Bool
equal_ℤ (pos a) (pos b) = a == b
equal_ℤ (negsuc a) (negsuc b) = a == b
equal_ℤ (pos a) (negsuc b) = false
equal_ℤ (negsuc a) (pos b) = false

abbrev pub suc_ℤ : ℤ → ℤ
suc_ℤ (pos n) = pos (suc n)
suc_ℤ (negsuc zero) = pos 0
suc_ℤ (negsuc (suc n)) = negsuc n

abbrev pub pred_ℤ : ℤ → ℤ
pred_ℤ (pos zero) = negsuc 0
pred_ℤ (pos (suc n)) = pos n
pred_ℤ (negsuc n) = negsuc (suc n)

-- a - n, for a count n.
unfoldable pub sub_nat : ℤ → ℕ → ℤ
sub_nat (pos a) n = if leb n a then pos (a - n) else negsuc (n - a - 1)
sub_nat (negsuc a) n = negsuc (a + n)
