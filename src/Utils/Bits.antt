-- ===== src/Utils/Bits.antt =====
-- What the masks of utils/utils.go do to each bit of a byte, checked value by value.
use dawn_torrent.Base.{
  ℕ, zero, suc, ◌<◌, ◌≡◌, refl, Bool, true, false, not, ◌&&◌, ◌||◌, [], ◌∷◌, ◌==◌, ltb,
  if◌then◌else◌, arith,
}
use dawn_torrent.Utils.{bit_mask, is_bit_on}

-- A test that every number under a limit passes.
passes : (ℕ → Bool) → ℕ → Bool
passes test zero = true
passes test (suc limit) = if test limit then passes test limit else false

passes-at :
    (test : ℕ → Bool) (limit : ℕ) → passes test limit ≡ true → (v : ℕ) → v < limit → test v ≡ true
unfolding passes
passes-at test (suc limit) all v below =
    let rest : passes test limit ≡ true = ground (arith, all) in
    let later : v < limit → test v ≡ true = passes-at test limit rest v in
    ground (arith, all, later)
passes-at test zero all v below = absurd (omega arith)

abbrev same : Bool → Bool → Bool
same a b = if a then b else not b

same→eq : (a b : Bool) → same a b ≡ true → a ≡ b
same→eq a b h = ground arith

set_table :
    passes
      (λ b.
        passes
          (λ p.
            passes (λ q. same (is_bit_on (bit_mask b 1 (p ∷ [])) q) (p == q || is_bit_on b q)) 8)
          8)
      256
    ≡ true
unfolding passes bit_mask is_bit_on
set_table = refl

clear_table :
    passes
      (λ b.
        passes
          (λ p.
            passes
              (λ q. same (is_bit_on (bit_mask b 0 (p ∷ [])) q) (not (p == q) && is_bit_on b q))
              8)
          8)
      256
    ≡ true
unfolding passes bit_mask is_bit_on
clear_table = refl

byte_table : passes (λ b. passes (λ p. ltb (bit_mask b 1 (p ∷ [])) 256) 8) 256 ≡ true
unfolding passes bit_mask
byte_table = refl

module _ (b p q : ℕ) (hb : b < 256) (hp : p < 8) (hq : q < 8) where
  -- Action 1 turns on the bit at the position, and no other.
  pub is_bit_on-bit_mask_set : is_bit_on (bit_mask b 1 (p ∷ [])) q ≡ (p == q || is_bit_on b q)
  is_bit_on-bit_mask_set =
      same→eq _ _ (passes-at _ 8 (passes-at _ 8 (passes-at _ 256 set_table b hb) p hp) q hq)

  -- Action 0 turns off the bit at the position, and no other.
  pub is_bit_on-bit_mask_clear :
      is_bit_on (bit_mask b 0 (p ∷ [])) q ≡ (not (p == q) && is_bit_on b q)
  is_bit_on-bit_mask_clear =
      same→eq _ _ (passes-at _ 8 (passes-at _ 8 (passes-at _ 256 clear_table b hb) p hp) q hq)

pub bit_mask-IsByte : (b p : ℕ) → b < 256 → p < 8 → bit_mask b 1 (p ∷ []) < 256
bit_mask-IsByte b p hb hp = ground (arith, passes-at _ 8 (passes-at _ 256 byte_table b hb) p hp)

zero_table : passes (λ q. not (is_bit_on 0 q)) 8 ≡ true
unfolding passes is_bit_on
zero_table = refl

-- The byte 0 has no bit.
pub is_bit_on-zero : (q : ℕ) → q < 8 → is_bit_on 0 q ≡ false
is_bit_on-zero q below = ground (arith, passes-at (λ x. not (is_bit_on 0 x)) 8 zero_table q below)
