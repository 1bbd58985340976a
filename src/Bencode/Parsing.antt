-- ===== src/Bencode/Parsing.antt =====
-- What a call of the bencode parser comes to. The parser reports no errors of its own, and may go
-- on for ever, so that it runs on fuel.
use dawn_torrent.Base.{Option, none, some, ◌≡◌, refl, arith}

pub data Parsed {ℓ} (A : Type ℓ) : Type ℓ where
  returned : A → Parsed A
  crashed : Parsed A
  out_of_fuel : Parsed A

infixl 5 ◌>>=◌
abbrev pub ◌>>=◌ {ℓ κ} : {A : Type ℓ} {B : Type κ} → Parsed A → (A → Parsed B) → Parsed B
returned a >>= f = f a
crashed >>= f = crashed
out_of_fuel >>= f = out_of_fuel

-- An index out of range, or a nil pointer, crashes.
abbrev pub or_crash {ℓ} : {A : Type ℓ} → Option A → Parsed A
or_crash none = crashed
or_crash (some a) = returned a

-- A step that returns in the end has returned before.
pub returned_before {ℓ κ} :
    {A : Type ℓ} {B : Type κ} (r : Parsed A) (f : A → Parsed B) (b : B)
    → r >>= f ≡ returned b
    → (a : A) × (r ≡ returned a) × (f a ≡ returned b)
returned_before (returned a) f b h = (a, refl, h)
returned_before crashed f b h = absurd (ground (arith, h))
returned_before out_of_fuel f b h = absurd (ground (arith, h))

pub returned-injective {ℓ} :
    {A : Type ℓ} (a b : A) → ◌≡◌ {A = Parsed A} (returned a) (returned b) → a ≡ b
returned-injective a b h = ground (arith, h)
