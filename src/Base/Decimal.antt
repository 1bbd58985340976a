-- ===== src/Base/Decimal.antt =====
-- What the program takes from Go's `strconv`: decimal digits, printed and read.
use dawn_torrent.Base.{
  List, subst, sym, ap, ◌∙◌, ℕ, zero, suc, ◌+◌, ◌-◌, ◌*◌, ◌/◌, ◌%◌, ◌^◌, ◌<◌, ◌≤◌, ◌≡◌, refl, inl,
  inr, Bool, true, false, Bool-cases, dec_lt, All, ◌&&◌, Option, none, some, [], ◌∷◌, ◌++◌, Bytes,
  ltb, leb, ◌==◌, if◌then◌else◌, arith,
}
use dawn_torrent.Base.Int.{ℤ, pos, negsuc}
use native.Mathlib.Nat.{pow-suc}

pub All-snoc {ℓ} :
    {A : Type ℓ} (P : A → Type 0) (xs : List A) (x : A) → All P xs → P x → All P (xs ++ (x ∷ []))
All-snoc P [] x h k = (k, tt)
All-snoc P (y ∷ ys) x h k = (h.0, All-snoc P ys x h.1 k)

-- Digits with fuel: a number below 10 ^ (fuel + 1) is printed whole.
unfoldable pub digits : ℕ → ℕ → Bytes
digits zero n = (48 + n % 10) ∷ []
digits (suc f) n =
    let rest = digits f (n / 10) in if ltb n 10 then (48 + n) ∷ [] else rest ++ ((48 + n % 10) ∷ [])

-- `strconv.FormatUint(n, 10)` and `strconv.Itoa` of a number from 0 on; 20 digits hold a uint64.
unfoldable pub format_uint : ℕ → Bytes
unfolding digits
format_uint = digits 19

unfoldable pub is_digit : ℕ → Bool
is_digit c = leb 48 c && leb c 57

unfoldable pub read_digits : ℕ → Bytes → Option ℕ
unfolding is_digit
read_digits acc [] = some acc
read_digits acc (c ∷ cs) =
    let rest = read_digits (acc * 10 + (c - 48)) cs in if is_digit c then rest else none

unfoldable pub read_unsigned : Bytes → Option ℕ
unfolding read_digits
read_unsigned [] = none
read_unsigned (c ∷ cs) = read_digits 0 (c ∷ cs)

abbrev positive : Option ℕ → Option ℤ
positive none = none
positive (some n) = if ltb n (2 ^ 63) then some (pos n) else none

abbrev negative : Option ℕ → Option ℤ
negative none = none
negative (some n) =
    if n == 0 then some (pos 0) else if leb n (2 ^ 63) then some (negsuc (n - 1)) else none

-- `strconv.Atoi`: an optional sign and digits; `none` for a syntax or a range error.
unfoldable pub atoi : Bytes → Option ℤ
unfolding read_unsigned
atoi [] = none
atoi (c ∷ cs) =
    if c == b'-'
    then negative (read_unsigned cs)
    else if c == b'+'
    then positive (read_unsigned cs)
    else positive (read_unsigned (c ∷ cs))

read_digits-append :
    (xs : Bytes) (acc v d : ℕ)
    → d < 10
    → read_digits acc xs ≡ some v
    → read_digits acc (xs ++ ((48 + d) ∷ [])) ≡ some (v * 10 + d)
unfolding read_digits
read_digits-append [] acc v d h e = ground arith
read_digits-append (c ∷ cs) acc v d h e =
    ground (arith, read_digits-append cs (acc * 10 + (c - 48)) v d h)

read_digits_one : (n : ℕ) → n < 10 → read_digits 0 ((48 + n) ∷ []) ≡ some n
unfolding read_digits
read_digits_one n h = ground arith

-- The digits of a number that they can hold are read back as the number.
pub read_digits-digits : (f n : ℕ) → n < 10 ^ suc f → read_digits 0 (digits f n) ≡ some n
unfolding digits
read_digits-digits zero n h = ground (arith, read_digits_one (n % 10))
read_digits-digits (suc f) n h =
    let bound = rw pow-suc at h in
    let fits : n / 10 < 10 ^ suc f = omega (arith, bound) in
    ground (
      arith,
      read_digits_one n,
      read_digits-digits f (n / 10) fits,
      read_digits-append (digits f (n / 10)) 0 (n / 10) (n % 10),
    )

pub digits_are_digits : (f n : ℕ) → All (λ c. is_digit c ≡ true) (digits f n)
unfolding digits is_digit
digits_are_digits zero n = (ground arith, tt)
digits_are_digits (suc f) n = elim (dec_lt n 10) [
  | yes small ↦ rw (ltb_true n 10 small) (ground arith, tt)
  | no large ↦ rw (ltb_false n 10 large) (
      All-snoc (λ c. is_digit c ≡ true) (digits f (n / 10)) (48 + n % 10)
        (digits_are_digits f (n / 10)) (ground arith))
]
  where
    ltb_true : (a b : ℕ) → a < b → ltb a b ≡ true
    ltb_true a b h = ground arith

    ltb_false : (a b : ℕ) → ¬ (a < b) → ltb a b ≡ false
    ltb_false a b h = ground arith

-- A printed number has a first digit.
pub digits_first : (f n : ℕ) → (d : ℕ) × (ds : Bytes) × (digits f n ≡ d ∷ ds)
unfolding digits
digits_first zero n = (_, _, refl)
digits_first (suc f) n =
    let (d, ds, e) = digits_first f (n / 10) in
    elim (Bool-cases (ltb n 10)) [
      | inl small ↦ (48 + n, [], rw small)
      | inr large ↦ (d, ds ++ ((48 + n % 10) ∷ []), rw (large, e))
    ]

pub read_digits-le : (xs : Bytes) (acc v : ℕ) → read_digits acc xs ≡ some v → acc ≤ v
unfolding read_digits
read_digits-le [] acc v e = ground (arith, e)
read_digits-le (c ∷ cs) acc v e = ground (arith, read_digits-le cs (acc * 10 + (c - 48)) v)

-- A printed number is a first digit and further ones, which are read back as the number.
pub format_uint-digits :
    (n : ℕ)
    → n < 2 ^ 63
    → (c : ℕ) × (ds : Bytes) × (format_uint n ≡ c ∷ ds)
      × All (λ d. is_digit d ≡ true) (c ∷ ds)
      × (read_digits 0 (c ∷ ds) ≡ some n)
unfolding format_uint
format_uint-digits n h =
    let (c, ds, e) = digits_first 19 n in
    (
      c,
      ds,
      e,
      subst (All (λ d. is_digit d ≡ true)) e (digits_are_digits 19 n),
      sym (ap (read_digits 0) e) ∙ read_digits-digits 19 n (omega arith),
    )

pub is_digit-bounds : (c : ℕ) → is_digit c ≡ true → (48 ≤ c) × (c ≤ 57)
unfolding is_digit
is_digit-bounds c h = (ground (arith, h), ground (arith, h))

-- A printed number reads as that number.
pub atoi-format_uint : (n : ℕ) → n < 2 ^ 63 → atoi (format_uint n) ≡ some (pos n)
unfolding atoi
atoi-format_uint n h =
    let (c, ds, e, all, value) = format_uint-digits n h in
    let (minus, plus) : ((c == b'-') ≡ false) × ((c == b'+') ≡ false) =
      let (low, high) = is_digit-bounds c all.0 in (ground arith, ground arith) in
    rw (e, minus, plus, value) ground arith

-- A printed number begins with a digit.
pub format_uint-first :
    (n : ℕ) → (c : ℕ) × (ds : Bytes) × (format_uint n ≡ c ∷ ds) × (is_digit c ≡ true)
unfolding format_uint
format_uint-first n =
    let (c, ds, e) = digits_first 19 n in
    let all = subst (All (λ d. is_digit d ≡ true)) e (digits_are_digits 19 n) in (c, ds, e, all.0)
