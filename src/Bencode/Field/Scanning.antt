-- ===== src/Bencode/Field/Scanning.antt =====
-- parser/bencode_parser.go: the inner loop of `getField` over the digits of a length or a number.
use dawn_torrent.Base.{
  ℕ, ◌+◌, ◌-◌, ◌*◌, ◌^◌, ◌<◌, ◌≡◌, refl, ◌∙◌, sym, Bool, true, false, ◌||◌, [], ◌∷◌, ◌++◌, Bytes,
  some, All, length, ◌==◌, arith,
}
use mathlib.Core.List.{append_assoc, append-nil}
use dawn_torrent.Base.Decimal.{
  is_digit, is_digit-bounds, format_uint, format_uint-digits, read_digits, read_digits-le,
}
use dawn_torrent.Bencode.Parsing.{returned}
use dawn_torrent.Bencode.Field.{utf8, parse_uint, length_of, Scan, stops, scan}

-- A digit ends no loop and is one byte.
pub digit_tests :
    (c : ℕ)
    → is_digit c ≡ true
    → (stops c false ≡ false) × (utf8 c ≡ c ∷ []) × ((c == b'i') ≡ false) × ((c == b'e') ≡ false)
digit_tests c h =
    let (low, high) = is_digit-bounds c h in
    (ground arith, ground arith, ground arith, ground arith)

-- Where the loop stops at once, it has read what it had.
pub scan_stop :
    (ahead : Bytes) (c position : ℕ) (read number : Bytes) (is_number is_end : Bool)
    → stops c is_end ≡ true
    → scan ahead c position read number is_number is_end
      ≡ returned (record {
        ch = c;
        position = position;
        length_s = read;
        number_s = number;
        is_number = is_number;
      })
unfolding scan
scan_stop [] c position read number is_number is_end h = rw h refl
scan_stop (d ∷ ahead) c position read number is_number is_end h = rw h refl

-- The inner loop reads digits up to the colon.
pub scan_length :
    (ds : Bytes) (c : ℕ) (rest : Bytes) (position : ℕ) (read number : Bytes)
    → is_digit c ≡ true
    → All (λ d. is_digit d ≡ true) ds
    → (s : Scan) × (scan (ds ++ (b':' ∷ rest)) c position read number false false ≡ returned s)
      × (s.ch ≡ b':')
      × (s.position ≡ position + 1 + length ds)
      × (s.length_s ≡ read ++ (c ∷ ds))
unfolding scan
scan_length [] c rest position read number h all =
    let (s, u, i, e) = digit_tests c h in
    (
      record {
        ch = b':';
        position = position + 1;
        length_s = read ++ (c ∷ []);
        number_s = number;
        is_number = false;
      },
      rw (s, u, i) (scan_stop rest b':' (position + 1) (read ++ (c ∷ [])) number false false refl),
      refl,
      omega arith,
      refl,
    )
scan_length (d ∷ ds) c rest position read number h all =
    let (s, u, i, e) = digit_tests c h in
    let (s', u', i', e') = digit_tests d all.0 in
    let (found, runs, ch, at, digits) =
      scan_length ds d rest (position + 1) (read ++ (c ∷ [])) number all.0 all.1 in
    (
      found,
      rw (s, u, i, e') runs,
      ch,
      omega (arith, at),
      digits ∙ append_assoc read (c ∷ []) (d ∷ ds),
    )

-- Behind the letter of a number, it reads digits up to the end.
pub scan_number :
    (ds : Bytes) (c : ℕ) (rest : Bytes) (position : ℕ) (read number : Bytes) (is_number : Bool)
    → (is_number || c == b'i') ≡ true
    → stops c false ≡ false
    → All (λ d. is_digit d ≡ true) ds
    → (s : Scan) × (scan (ds ++ (b'e' ∷ rest)) c position read number is_number false ≡ returned s)
      × (s.ch ≡ b'e')
      × (s.position ≡ position + 1 + length ds)
      × (s.number_s ≡ number ++ ds)
      × (s.is_number ≡ true)
unfolding scan
scan_number [] c rest position read number is_number i s all = (
  record {
    ch = b'e';
    position = position + 1;
    length_s = read ++ utf8 c;
    number_s = number;
    is_number = true;
  },
  rw (s, i) (scan_stop rest b'e' (position + 1) (read ++ utf8 c) number true true refl),
  refl,
  omega arith,
  sym (append-nil number),
  refl,
)
scan_number (d ∷ ds) c rest position read number is_number i s all =
    let (s', u', i', e') = digit_tests d all.0 in
    let (found, runs, ch, at, digits, is) =
      scan_number ds d rest (position + 1) (read ++ utf8 c) (number ++ (d ∷ [])) true refl s'
        all.1 in
    (
      found,
      rw (s, i, e', all.0) runs,
      ch,
      omega (arith, at),
      digits ∙ append_assoc number (d ∷ []) ds,
      is,
    )

-- `strconv.ParseUint` of a printed number.
pub parse_uint-read_digits :
    (xs : Bytes) (acc v : ℕ) → read_digits acc xs ≡ some v → v < 2 ^ 64 → parse_uint acc xs ≡ some v
unfolding parse_uint read_digits
parse_uint-read_digits [] acc v e h = e
parse_uint-read_digits (c ∷ cs) acc v e h = ground (
  arith,
  read_digits-le cs (acc * 10 + (c - 48)) v,
  parse_uint-read_digits cs (acc * 10 + (c - 48)) v,
)

-- A printed length is read back.
pub length_of-format_uint : (n : ℕ) → n < 2 ^ 63 → length_of (format_uint n) ≡ some n
unfolding length_of
length_of-format_uint n h =
    let (c, ds, e, all, value) = format_uint-digits n h in
    let read : parse_uint 0 (c ∷ ds) ≡ some n =
      parse_uint-read_digits (c ∷ ds) 0 n value (omega arith) in
    let (minus, plus) : ((c == b'-') ≡ false) × ((c == b'+') ≡ false) =
      let (low, high) = is_digit-bounds c all.0 in (ground arith, ground arith) in
    rw (e, minus, plus, read) ground arith
