-- ===== src/Bencode/Field.antt =====
-- parser/bencode_parser.go: `getField`, which reads up to two texts or numbers.
pub mod Scanning
pub mod Elements
pub mod Pairs
use dawn_torrent.Base.{
  ℕ, zero, suc, ◌+◌, ◌-◌, ◌*◌, ◌/◌, ◌%◌, ◌^◌, Bool, true, false, ◌&&◌, ◌||◌, List, [], ◌∷◌, ◌++◌,
  Bytes, Option, none, some, length, get_elem?, take, drop, ltb, leb, ◌==◌, if◌then◌else◌,
}
use dawn_torrent.Base.Decimal.{is_digit}
use dawn_torrent.Base.Int.{ℤ, pos, negsuc}
use dawn_torrent.Bencode.Parsing.{Parsed, returned, crashed, ◌>>=◌, or_crash}

-- `string(b)` of a byte: the code point of that number in UTF-8.
abbrev pub utf8 : ℕ → Bytes
utf8 b = if ltb b 128 then b ∷ [] else (192 + b / 64) ∷ (128 + b % 64) ∷ []

-- What `strconv.ParseUint` makes of digits: `none` for a syntax error, and the largest value where
-- the number leaves 64 bits before a character that is no digit.
unfoldable pub parse_uint : ℕ → Bytes → Option ℕ
unfolding is_digit
parse_uint acc [] = some acc
parse_uint acc (c ∷ cs) =
    let n = acc * 10 + (c - 48) in
    let rest = parse_uint n cs in
    if is_digit c then (if ltb n (2 ^ 64) then rest else some (2 ^ 64 - 1)) else none

abbrev pub parse_unsigned : Bytes → Option ℕ
parse_unsigned [] = none
parse_unsigned (c ∷ cs) = parse_uint 0 (c ∷ cs)

abbrev pub clamped : Option ℕ → Option ℕ
clamped none = some 0
clamped (some n) = some (if ltb n (2 ^ 63) then n else 2 ^ 63 - 1)

-- The value that `strconv.Atoi` gives beside its error: 0 for a syntax error, the nearest bound for
-- a number out of range. A negative value is a length that crashes.
unfoldable pub length_of : Bytes → Option ℕ
unfolding parse_uint
length_of [] = some 0
length_of (c ∷ cs) =
    let negative : Option ℕ = elim (parse_unsigned cs) [
      | none ↦ some 0
      | some n ↦ (if n == 0 then some 0 else none)
    ] in
    if c == b'-'
    then negative
    else if c == b'+'
    then clamped (parse_unsigned cs)
    else clamped (parse_unsigned (c ∷ cs))

-- The state of the inner loop at its end: the character it stops at and that character's position.
pub record Scan : Type 0 where
  pub ch : ℕ
  pub position : ℕ
  pub length_s : Bytes
  pub number_s : Bytes
  pub is_number : Bool

-- The inner loop stops at `d`, `l` and `:`, and at the `e` that it has seen.
abbrev pub stops : ℕ → Bool → Bool
stops ch is_end = ch == b'd' || ch == b'l' || ch == b':' || is_end

-- `ahead` is the file behind the character.
unfoldable pub scan : Bytes → ℕ → ℕ → Bytes → Bytes → Bool → Bool → Parsed Scan
unfolding is_digit
scan [] ch position length_s number_s is_number is_end =
    if stops ch is_end
    then returned (record {
      ch = ch;
      position = position;
      length_s = length_s;
      number_s = number_s;
      is_number = is_number;
    })
    else crashed
scan (c ∷ ahead) ch position length_s number_s is_number is_end =
    let number = is_number || ch == b'i' || c == b'e' in
    let further =
      scan ahead c (position + 1) (length_s ++ utf8 ch)
        (if number && is_digit c then number_s ++ (c ∷ []) else number_s) number (c == b'e') in
    if stops ch is_end
    then returned (record {
      ch = ch;
      position = position;
      length_s = length_s;
      number_s = number_s;
      is_number = is_number;
    })
    else further

-- The values read so far, the position, and the last container's letter or the last end, or 0.
pub record Fields : Type 0 where
  pub seq : List Bytes
  pub position : ℕ
  pub field : ℕ

-- `file[pos : pos+length]` behind the colon. An end behind the last byte crashes at once, or at the
-- next index where the slice has that capacity.
unfoldable pub read_text : Bytes → ℕ → Option ℕ → Parsed Bytes
read_text file at none = crashed
read_text file at (some n) =
    if leb (at + n) (length file) then returned (take n (drop at file)) else crashed

-- What a round does with what the inner loop has found.
unfoldable pub collect : Bytes → Fields → Scan → Parsed Fields
unfolding read_text length_of
collect file f s =
    let field = if s.ch == b'd' || s.ch == b'l' || s.ch == b'e' then s.ch else f.field in
    let at = s.position + 1 in
    let text : Parsed Fields = read_text file at (length_of s.length_s) >>= λ content.
    returned
      (record { seq = f.seq ++ (content ∷ []); position = at + length content; field = field }) in
    if s.ch == b':'
    then text
    else if s.is_number
    then returned (record { seq = f.seq ++ (s.number_s ∷ []); position = at; field = field })
    else returned (record { seq = f.seq; position = s.position; field = field })

-- One round of the outer loop.
unfoldable pub read_one : Bytes → Fields → Parsed Fields
unfolding scan collect
read_one file f = or_crash (get_elem? file f.position) >>= λ ch.
    scan (drop (f.position + 1) file) ch f.position [] [] false (ch == b'e') >>= λ s.
    collect file f s

unfoldable pub get_field : Bytes → ℕ → Parsed Fields
unfolding read_one
get_field file position =
    read_one file (record { seq = []; position = position; field = 0 }) >>= λ f. read_one file f
