-- ===== src/Wire/Parser/Totality.antt =====
-- On which framed messages `ParseMsg` panics.
use dawn_torrent.Base.{
  ℕ, ◌+◌, ◌<◌, ◌≤◌, ◌^◌, ◌≡◌, Bool, true, false, Option, ◌∷◌, ◌++◌, Bytes, Result, ok, panic,
  length, ltb, ◌==◌, if◌then◌else◌, put_uint32, read_uint32_total, read_uint32_short, arith,
}
use dawn_torrent.Base.Int.{pos}
use dawn_torrent.Wire.{Header, choke}
use dawn_torrent.Wire.Parser.{
  parse_msg, dispatch, parse_piece, parse_have, parse_request, parse_cancel, parse_bitfield,
}

abbrev pub panics {ℓ} : {A : Type ℓ} → Result A → Bool
panics panic = true
panics _ = false

-- The length that a message needs after its id is known: the length field counts the id.
abbrev pub needed_length : ℕ → ℕ
needed_length id =
    if id == 4 then 5 else if id == 6 then 13 else if id == 7 then 9 else if id == 8 then 13 else 1

-- A byte of 128 or more is an unfinished varint, whose value is 0.
abbrev pub msg_id : ℕ → ℕ
msg_id b = if ltb b 128 then b else 0

module _ (raw : Bytes) (h : Header) (framed : length raw ≡ h.length + 4)
    (some_id : 1 ≤ h.length) where
  panics-parse_have : panics (parse_have raw h) ≡ ltb h.length 5
  unfolding parse_have
  panics-parse_have = ground (arith, read_uint32_total raw 5, read_uint32_short raw 5)

  panics-parse_request : panics (parse_request raw h) ≡ ltb h.length 13
  unfolding parse_request
  panics-parse_request = ground (
    arith,
    read_uint32_total raw 5,
    read_uint32_short raw 5,
    read_uint32_total raw 9,
    read_uint32_short raw 9,
    read_uint32_total raw 13,
    read_uint32_short raw 13,
  )

  panics-parse_cancel : panics (parse_cancel raw h) ≡ ltb h.length 13
  unfolding parse_cancel
  panics-parse_cancel = ground (
    arith,
    read_uint32_total raw 5,
    read_uint32_short raw 5,
    read_uint32_total raw 9,
    read_uint32_short raw 9,
    read_uint32_total raw 13,
    read_uint32_short raw 13,
  )

  panics-parse_piece : panics (parse_piece raw h) ≡ ltb h.length 9
  unfolding parse_piece
  panics-parse_piece = ground (
    arith,
    read_uint32_total raw 5,
    read_uint32_short raw 5,
    read_uint32_total raw 9,
    read_uint32_short raw 9,
  )

  panics-parse_bitfield : panics (parse_bitfield raw h) ≡ false
  unfolding parse_bitfield
  panics-parse_bitfield = ground arith

  panics-dispatch : (id : ℕ) → panics (dispatch id raw h) ≡ ltb h.length (needed_length id)
  unfolding dispatch
  panics-dispatch id = ground (
    arith, panics-parse_have, panics-parse_request, panics-parse_cancel, panics-parse_piece,
    panics-parse_bitfield,
  )

-- On a whole frame, that is a length field and as many bytes, `ParseMsg` panics exactly when the
-- length is below what the fields of the message's id take.
pub panics-parse_msg :
    (b : ℕ) (rest : Bytes) (peer : Option ℕ)
    → length (b ∷ rest) < 2 ^ 32
    → panics (parse_msg (put_uint32 (length (b ∷ rest)) ++ (b ∷ rest)) peer)
      ≡ ltb (length (b ∷ rest)) (needed_length (msg_id b))
unfolding parse_msg
panics-parse_msg b rest peer h =
    let n = length (b ∷ rest) in
    let raw = put_uint32 n ++ (b ∷ rest) in
    let head : Header = record { id = pos (msg_id b); length = n; peer = peer } in
    ground (arith, panics-dispatch raw head (omega arith) (omega arith) (msg_id b))

-- An id byte of 128 or more is read as 0, so that the message counts as a choke.
pub parse_msg_high_id :
    (b : ℕ) (rest : Bytes) (peer : Option ℕ)
    → length (b ∷ rest) < 2 ^ 32
    → 128 ≤ b
    → parse_msg (put_uint32 (length (b ∷ rest)) ++ (b ∷ rest)) peer
      ≡ ok (choke (record { id = pos 0; length = length (b ∷ rest); peer = peer }))
unfolding parse_msg
parse_msg_high_id b rest peer h high = ground arith
