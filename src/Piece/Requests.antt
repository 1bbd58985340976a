-- ===== src/Piece/Requests.antt =====
-- The requests of a piece cover it block by block.
use dawn_torrent.Base.{
  ℕ, zero, suc, ◌+◌, ◌-◌, ◌*◌, ◌%◌, ◌≤◌, ◌<◌, ◌≡◌, refl, ◌⊎◌, inl, inr, true, false, List, [], ◌∷◌,
  ◌++◌, Result, ok, panic, length, length-append, subst, sym, dec_lt, Bool-cases, if◌then◌else◌,
  arith,
}
use dawn_torrent.Piece.{
  Piece, BlockRequest, block_len, get_block_request_info, new_block_request, request_loop,
  get_next_request, reset, new_piece,
}

-- The blocks lie one behind the other from `a` to `b`, none is empty, none longer than 16384, and
-- each names the piece.
abbrev pub Covers : ℕ → ℕ → ℕ → List BlockRequest → Type 0
Covers index a b [] = a ≡ b
Covers index a b (r ∷ rs) =
    (r.piece_index ≡ index)
    × (r.begin_index ≡ a)
    × (1 ≤ r.block_length)
    × (r.block_length ≤ block_len)
    × Covers index (a + r.block_length) b rs

pub Covers-append :
    (index a b c : ℕ) (xs ys : List BlockRequest)
    → Covers index a b xs
    → Covers index b c ys
    → Covers index a c (xs ++ ys)
Covers-append index a b c [] ys h k = ground (arith, h, k)
Covers-append index a b c (x ∷ xs) ys (i, s, l, m, t) k =
    (i, s, l, m, Covers-append index (a + x.block_length) b c xs ys t k)

-- What is asked for so far ends here.
abbrev pub position : Piece → ℕ
position p = if p.end_of_piece then p.piece_length else block_len * p.request_index

-- The piece has a full block at least, and its requests are not past its end.
pub record IsOpen (p : Piece) : Type 0 where
  pub whole_block : block_len ≤ p.piece_length
  pub inside : p.end_of_piece ≡ false → block_len * p.request_index < p.piece_length

mod_of_last : (n s : ℕ) → 0 < s → s ≤ n → n < s + s → n % s ≡ n - s
mod_of_last n s h k l = grind arith

-- The block that reaches the end is cut to what is left.
block_info_last :
    (p : Piece) (i : ℕ)
    → block_len ≤ p.piece_length
    → block_len * i < p.piece_length
    → p.piece_length ≤ block_len * (i + 1)
    → get_block_request_info p i ≡ ok (block_len * i, p.piece_length - block_len * i, true)
unfolding get_block_request_info
block_info_last p i whole inside last = ground (arith, mod_of_last p.piece_length (block_len * i))

block_info_inner :
    (p : Piece) (i : ℕ)
    → block_len * (i + 1) < p.piece_length
    → get_block_request_info p i ≡ ok (block_len * i, block_len, false)
unfolding get_block_request_info
block_info_inner p i inner = ground arith

-- What a call that asks for `n` blocks from position `a` on returns.
pub record Asked (p : Piece) (a n : ℕ) (out : Result (List BlockRequest × Piece)) : Type 0 where
  pub requests : List BlockRequest
  pub after : Piece
  pub returns : out ≡ ok (requests, after)
  pub covers : Covers p.piece_index a (position after) requests
  pub still_open : IsOpen after
  pub same_length : after.piece_length ≡ p.piece_length
  pub same_index : after.piece_index ≡ p.piece_index
  pub enough :
      (after.end_of_piece ≡ true)
      ⊎ (length requests ≡ n) × (after.request_index ≡ p.request_index + n)

module _ (p : Piece) (a : ℕ) (whole : block_len ≤ p.piece_length)
    (started : p.end_of_piece ≡ false) where
  request-Covers :
      (i block : ℕ) (requests : List BlockRequest)
      → 1 ≤ block
      → block ≤ block_len
      → Covers p.piece_index a (block_len * i) requests
      → Covers p.piece_index a
          (block_len * i + block)
          (requests ++ (new_block_request p (block_len * i) block ∷ []))
  unfolding new_block_request
  request-Covers i block requests lo hi covers =
      Covers-append p.piece_index a (block_len * i) (block_len * i + block) requests _ covers
        (refl, refl, lo, hi, refl)

  request_loop-Asked :
      (left i n : ℕ) (requests : List BlockRequest)
      → length requests + left ≡ n
      → block_len * i < p.piece_length
      → p.request_index + length requests ≡ i
      → Covers p.piece_index a (block_len * i) requests
      → Asked p a n (request_loop p left i requests)
  unfolding request_loop
  request_loop-Asked zero i n requests count inside at covers = record {
    requests = requests;
    after = record p { request_index = p.request_index + length requests };
    returns = refl;
    covers = rw (started, at) covers;
    still_open = record { whole_block = whole; inside = λ _. omega arith };
    same_length = refl;
    same_index = refl;
    enough = inr (omega arith, omega arith);
  }
  request_loop-Asked (suc left) i n requests count inside at covers =
      elim (dec_lt (block_len * (i + 1)) p.piece_length) [
        | yes inner ↦
            let r = new_block_request p (block_len * i) block_len in
            let more = requests ++ (r ∷ []) in
            let size = length-append requests (r ∷ []) in
            let here : Covers p.piece_index a (block_len * (i + 1)) more =
              subst (λ b. Covers p.piece_index a b more) (omega arith)
                (request-Covers i block_len requests (omega arith) (omega arith) covers) in
            rw (block_info_inner p i inner) (
              request_loop-Asked left (i + 1) n more (omega (arith, size)) inner
                (omega (arith, size)) here)
        | no end ↦
            let block = p.piece_length - block_len * i in
            let more = requests ++ (new_block_request p (block_len * i) block ∷ []) in
            rw (block_info_last p i whole inside (omega arith)) (record {
              requests = more;
              after = record p {
                request_index = p.request_index + length more;
                end_of_piece = true;
              };
              returns = refl;
              covers =
                  subst (λ b. Covers p.piece_index a b more) (omega arith)
                    (request-Covers i block requests (omega arith) (omega arith) covers);
              still_open = record { whole_block = whole; inside = λ e. cc e };
              same_length = refl;
              same_index = refl;
              enough = inl refl;
            })
      ]

pub get_next_request_ended :
    (p : Piece) (n : ℕ) → p.end_of_piece ≡ true → get_next_request p n ≡ ok ([], p)
unfolding get_next_request
get_next_request_ended p n e = ground arith

get_next_request_going :
    (p : Piece) (n : ℕ)
    → p.end_of_piece ≡ false
    → get_next_request p n ≡ request_loop p n p.request_index []
unfolding get_next_request
get_next_request_going p n e = ground arith

-- A call that asks for `n` blocks of a piece of at least one full block returns blocks that go on
-- where the last call stopped, one behind the other with no gap; it returns `n` of them unless the
-- end of the piece is reached, and leaves the piece ready for the next call.
pub get_next_request-Asked :
    (p : Piece) (n : ℕ) → IsOpen p → Asked p (position p) n (get_next_request p n)
get_next_request-Asked p n h = elim (Bool-cases p.end_of_piece) [
  | inl ended ↦ subst (Asked p (position p) n) (sym (get_next_request_ended p n ended)) (record {
    requests = [];
    after = p;
    returns = refl;
    covers = refl;
    still_open = h;
    same_length = refl;
    same_index = refl;
    enough = inl ended;
  })
  | inr going ↦ subst (Asked p (position p) n) (sym (get_next_request_going p n going)) (
      request_loop-Asked p (position p) h.whole_block going n p.request_index n [] (omega arith)
        (h.inside going) (omega arith) (ground arith))
]

-- The first request of a non-empty piece below one full block divides by zero.
pub get_next_request_short_panics :
    (index standard len status n : ℕ)
    → len < block_len
    → get_next_request (new_piece index standard len status) (suc n) ≡ panic
unfolding get_next_request new_piece get_block_request_info request_loop
get_next_request_short_panics index standard len status n short = ground arith

-- A piece whose last block was asked for asks for nothing after a reset, though nothing of it is
-- kept: `reset` leaves the flag for its end on.
pub get_next_request-reset :
    (p : Piece) (n : ℕ)
    → p.end_of_piece ≡ true
    → (get_next_request (reset p) n ≡ ok ([], reset p)) × ((reset p).downloaded ≡ 0)
unfolding reset
get_next_request-reset p n ended = (get_next_request_ended (reset p) n ended, refl)
