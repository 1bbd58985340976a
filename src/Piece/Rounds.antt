-- ===== src/Piece/Rounds.antt =====
-- The requests of a piece that is asked again and again cover it from end to end.
use dawn_torrent.Base.{
  ℕ, ◌+◌, ◌*◌, ◌≤◌, ◌≡◌, refl, ◌∙◌, ◌⊎◌, inl, inr, true, List, [], ◌∷◌, ◌++◌, Result, ok, subst,
  sym, Bool-cases, ◌>>=◌, arith,
}
use dawn_torrent.Piece.{Piece, BlockRequest, block_len, get_next_request, new_piece}
use dawn_torrent.Piece.Requests.{
  Covers, Covers-append, position, IsOpen, get_next_request_ended, get_next_request-Asked,
}

-- As many calls as `counts` has entries, one after the other.
pub ask_all : Piece → List ℕ → Result (List BlockRequest × Piece)
ask_all p [] = ok ([], p)
ask_all p (n ∷ ns) =
    get_next_request p n >>= λ (rs, q). ask_all q ns >>= λ (more, last). ok (rs ++ more, last)

abbrev pub sum : List ℕ → ℕ
sum [] = 0
sum (n ∷ ns) = n + sum ns

record AskedAll (p : Piece) (total : ℕ) (out : Result (List BlockRequest × Piece)) : Type 0 where
  requests : List BlockRequest
  after : Piece
  returns : out ≡ ok (requests, after)
  covers : Covers p.piece_index (position p) (position after) requests
  still_open : IsOpen after
  same_length : after.piece_length ≡ p.piece_length
  enough : (after.end_of_piece ≡ true) ⊎ (after.request_index ≡ p.request_index + total)

stays_ended : (p : Piece) (ns : List ℕ) → p.end_of_piece ≡ true → ask_all p ns ≡ ok ([], p)
unfolding ask_all
stays_ended p [] e = refl
stays_ended p (n ∷ ns) e = rw (get_next_request_ended p n e, stays_ended p ns e)

ended_after :
    (q : Piece) (last : Piece) {rs : List BlockRequest}
    → q.end_of_piece ≡ true
    → ◌≡◌ {A = Result (List BlockRequest × Piece)} (ok ([], q)) (ok (rs, last))
    → last.end_of_piece ≡ true
ended_after q last ended e = ground arith

ask_all-AskedAll : (p : Piece) (ns : List ℕ) → IsOpen p → AskedAll p (sum ns) (ask_all p ns)
unfolding ask_all
ask_all-AskedAll p [] h = record {
  requests = [];
  after = p;
  returns = refl;
  covers = refl;
  still_open = h;
  same_length = refl;
  enough = inr (omega arith);
}
ask_all-AskedAll p (n ∷ ns) h =
    let one = get_next_request-Asked p n h in
    let q = one.after in
    let rest = ask_all-AskedAll q ns one.still_open in
    record {
      requests = one.requests ++ rest.requests;
      after = rest.after;
      returns = rw (one.returns, rest.returns);
      covers =
          Covers-append p.piece_index (position p) (position q) (position rest.after) one.requests
            rest.requests one.covers
            (subst (λ k. Covers k (position q) (position rest.after) rest.requests) one.same_index
              rest.covers);
      still_open = rest.still_open;
      same_length = rest.same_length ∙ one.same_length;
      enough = elim one.enough [
        | inl ended ↦
            inl (ended_after q rest.after ended (sym (stays_ended q ns ended) ∙ rest.returns))
        | inr e ↦ elim rest.enough [ inl ended ↦ inl ended | inr f ↦ inr (omega (arith, e.1, f)) ]
      ];
    }

-- The blocks that calls on a new piece ask for, whatever the counts, cover the piece from its start
-- to its end, if the piece has a full block at least and the counts suffice for its length.
pub ask_all-new_piece :
    (index standard len status : ℕ) (counts : List ℕ)
    → block_len ≤ len
    → len ≤ block_len * sum counts
    → (rs : List BlockRequest) × (q : Piece) × (ask_all (new_piece index standard len status) counts
        ≡ ok (rs, q))
      × Covers index 0 len rs
unfolding new_piece
ask_all-new_piece index standard len status counts whole suffices =
    let p = new_piece index standard len status in
    let all =
      ask_all-AskedAll p counts (record { whole_block = whole; inside = λ _. omega arith }) in
    let q = all.after in
    let at_end : position q ≡ len = elim all.enough [
      | inl ended ↦ rw (ended, position) all.same_length
      | inr e ↦ elim (Bool-cases q.end_of_piece) [
        | inl ended ↦ rw (ended, position) all.same_length
        | inr going ↦ absurd (omega (arith, all.still_open.inside going, e, all.same_length))
      ]
    ] in
    (all.requests, q, all.returns, subst (λ b. Covers index 0 b all.requests) at_end all.covers)
