-- ===== src/Writer/Plan.antt =====
-- The loop of `writePiece` against the intersection of the piece with each file.
pub mod Placement
use Prim.Native.Nat.{min, max}
use dawn_torrent.Base.{
  ℕ, suc, ◌+◌, ◌-◌, ◌≤◌, ◌<◌, ◌≡◌, refl, ap, sym, ◌∙◌, ◌⊎◌, inl, inr, Bool, true, false, ◌&&◌, List,
  [], ◌∷◌, Bytes, Result, ok, ◌>>=◌, All, length, take, drop, length-take, length-drop, ltb, leb,
  dec_lt, if◌then◌else◌, slice, arith,
}
use dawn_torrent.Base.Int.{ℤ, pos, sub_nat}
use dawn_torrent.Torrent.{FileSegment, get_path}
use dawn_torrent.Torrent.Segments.{Chain}
use dawn_torrent.Piece.{Piece}
use dawn_torrent.Writer.{Disk, write_to_file, write_loop, write_piece, case_a, case_b, case_c}
use dawn_torrent.Writer.Files.{written, write_to_file-eq}
use dawn_torrent.Writer.Heads.{IsWritable, share, head_skip, head_write}

leb_of_le : (a b : ℕ) → a ≤ b → leb a b ≡ true
leb_of_le a b h = ground arith

ltb_of_lt : (a b : ℕ) → a < b → ltb a b ≡ true
ltb_of_lt a b h = ground arith

module _ (join : Bytes → Bytes → Bytes) (piece : Piece) where
  abbrev first : ℕ
  first = piece.piece_start_index

  abbrev past : ℕ
  past = piece.piece_start_index + piece.piece_length

  -- The disk with the share of the file at `a` written, if the piece touches that file.
  abbrev pub next : ℕ → FileSegment → Disk → Disk
  next a s disk =
      let e = a + s.file.length in
      if leb first e && ltb a past
      then written (share piece a e) (get_path join s) (max a first - a) disk
      else disk

  -- All files get their shares, from the file at `a` on.
  pub place : ℕ → List FileSegment → Disk → Disk
  place a [] disk = disk
  place a (s ∷ ss) disk = place (a + s.file.length) ss (next a s disk)

  module _ (full : length piece.buffer ≡ piece.piece_length)
      (some_byte : 1 ≤ piece.piece_length) where
    place-past : (a : ℕ) (ss : List FileSegment) (disk : Disk) → past ≤ a → place a ss disk ≡ disk
    unfolding place
    place-past a [] disk h = refl
    place-past a (s ∷ ss) disk h = ground (arith, place-past (a + s.file.length) ss disk)

    write_loop_done :
        (ss : List FileSegment) (a from to : ℕ) (disk : Disk)
        → past ≤ a
        → write_loop join piece ss (pos 0) from to disk ≡ ok (place a ss disk)
    unfolding write_loop
    write_loop_done [] a from to disk h = ap ok (sym (place-past a [] disk h))
    write_loop_done (s ∷ ss) a from to disk h = ap ok (sym (place-past a (s ∷ ss) disk h))

    written-IsWritable :
        (bytes path : Bytes) (at : ℕ) (disk : Disk)
        → IsWritable disk
        → IsWritable (written bytes path at disk)
    written-IsWritable bytes path at disk w = record { opens = w.opens; writes = w.writes }

    place_before :
        (s : FileSegment) (ss : List FileSegment) (a : ℕ) (disk : Disk)
        → a + s.file.length < first
        → place (a + s.file.length) ss disk ≡ place a (s ∷ ss) disk
    unfolding place
    place_before s ss a disk before = ap (place (a + s.file.length) ss) (ground arith)

    place_reached :
        (s : FileSegment) (ss : List FileSegment) (a : ℕ) (disk : Disk)
        → a < past
        → first ≤ a + s.file.length
        → place
            (a + s.file.length)
            ss
            (written (share piece a (a + s.file.length)) (get_path join s) (max a first - a) disk)
          ≡ place a (s ∷ ss) disk
    unfolding place
    place_reached s ss a disk open_piece reaches =
        rw (leb_of_le first (a + s.file.length) reaches, ltb_of_lt a past open_piece)

    write_loop-place :
        (ss : List FileSegment) (a total : ℕ) (disk : Disk)
        → Chain a total ss
        → past ≤ total
        → a < past
        → IsWritable disk
        → write_loop join piece ss
            (pos (piece.piece_length - (a - first)))
            (a - first)
            piece.piece_length
            disk
          ≡ ok (place a ss disk)
    write_loop-place [] a total disk chain inside open_piece w = absurd (omega arith)
    write_loop-place (s ∷ ss) a total disk (starts, ends, chain) inside open_piece w =
        let e = a + s.file.length in
        let path = get_path join s in
        let disk' = written (share piece a e) path (max a first - a) disk in
        let w' = written-IsWritable (share piece a e) path (max a first - a) disk w in
        let n = piece.piece_length in
        elim (dec_lt e first) [
          | yes before ↦
              let same : a - first ≡ e - first = omega arith in
              head_skip join piece s ss a disk starts ends open_piece some_byte before
              ∙ (λ i. write_loop join piece ss (pos (n - same i)) (same i) n disk)
              ∙ write_loop-place ss e total disk chain inside (omega arith) w
              ∙ ap ok (place_before s ss a disk before)
          | no reached ↦
              head_write join piece s ss a disk starts ends open_piece some_byte full w
                (omega arith)
              ∙ elim (dec_lt e past) [
                | yes inner ↦
                    let same : min e past - first ≡ e - first = omega arith in
                    (λ i. write_loop join piece ss (pos (n - same i)) (same i) n disk')
                    ∙ write_loop-place ss e total disk' chain inside inner w'
                | no end ↦
                    let none_left : n - (min e past - first) ≡ 0 = omega arith in
                    (λ i. write_loop join piece ss (pos (none_left i)) (min e past - first) n disk')
                    ∙ write_loop_done ss e (min e past - first) n disk' (omega arith)
              ]
              ∙ ap ok (place_reached s ss a disk open_piece (omega arith))
        ]

  -- Where nothing on the disk fails, `writePiece` gives each file that the piece touches exactly its
  -- share of the piece, at the share's offset in the file, and returns no error.
  pub write_piece-place :
      (segments : List FileSegment) (total : ℕ) (disk : Disk)
      → Chain 0 total segments
      → past ≤ total
      → length piece.buffer ≡ piece.piece_length
      → 1 ≤ piece.piece_length
      → IsWritable disk
      → write_piece join piece segments disk ≡ ok (place 0 segments disk)
  unfolding write_piece
  write_piece-place segments total disk chain inside full some_byte w =
      let from_start : 0 ≡ 0 - first = omega arith in
      let all_left : piece.piece_length ≡ piece.piece_length - (0 - first) = omega arith in
      (λ i.
        write_loop join piece segments (pos (all_left i)) (from_start i) piece.piece_length disk)
      ∙ write_loop-place full some_byte segments 0 total disk chain inside (omega arith) w
