-- ===== src/Writer/Heads.antt =====
-- One round of the loop of `writePiece`, by where the piece lies to the file.
use Prim.Native.Nat.{min, max}
use dawn_torrent.Base.{
  ℕ, ◌+◌, ◌-◌, ◌≤◌, ◌<◌, ◌≡◌, refl, ◌∙◌, false, List, ◌∷◌, Bytes, Result, ok, ◌>>=◌, length, take,
  drop, length-take, length-drop, ltb, dec_lt, if◌then◌else◌, slice, arith,
}
use dawn_torrent.Base.Int.{ℤ, pos, sub_nat}
use dawn_torrent.Torrent.{FileSegment, get_path}
use dawn_torrent.Piece.{Piece}
use dawn_torrent.Writer.{Disk, write_to_file, write_loop}
use dawn_torrent.Writer.Files.{written, write_to_file-eq}

-- Nothing fails on the disk.
pub record IsWritable (disk : Disk) : Type 0 where
  pub opens : (path : Bytes) → disk.cannot_open path ≡ false
  pub writes : (path : Bytes) → disk.cannot_write path ≡ false

-- The bytes of the piece that belong to a file from `a` to `e`.
abbrev pub share : Piece → ℕ → ℕ → Bytes
share piece a e =
    let first = piece.piece_start_index in
    take (min e (first + piece.piece_length) - max a first)
      (drop (max a first - first) piece.buffer)

module _ (join : Bytes → Bytes → Bytes) (piece : Piece) where
  abbrev first : ℕ
  first = piece.piece_start_index

  abbrev past : ℕ
  past = piece.piece_start_index + piece.piece_length

  -- The write of one slice, and the rest of the loop.
  abbrev slice_then : FileSegment → List FileSegment → ℤ → ℕ → ℕ → ℕ → Disk → Result Disk
  slice_then s ss remaining at lo hi disk = slice piece.buffer lo hi >>= λ bytes.
      write_to_file bytes (get_path join s) at disk >>= λ (n, disk').
      write_loop join piece ss (sub_nat remaining n) hi piece.piece_length disk'

  -- What it comes to where nothing fails.
  abbrev sliced : FileSegment → List FileSegment → ℤ → ℕ → ℕ → ℕ → Disk → Result Disk
  sliced s ss remaining at lo hi disk =
      let bytes = take (hi - lo) (drop lo piece.buffer) in
      write_loop join piece ss (sub_nat remaining (length bytes)) hi piece.piece_length
        (written bytes (get_path join s) at disk)

  slice_then-sliced :
      (s : FileSegment) (ss : List FileSegment) (remaining : ℤ) (at lo hi : ℕ) (disk : Disk)
      → lo ≤ hi
      → hi ≤ length piece.buffer
      → IsWritable disk
      → slice_then s ss remaining at lo hi disk ≡ sliced s ss remaining at lo hi disk
  slice_then-sliced s ss remaining at lo hi disk h k w =
      let bytes = take (hi - lo) (drop lo piece.buffer) in
      let cut : slice piece.buffer lo hi ≡ ok bytes = ground arith in
      rw (cut, write_to_file-eq bytes (get_path join s) at disk (w.opens _) (w.writes _))

  -- The loop at a file from `a` on that the piece has not passed.
  module _ (s : FileSegment) (ss : List FileSegment) (a : ℕ) (disk : Disk)
      (starts : s.start_index ≡ a) (ends : s.end_index ≡ a + s.file.length) (open_piece : a < past)
      (some_byte : 1 ≤ piece.piece_length) where
    abbrev after_file : ℕ
    after_file = a + s.file.length

    pub head_skip :
        after_file < first
        → write_loop join piece
            (s ∷ ss)
            (pos (piece.piece_length - (a - first)))
            (a - first)
            piece.piece_length
            disk
          ≡ write_loop join piece ss
              (pos (piece.piece_length - (a - first)))
              (a - first)
              piece.piece_length
              disk
    unfolding write_loop
    head_skip before = ground arith

    abbrev left : ℤ
    left = pos (piece.piece_length - (a - first))

    head_a :
        first < a
        → after_file < past
        → write_loop join piece (s ∷ ss) left (a - first) piece.piece_length disk
          ≡ slice_then s ss left 0 (a - first) (a - first + s.file.length) disk
    unfolding write_loop
    head_a h k = ground arith

    head_b :
        a ≤ first
        → first ≤ after_file
        → write_loop join piece (s ∷ ss) left (a - first) piece.piece_length disk
          ≡ slice_then s ss left
              (first - a)
              (a - first)
              (if ltb after_file past
                then piece.piece_length - (past - after_file)
                else piece.piece_length)
              disk
    unfolding write_loop
    head_b h k = ground arith

    head_c :
        first < a
        → past ≤ after_file
        → write_loop join piece (s ∷ ss) left (a - first) piece.piece_length disk
          ≡ slice_then s ss left 0 (a - first) piece.piece_length disk
    unfolding write_loop
    head_c h k = ground arith

    -- The slice is the file's share of the piece.
    sliced-share :
        (at lo hi : ℕ)
        → length piece.buffer ≡ piece.piece_length
        → first ≤ after_file
        → at ≡ max a first - a
        → lo ≡ a - first
        → hi ≡ min after_file past - first
        → sliced s ss left at lo hi disk
          ≡ write_loop join piece ss
              (pos (piece.piece_length - (min after_file past - first)))
              (min after_file past - first)
              piece.piece_length
              (written (share piece a after_file) (get_path join s) (max a first - a) disk)
    unfolding sub_nat
    sliced-share at lo hi full reaches at_eq lo_eq hi_eq =
        let path = get_path join s in
        let size : hi - lo ≡ min after_file past - max a first = omega arith in
        let low : lo ≡ max a first - first = omega arith in
        let bytes = take (hi - lo) (drop lo piece.buffer) in
        let same_bytes : bytes ≡ share piece a after_file = cc (size, low) in
        let count : length bytes ≡ hi - lo =
          omega
            (arith, length-take (hi - lo) (drop lo piece.buffer), length-drop lo piece.buffer) in
        let rest : sub_nat left (length bytes)
            ≡ pos (piece.piece_length - (min after_file past - first)) =
          ground (arith, count) in
        λ i.
          write_loop join piece ss (rest i) (hi_eq i) piece.piece_length
            (written (same_bytes i) path (at_eq i) disk)

    -- What the loop comes to behind a file that the piece reaches.
    pub head_write :
        length piece.buffer ≡ piece.piece_length
        → IsWritable disk
        → first ≤ after_file
        → write_loop join piece (s ∷ ss) left (a - first) piece.piece_length disk
          ≡ write_loop join piece ss
              (pos (piece.piece_length - (min after_file past - first)))
              (min after_file past - first)
              piece.piece_length
              (written (share piece a after_file) (get_path join s) (max a first - a) disk)
    head_write full w reaches = elim (dec_lt first a) [
      | yes later ↦ elim (dec_lt after_file past) [
        | yes inside ↦
            head_a later inside
            ∙ slice_then-sliced s ss left 0 (a - first) (a - first + s.file.length) disk
                (omega arith) (omega arith) w
            ∙ sliced-share 0 (a - first) (a - first + s.file.length) full reaches (omega arith) refl
                (omega arith)
        | no over ↦
            head_c later (omega arith)
            ∙ slice_then-sliced s ss left 0 (a - first) piece.piece_length disk (omega arith)
                (omega arith) w
            ∙ sliced-share 0 (a - first) piece.piece_length full reaches (omega arith) refl
                (omega arith)
      ]
      | no here ↦
          head_b (omega arith) reaches
          ∙ slice_then-sliced s ss left (first - a) (a - first) cut disk (ground arith)
              (ground arith) w
          ∙ sliced-share (first - a) (a - first) cut full reaches (omega arith) refl (ground arith)
    ]
      where
        cut : ℕ
        cut =
            if ltb after_file past
            then piece.piece_length - (past - after_file)
            else piece.piece_length
