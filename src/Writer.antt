-- ===== src/Writer.antt =====
-- core/writer.go: a completed piece written into the files of the torrent.
-- A file is known by the path that `GetPath` gives; making parent directories changes no content.
pub mod Files
pub mod Heads
pub mod Plan
pub mod Routine
use dawn_torrent.Base.{
  ℕ, ◌+◌, ◌-◌, Bool, true, false, ◌&&◌, List, [], ◌∷◌, ◌++◌, Bytes, Result, ok, err, panic, ◌>>=◌,
  io_failed, length, splice, replicate, ltb, leb, if◌then◌else◌, slice, equal_bytes,
}
use dawn_torrent.Base.Int.{ℤ, pos, equal_ℤ, sub_nat}
use dawn_torrent.Torrent.{FileSegment, get_path}
use dawn_torrent.Piece.{Piece}

-- The contents of all files, and the paths at which opening or writing fails.
pub record Disk : Type 0 where
  pub content : Bytes → Bytes
  pub cannot_open : Bytes → Bool
  pub cannot_write : Bytes → Bool

-- `WriteAt`: a gap before the offset is filled with zeros; no bytes write nothing.
unfoldable pub write_at : Bytes → ℕ → Bytes → Bytes
write_at old start [] = old
write_at old start (b ∷ bs) =
    splice (old ++ replicate (start + length (b ∷ bs) - length old) 0) start (b ∷ bs)

-- A failed write panics, since the error is handed to `log.Panicf`.
unfoldable pub write_to_file : Bytes → Bytes → ℕ → Disk → Result (ℕ × Disk)
unfolding write_at
write_to_file bytes path start disk =
    if disk.cannot_open path
    then err io_failed
    else if disk.cannot_write path
    then panic
    else ok (
      length bytes,
      record disk {
        content = λ q.
            if equal_bytes q path then write_at (disk.content path) start bytes else disk.content q;
      },
    )

module _ (join : Bytes → Bytes → Bytes) (piece : Piece) where
  abbrev abs_start : ℕ
  abs_start = piece.piece_start_index

  abbrev abs_end : ℕ
  abs_end = piece.piece_start_index + piece.piece_length

  -- The file lies inside of the piece.
  case_a : FileSegment → Bool
  case_a s = ltb abs_start s.start_index && ltb s.end_index abs_end

  -- The piece starts in the file.
  case_b : FileSegment → Bool
  case_b s = leb s.start_index abs_start && leb abs_start s.end_index

  -- The piece ends in the file.
  case_c : FileSegment → Bool
  case_c s = leb abs_start s.start_index && leb abs_end s.end_index

  -- The loop over the segments, with the bytes that remain and the ends of the next slice.
  pub write_loop : List FileSegment → ℤ → ℕ → ℕ → Disk → Result Disk
  unfolding case_a case_b case_c
  write_loop [] remaining from to disk = ok disk
  write_loop (s ∷ ss) remaining from to disk =
      let go = λ (at lo hi : ℕ).
        (slice piece.buffer lo hi >>= λ bytes.
        write_to_file bytes (get_path join s) at disk >>= λ (n, disk').
        write_loop ss (sub_nat remaining n) hi piece.piece_length disk') in
      let skip = write_loop ss remaining from to disk in
      if equal_ℤ remaining (pos 0)
      then ok disk
      else if case_a s
      then go 0 (s.start_index - abs_start) (s.start_index - abs_start + s.file.length)
      else if case_b s
      then go (abs_start - s.start_index) from
          (if ltb s.end_index abs_end then piece.piece_length - (abs_end - s.end_index) else to)
      else if case_c s
      then go 0 (s.start_index - abs_start) piece.piece_length
      else skip

  unfoldable pub write_piece : List FileSegment → Disk → Result Disk
  unfolding write_loop
  write_piece segments disk = write_loop segments (pos piece.piece_length) 0 piece.piece_length disk
