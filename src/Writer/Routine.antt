-- ===== src/Writer/Routine.antt =====
-- core/downloader.go: `write`, the routine that writes the completed pieces.
pub mod Covering
use dawn_torrent.Base.{List, [], ◌∷◌, Bytes, Result, ok, err, panic}
use dawn_torrent.Torrent.{FileSegment}
use dawn_torrent.Piece.{Piece}
use dawn_torrent.Writer.{Disk, write_piece}

-- The pieces that come through `writerChan`, in their order; an error ends the process by `log.Fatal`.
unfoldable pub write : (Bytes → Bytes → Bytes) → List FileSegment → List Piece → Disk → Result Disk
write join segments [] disk = ok disk
write join segments (piece ∷ pieces) disk = elim (write_piece join piece segments disk) [
  | ok disk' ↦ write join segments pieces disk'
  | err e ↦ panic
  | panic ↦ panic
]
