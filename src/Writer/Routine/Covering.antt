-- ===== src/Writer/Routine/Covering.antt =====
-- The bytes of the files after the routine has written several pieces of one torrent.
use dawn_torrent.Base.{
  ℕ, ◌+◌, ◌-◌, ◌≤◌, ◌<◌, ◌≡◌, ◌⊎◌, inl, inr, refl, sym, ap, ◌∙◌, List, [], ◌∷◌, some, Bytes, ok,
  All, length, take, drop, get_elem?, get_elem?-some, get_elem?-take, get_elem?-drop, length-take,
  length-drop, dec_lt, arith,
}
use dawn_torrent.Torrent.{FileSegment, get_path}
use dawn_torrent.Torrent.Segments.{Chain}
use dawn_torrent.Piece.{Piece}
use dawn_torrent.Writer.{Disk, write_piece}
use dawn_torrent.Writer.Heads.{IsWritable}
use dawn_torrent.Writer.Plan.Placement.{HasDistinctPaths, all_bytes}
use dawn_torrent.Writer.Routine.{write}

-- A piece that is not empty and holds the torrent's bytes at its place.
pub record HoldsData (content : Bytes) (p : Piece) : Type 0 where
  pub some_byte : 1 ≤ p.piece_length
  pub inside : p.piece_start_index + p.piece_length ≤ length content
  pub buffer : p.buffer ≡ take p.piece_length (drop p.piece_start_index content)

abbrev pub InPiece : Piece → ℕ → Type 0
InPiece p x = (p.piece_start_index ≤ x) × (x < p.piece_start_index + p.piece_length)

-- The place lies in one of the pieces.
abbrev pub IsCovered : ℕ → List Piece → Type 0
IsCovered x [] = ⊥
IsCovered x (p ∷ ps) = InPiece p x ⊎ IsCovered x ps

module _ (content : Bytes) (p : Piece) (h : HoldsData content p) where
  length-buffer : length p.buffer ≡ p.piece_length
  length-buffer =
      ap length h.buffer
      ∙ omega (
        arith,
        h.inside,
        length-take p.piece_length (drop p.piece_start_index content),
        length-drop p.piece_start_index content,
      )

  get_elem?-buffer :
      (x : ℕ)
      → p.piece_start_index ≤ x
      → x < p.piece_start_index + p.piece_length
      → get_elem? p.buffer (x - p.piece_start_index) ≡ get_elem? content x
  get_elem?-buffer x lo hi =
      let k = x - p.piece_start_index in
      ap (λ b. get_elem? b k) h.buffer
      ∙ get_elem?-take p.piece_length (drop p.piece_start_index content) k (omega arith)
      ∙ get_elem?-drop p.piece_start_index content k
      ∙ ap (get_elem? content) {y = x} (omega arith)

module _ (join : Bytes → Bytes → Bytes) (segments : List FileSegment) (content : Bytes)
    (chain : Chain 0 (length content) segments) (distinct : HasDistinctPaths join segments) where
  -- The byte of a file that stands at a place of the torrent is the torrent's.
  abbrev IsRight : Disk → FileSegment → ℕ → Type 0
  IsRight disk s o =
      get_elem? (disk.content (get_path join s)) o ≡ get_elem? content (s.start_index + o)

  -- A byte outside of the piece stays right.
  stays-IsRight :
      (p : Piece) (disk after : Disk) (k o : ℕ) (s : FileSegment)
      → ((v : ℕ)
          → get_elem? (disk.content (get_path join s)) o ≡ some v
          → get_elem? (after.content (get_path join s)) o ≡ some v)
      → s.start_index + o < length content
      → IsRight disk s o
      → IsRight after s o
  stays-IsRight p disk after k o s keeps below was =
      let (v, at) = get_elem?-some content (s.start_index + o) below in keeps v (was ∙ at) ∙ sym at

  -- What one piece does: it makes its own bytes right, and leaves right what was right.
  write_piece-IsRight :
      (p : Piece) (disk : Disk)
      → HoldsData content p
      → IsWritable disk
      → (after : Disk) × (write_piece join p segments disk ≡ ok after)
        × IsWritable after
        × ((k o : ℕ) (s : FileSegment)
            → get_elem? segments k ≡ some s
            → o < s.file.length
            → s.start_index + o < length content
            → InPiece p (s.start_index + o) ⊎ IsRight disk s o
            → IsRight after s o)
  write_piece-IsRight p disk h w =
      let full = length-buffer content p h in
      let r =
        all_bytes join p segments (length content) disk chain distinct h.inside full h.some_byte
          w in
      let right : (k o : ℕ) (s : FileSegment)
          → get_elem? segments k ≡ some s
          → o < s.file.length
          → s.start_index + o < length content
          → InPiece p (s.start_index + o) ⊎ IsRight disk s o
          → IsRight r.0 s o =
        λ k o s at within below was. elim (dec_lt (s.start_index + o) p.piece_start_index) [
          | yes before ↦ elim was [
            | inl here ↦ absurd (omega (arith, here.0))
            | inr was_right ↦
                stays-IsRight p disk r.0 k o s (λ v. r.3 k o v s at (inl before)) below was_right
          ]
          | no from_start ↦
              elim (dec_lt (s.start_index + o) (p.piece_start_index + p.piece_length)) [
                | yes inner ↦
                    r.2 k o s at within (omega arith) inner
                    ∙ get_elem?-buffer content p h (s.start_index + o) (omega arith) inner
                | no behind ↦ elim was [
                  | inl here ↦ absurd (omega (arith, here.1))
                  | inr was_right ↦
                      stays-IsRight p disk r.0 k o s (λ v. r.3 k o v s at (inr (omega arith))) below
                        was_right
                ]
              ]
        ] in
      (r.0, r.1, r.5, right)

  -- All the pieces, one after the other.
  pub write-IsRight :
      (ps : List Piece) (disk : Disk)
      → All (HoldsData content) ps
      → IsWritable disk
      → (after : Disk) × (write join segments ps disk ≡ ok after)
        × ((k o : ℕ) (s : FileSegment)
            → get_elem? segments k ≡ some s
            → o < s.file.length
            → s.start_index + o < length content
            → IsCovered (s.start_index + o) ps ⊎ IsRight disk s o
            → IsRight after s o)
  unfolding write
  write-IsRight [] disk h w = (
    disk,
    refl,
    λ k o s at within below was. elim was [
      | inl nowhere ↦ absurd nowhere
      | inr was_right ↦ was_right
    ],
  )
  write-IsRight (p ∷ ps) disk (h, hs) w =
      let (middle, writes, w', first) = write_piece-IsRight p disk h w in
      let (after, rest, then) = write-IsRight ps middle hs w' in
      let covers : (k o : ℕ) (s : FileSegment)
          → get_elem? segments k ≡ some s
          → o < s.file.length
          → s.start_index + o < length content
          → IsCovered (s.start_index + o) (p ∷ ps) ⊎ IsRight disk s o
          → IsRight after s o =
        λ k o s at within below was. then k o s at within below (elim was [
          | inl (inl here) ↦ inr (first k o s at within below (inl here))
          | inl (inr later) ↦ inl later
          | inr was_right ↦ inr (first k o s at within below (inr was_right))
        ]) in
      (after, rw (write, writes) rest, covers)
