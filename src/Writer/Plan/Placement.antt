-- ===== src/Writer/Plan/Placement.antt =====
-- The bytes of the files after `writePiece`.
use Prim.Native.Nat.{min, max}
use dawn_torrent.Base.{
  ℕ, zero, suc, ◌+◌, ◌-◌, ◌≤◌, ◌<◌, ◌≡◌, ◌≢◌, refl, ap, sym, subst, ◌∙◌, ◌⊎◌, inl, inr, false, ◌&&◌,
  List, [], ◌∷◌, some, Bytes, ok, length, drop, get_elem?, length-take, length-drop, get_elem?-take,
  get_elem?-drop, ltb, leb, equal_bytes_iff, arith, Bool-cases,
}
use dawn_torrent.Torrent.{FileSegment, get_path}
use dawn_torrent.Torrent.Segments.{Chain}
use dawn_torrent.Piece.{Piece}
use dawn_torrent.Writer.{Disk, write_at, write_piece}
use dawn_torrent.Writer.Files.{written, get_elem?-write_at_inside, get_elem?-write_at_outside}
use dawn_torrent.Writer.Heads.{IsWritable, share}
use dawn_torrent.Writer.Plan.{next, place, write_piece-place}

module _ (join : Bytes → Bytes → Bytes) where
  abbrev pub HasOtherPath : Bytes → List FileSegment → Type 0
  HasOtherPath q [] = Unit {0}
  HasOtherPath q (s ∷ ss) = (get_path join s ≢ q) × HasOtherPath q ss

  -- No two segments have one path.
  abbrev pub HasDistinctPaths : List FileSegment → Type 0
  HasDistinctPaths [] = Unit {0}
  HasDistinctPaths (s ∷ ss) = HasOtherPath (get_path join s) ss × HasDistinctPaths ss

  HasOtherPath-get_elem? :
      (q : Bytes) (ss : List FileSegment) (k : ℕ) (s : FileSegment)
      → HasOtherPath q ss
      → get_elem? ss k ≡ some s
      → get_path join s ≢ q
  HasOtherPath-get_elem? q [] k s h at = cc
  HasOtherPath-get_elem? q (x ∷ xs) zero s h at =
      let same : x ≡ s = ground arith in subst (λ y. get_path join y ≢ q) same h.0
  HasOtherPath-get_elem? q (x ∷ xs) (suc k) s h at = HasOtherPath-get_elem? q xs k s h.1 at

  written_elsewhere :
      (bytes path q : Bytes) (at : ℕ) (disk : Disk)
      → path ≢ q
      → (written bytes path at disk).content q ≡ disk.content q
  written_elsewhere bytes path q at disk ne = ground (arith, equal_bytes_iff q path)

  written_there :
      (bytes path : Bytes) (at : ℕ) (disk : Disk)
      → (written bytes path at disk).content path ≡ write_at (disk.content path) at bytes
  written_there bytes path at disk = ground (arith, equal_bytes_iff path path)

  module _ (piece : Piece) (full : length piece.buffer ≡ piece.piece_length) where
    abbrev first : ℕ
    first = piece.piece_start_index

    abbrev past : ℕ
    past = piece.piece_start_index + piece.piece_length

    next_elsewhere :
        (a : ℕ) (s : FileSegment) (disk : Disk) (q : Bytes)
        → get_path join s ≢ q
        → (next join piece a s disk).content q ≡ disk.content q
    next_elsewhere a s disk q ne = ground (arith, equal_bytes_iff q (get_path join s))

    next_there :
        (a : ℕ) (s : FileSegment) (disk : Disk)
        → first ≤ a + s.file.length
        → a < past
        → (next join piece a s disk).content (get_path join s)
          ≡ write_at
              (disk.content (get_path join s))
              (max a first - a)
              (share piece a (a + s.file.length))
    next_there a s disk h k = ground (arith, equal_bytes_iff (get_path join s) (get_path join s))

    place_elsewhere :
        (ss : List FileSegment) (a : ℕ) (disk : Disk) (q : Bytes)
        → HasOtherPath q ss
        → (place join piece a ss disk).content q ≡ disk.content q
    unfolding place
    place_elsewhere [] a disk q h = refl
    place_elsewhere (s ∷ ss) a disk q h =
        place_elsewhere ss (a + s.file.length) (next join piece a s disk) q h.1
        ∙ next_elsewhere a s disk q h.0

    get_elem?-share :
        (a e o : ℕ)
        → first ≤ a + o
        → a + o < min e past
        → get_elem? (share piece a e) (o - (max a first - a))
          ≡ get_elem? piece.buffer (a + o - first)
    get_elem?-share a e o lo hi =
        let k = o - (max a first - a) in
        get_elem?-take (min e past - max a first) (drop (max a first - first) piece.buffer) k
          (omega arith)
        ∙ get_elem?-drop (max a first - first) piece.buffer k
        ∙ ap (get_elem? piece.buffer) {y = a + o - first} (omega arith)

    length-share :
        (a e : ℕ)
        → length (share piece a e)
          ≡ min (min e past - max a first) (piece.piece_length - (max a first - first))
    length-share a e = omega (
      arith,
      length-take (min e past - max a first) (drop (max a first - first) piece.buffer),
      length-drop (max a first - first) piece.buffer,
    )

    -- The bytes of the file at `a` that lie in the piece, after the file's own write.
    next_bytes :
        (a o : ℕ) (s : FileSegment) (disk : Disk)
        → o < s.file.length
        → first ≤ a + o
        → a + o < past
        → get_elem? ((next join piece a s disk).content (get_path join s)) o
          ≡ get_elem? piece.buffer (a + o - first)
    next_bytes a o s disk short lo hi =
        let e = a + s.file.length in
        ap (λ c. get_elem? c o) (next_there a s disk (omega arith) (omega arith))
        ∙ get_elem?-write_at_inside (disk.content (get_path join s)) (max a first - a)
            (share piece a e) o (omega arith) (omega (arith, length-share a e))
        ∙ get_elem?-share a e o lo (omega arith)

    place_bytes :
        (ss : List FileSegment) (a total : ℕ) (disk : Disk) (k o : ℕ) (s : FileSegment)
        → Chain a total ss
        → HasDistinctPaths ss
        → get_elem? ss k ≡ some s
        → o < s.file.length
        → first ≤ s.start_index + o
        → s.start_index + o < past
        → get_elem? ((place join piece a ss disk).content (get_path join s)) o
          ≡ get_elem? piece.buffer (s.start_index + o - first)
    unfolding place
    place_bytes [] a total disk k o s chain distinct at short lo hi = cc
    place_bytes (x ∷ xs) a total disk zero o s chain distinct at short lo hi =
        let same : x ≡ s = ground arith in
        let other : HasOtherPath (get_path join s) xs =
          subst (λ y. HasOtherPath (get_path join y) xs) same distinct.0 in
        let begins : s.start_index ≡ a = ap (λ y. y.start_index) (sym same) ∙ chain.0 in
        ap (λ c. get_elem? c o)
          (place_elsewhere xs (a + x.file.length) (next join piece a x disk) (get_path join s)
            other)
        ∙ ap (λ y. get_elem? ((next join piece a y disk).content (get_path join s)) o) same
        ∙ next_bytes a o s disk short (omega arith) (omega arith)
        ∙ ap (get_elem? piece.buffer) {y = s.start_index + o - first} (omega arith)
    place_bytes (x ∷ xs) a total disk (suc k) o s chain distinct at short lo hi =
        place_bytes xs (a + x.file.length) total (next join piece a x disk) k o s chain.2 distinct.1
          at short lo hi

    -- A byte outside of the piece that was in the file stays.
    next_kept :
        (a o v : ℕ) (s : FileSegment) (disk : Disk)
        → (a + o < first) ⊎ (past ≤ a + o)
        → get_elem? (disk.content (get_path join s)) o ≡ some v
        → get_elem? ((next join piece a s disk).content (get_path join s)) o ≡ some v
    next_kept a o v s disk out old =
        let e = a + s.file.length in
        let size = length-share a e in
        let outside : (leb (max a first - a) o
              && ltb o (max a first - a + length (share piece a e)))
            ≡ false =
          ground (arith, size) in
        elim (Bool-cases (leb first e && ltb a past)) [
          | inl touched ↦
              ap (λ c. get_elem? c o) (next_there a s disk (ground arith) (ground arith))
              ∙ get_elem?-write_at_outside (disk.content (get_path join s)) (max a first - a)
                  (share piece a e) o v outside old
          | inr apart ↦ rw apart old
        ]

    place_kept :
        (ss : List FileSegment) (a total : ℕ) (disk : Disk) (k o v : ℕ) (s : FileSegment)
        → Chain a total ss
        → HasDistinctPaths ss
        → get_elem? ss k ≡ some s
        → (s.start_index + o < first) ⊎ (past ≤ s.start_index + o)
        → get_elem? (disk.content (get_path join s)) o ≡ some v
        → get_elem? ((place join piece a ss disk).content (get_path join s)) o ≡ some v
    unfolding place
    place_kept [] a total disk k o v s chain distinct at out old = cc
    place_kept (x ∷ xs) a total disk zero o v s chain distinct at out old =
        let same : x ≡ s = ground arith in
        let other : HasOtherPath (get_path join s) xs =
          subst (λ y. HasOtherPath (get_path join y) xs) same distinct.0 in
        let begins : s.start_index ≡ a = ap (λ y. y.start_index) (sym same) ∙ chain.0 in
        ap (λ c. get_elem? c o)
          (place_elsewhere xs (a + x.file.length) (next join piece a x disk) (get_path join s)
            other)
        ∙ ap (λ y. get_elem? ((next join piece a y disk).content (get_path join s)) o) same
        ∙ next_kept a o v s disk (subst (λ b. (b + o < first) ⊎ (past ≤ b + o)) begins out) old
    place_kept (x ∷ xs) a total disk (suc k) o v s chain distinct at out old =
        let apart : get_path join x ≢ get_path join s =
          λ e. HasOtherPath-get_elem? (get_path join x) xs k s distinct.0 at (sym e) in
        place_kept xs (a + x.file.length) total (next join piece a x disk) k o v s chain.2
          distinct.1 at out
          (ap (λ c. get_elem? c o) (next_elsewhere a x disk (get_path join s) apart) ∙ old)

  place-IsWritable :
      (piece : Piece) (ss : List FileSegment) (a : ℕ) (disk : Disk)
      → IsWritable disk
      → IsWritable (place join piece a ss disk)
  unfolding place
  place-IsWritable piece [] a disk w = w
  place-IsWritable piece (s ∷ ss) a disk w =
      place-IsWritable piece ss (a + s.file.length) (next join piece a s disk) (record {
        opens = λ q. ground (arith, w.opens q);
        writes = λ q. ground (arith, w.writes q);
      })

  pub all_bytes :
      (piece : Piece) (segments : List FileSegment) (total : ℕ) (disk : Disk)
      → Chain 0 total segments
      → HasDistinctPaths segments
      → piece.piece_start_index + piece.piece_length ≤ total
      → length piece.buffer ≡ piece.piece_length
      → 1 ≤ piece.piece_length
      → IsWritable disk
      → (after : Disk) × (write_piece join piece segments disk ≡ ok after)
        × ((k o : ℕ) (s : FileSegment)
            → get_elem? segments k ≡ some s
            → o < s.file.length
            → piece.piece_start_index ≤ s.start_index + o
            → s.start_index + o < piece.piece_start_index + piece.piece_length
            → get_elem? (after.content (get_path join s)) o
              ≡ get_elem? piece.buffer (s.start_index + o - piece.piece_start_index))
        × ((k o v : ℕ) (s : FileSegment)
            → get_elem? segments k ≡ some s
            → (s.start_index + o < piece.piece_start_index)
              ⊎ (piece.piece_start_index + piece.piece_length ≤ s.start_index + o)
            → get_elem? (disk.content (get_path join s)) o ≡ some v
            → get_elem? (after.content (get_path join s)) o ≡ some v)
        × ((q : Bytes) → HasOtherPath q segments → after.content q ≡ disk.content q)
        × IsWritable after
  all_bytes piece segments total disk chain distinct inside full some_byte w = (
    place join piece 0 segments disk,
    write_piece-place join piece segments total disk chain inside full some_byte w,
    λ k o s. place_bytes piece full segments 0 total disk k o s chain distinct,
    λ k o v s. place_kept piece full segments 0 total disk k o v s chain distinct,
    λ q. place_elsewhere piece full segments 0 disk q,
    place-IsWritable piece segments 0 disk w,
  )

  module _ (piece : Piece) (segments : List FileSegment) (total : ℕ) (disk : Disk)
      (chain : Chain 0 total segments) (distinct : HasDistinctPaths segments)
      (inside : piece.piece_start_index + piece.piece_length ≤ total)
      (full : length piece.buffer ≡ piece.piece_length) (some_byte : 1 ≤ piece.piece_length)
      (writable : IsWritable disk) where
    -- The segments lie one behind the other under distinct paths, the piece is full and inside of
    -- the torrent, and nothing on the disk fails. Then `writePiece` returns no error, and every byte
    -- of a file that lies in the piece is the piece's byte at that place of the torrent.
    pub write_piece_bytes :
        (k o : ℕ) (s : FileSegment)
        → get_elem? segments k ≡ some s
        → o < s.file.length
        → piece.piece_start_index ≤ s.start_index + o
        → s.start_index + o < piece.piece_start_index + piece.piece_length
        → (after : Disk) × (write_piece join piece segments disk ≡ ok after)
          × (get_elem? (after.content (get_path join s)) o
              ≡ get_elem? piece.buffer (s.start_index + o - piece.piece_start_index))
    write_piece_bytes k o s at within low high =
        let r = all_bytes piece segments total disk chain distinct inside full some_byte writable in
        (r.0, r.1, r.2 k o s at within low high)

    -- The segments lie one behind the other under distinct paths, the piece is full and inside of
    -- the torrent, and nothing on the disk fails. Then `writePiece` returns no error, and a byte that
    -- was in a file outside of the piece is kept.
    pub write_piece_keeps :
        (k o v : ℕ) (s : FileSegment)
        → get_elem? segments k ≡ some s
        → (s.start_index + o < piece.piece_start_index)
          ⊎ (piece.piece_start_index + piece.piece_length ≤ s.start_index + o)
        → get_elem? (disk.content (get_path join s)) o ≡ some v
        → (after : Disk) × (write_piece join piece segments disk ≡ ok after)
          × (get_elem? (after.content (get_path join s)) o ≡ some v)
    write_piece_keeps k o v s at outside old =
        let r = all_bytes piece segments total disk chain distinct inside full some_byte writable in
        (r.0, r.1, r.3 k o v s at outside old)
