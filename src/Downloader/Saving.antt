-- ===== src/Downloader/Saving.antt =====
-- core/downloader.go: from the workers' pieces to the files of the torrent.
use dawn_torrent.Base.{
  ok-injective, ℕ, zero, suc, ◌+◌, ◌≤◌, ◌<◌, ◌≡◌, inl, inr, refl, sym, ◌∙◌, List, [], ◌∷◌, some,
  Bytes, ok, map, All, length, take, drop, get_elem?, get_elem?-some, dec_lt, arith, ℕ_discrete,
  subst, true, false,
}
use dawn_torrent.Torrent.{FileSegment, Torrent, get_path, build_file_segment}
use dawn_torrent.Torrent.Segments.{Chain, build_file_segment-IsLaidOut}
use dawn_torrent.Piece.{Piece}
use dawn_torrent.Writer.{Disk}
use dawn_torrent.Writer.Heads.{IsWritable}
use dawn_torrent.Writer.Plan.Placement.{HasDistinctPaths}
use dawn_torrent.Writer.Routine.{write}
use dawn_torrent.Writer.Routine.Covering.{HoldsData, InPiece, IsCovered, write-IsRight}
use dawn_torrent.Downloader.{Downloader, new_torrent_downloader}
use dawn_torrent.Downloader.Pieces.{Tiles}
use dawn_torrent.Downloader.Selection.{new_torrent_downloader-IsSequential}
use dawn_torrent.Downloader.Workers.{Crew, Event, start_crew, run}
use dawn_torrent.Downloader.Workers.Counting.{count}
use dawn_torrent.Downloader.Workers.Safety.{run_reported, run_written_below}

-- The piece that holds a place, and the bounds of each piece.
Tiles-find :
    (size i a b : ℕ) (ps : List Piece) (x : ℕ)
    → Tiles size i a b ps
    → a ≤ x
    → x < b
    → (k : ℕ) × (p : Piece) × (k < length ps) × (get_elem? ps k ≡ some p) × InPiece p x
Tiles-find size i a b [] x t lo hi = absurd (omega (arith, t))
Tiles-find size i a b (p ∷ ps) x (index, start, some_byte, short, t) lo hi =
    elim (dec_lt x (a + p.piece_length)) [
      | yes inner ↦ (0, p, omega arith, refl, (omega arith, omega arith))
      | no behind ↦
          let (k, q, below, at, here) =
            Tiles-find size (i + 1) (a + p.piece_length) b ps x t (omega arith) hi in
          (suc k, q, omega arith, at, here)
    ]

Tiles-end : (size i a b : ℕ) (ps : List Piece) → Tiles size i a b ps → a ≤ b
Tiles-end size i a b [] t = omega (arith, t)
Tiles-end size i a b (p ∷ ps) t =
    omega (arith, Tiles-end size (i + 1) (a + p.piece_length) b ps t.4)

Tiles-bounds :
    (size i a b : ℕ) (ps : List Piece) (k : ℕ) (p : Piece)
    → Tiles size i a b ps
    → get_elem? ps k ≡ some p
    → (1 ≤ p.piece_length) × (p.piece_start_index + p.piece_length ≤ b)
Tiles-bounds size i a b [] k p t at = absurd (ground (arith, at))
Tiles-bounds size i a b (q ∷ ps) zero p t at =
    let e = Tiles-end size (i + 1) (a + q.piece_length) b ps t.4 in ground (arith, at, t, e)
Tiles-bounds size i a b (q ∷ ps) (suc k) p t at =
    Tiles-bounds size (i + 1) (a + q.piece_length) b ps k p t.4 at

All-map :
    (P : Piece → Type 0) (f : ℕ → Piece) (js : List ℕ)
    → ((i : ℕ) → 0 < count i js → P (f i))
    → All P (map f js)
All-map P f [] h = tt
All-map P f (j ∷ js) h = (h j (ground arith), All-map P f js (λ i c. h i (omega (arith, c))))

IsCovered-map :
    (f : ℕ → Piece) (x k : ℕ) (js : List ℕ)
    → InPiece (f k) x
    → 0 < count k js
    → IsCovered x (map f js)
IsCovered-map f x k [] here c = absurd (omega (arith, c))
IsCovered-map f x k (j ∷ js) here c = elim (ℕ_discrete k j) [
  | yes same ↦ inl (subst (λ i. InPiece (f i) x) same here)
  | no other ↦ inr (IsCovered-map f x k js here (ground (arith, c, other)))
]

-- `filled` gives the pieces of a downloader with the bytes that they have come to hold.
pub record IsFilled (content : Bytes) (d : Downloader) (filled : ℕ → Piece) : Type 0 where
  pub start :
      (i : ℕ) (p : Piece)
      → get_elem? d.queue.pieces i ≡ some p
      → (filled i).piece_start_index ≡ p.piece_start_index
  pub size :
      (i : ℕ) (p : Piece)
      → get_elem? d.queue.pieces i ≡ some p
      → (filled i).piece_length ≡ p.piece_length
  pub buffer :
      (i : ℕ) (p : Piece)
      → get_elem? d.queue.pieces i ≡ some p
      → (filled i).buffer ≡ take (filled i).piece_length (drop (filled i).piece_start_index content)

pub new_torrent_downloader-Tiles :
    (total size : ℕ) (d : Downloader)
    → 0 < size
    → new_torrent_downloader total size ≡ ok d
    → Tiles size 0 0 total d.queue.pieces
new_torrent_downloader-Tiles total size d some_size made =
    let (d', made', s, start, tiles) = new_torrent_downloader-IsSequential total size some_size in
    subst (λ x. Tiles size 0 0 total x.queue.pieces) (ok-injective d' d (sym made' ∙ made)) tiles

Chain-end : (a b : ℕ) (ss : List FileSegment) → Chain a b ss → a ≤ b
Chain-end a b [] c = omega (arith, c)
Chain-end a b (s ∷ ss) c = omega (arith, Chain-end (a + s.file.length) b ss c.2)

Chain-below :
    (a b : ℕ) (ss : List FileSegment) (k o : ℕ) (s : FileSegment)
    → Chain a b ss
    → get_elem? ss k ≡ some s
    → o < s.file.length
    → s.start_index + o < b
Chain-below a b [] k o s c at within = absurd (ground (arith, at))
Chain-below a b (x ∷ xs) zero o s c at within =
    let e = Chain-end (a + x.file.length) b xs c.2 in ground (arith, at, c.0, e)
Chain-below a b (x ∷ xs) (suc k) o s c at within =
    Chain-below (a + x.file.length) b xs k o s c.2 at within

module _ (join : Bytes → Bytes → Bytes) (u : Torrent) (content : Bytes) (d : Downloader)
    (es : List Event) (s : Crew) (filled : ℕ → Piece) (some_size : 0 < u.piece_length)
    (made : new_torrent_downloader u.length u.piece_length ≡ ok d)
    (runs : run es (start_crew d) ≡ some s) (whole : length content ≡ u.length)
    (fills : IsFilled content d filled) where
  filled-HoldsData : (i : ℕ) → 0 < count i s.written → HoldsData content (filled i)
  filled-HoldsData i c =
      let below = run_written_below u.length u.piece_length d es s i some_size made runs c in
      let (p, at) = get_elem?-some d.queue.pieces i below in
      let tiles = new_torrent_downloader-Tiles u.length u.piece_length d some_size made in
      let bounds = Tiles-bounds u.piece_length 0 0 u.length d.queue.pieces i p tiles at in
      record {
        some_byte = omega (arith, bounds, fills.size i p at);
        inside = omega (arith, bounds, fills.size i p at, fills.start i p at, whole);
        buffer = fills.buffer i p at;
      }

  written-IsCovered :
      (x : ℕ)
      → s.cancelled ≡ false
      → s.reported ≡ true
      → x < u.length
      → IsCovered x (map filled s.written)
  written-IsCovered x on reported below =
      let tiles = new_torrent_downloader-Tiles u.length u.piece_length d some_size made in
      let (k, p, inside, at, here) =
        Tiles-find u.piece_length 0 0 u.length d.queue.pieces x tiles (omega arith) below in
      let once =
        run_reported u.length u.piece_length d es s k some_size made runs on reported inside in
      IsCovered-map filled x k s.written
        (
          omega (arith, here, fills.start k p at),
          omega (arith, here, fills.start k p at, fills.size k p at),
        )
        (omega (arith, once))

pub built-Chain : (t u : Torrent) → build_file_segment t ≡ ok u → Chain 0 u.length u.file_segments
built-Chain t u built =
    let (v, returns, laid) = build_file_segment-IsLaidOut t in
    let same : v ≡ u = ok-injective v u (sym returns ∙ built) in
    subst (λ x. Chain 0 x.length x.file_segments) same laid.chain

-- A torrent's segments are those that `buildFileSegment` makes, with distinct paths, the piece length
-- is positive, and nothing on the disk fails. The workers of a new downloader report completion
-- without having been cancelled, after any order of events, and each piece they gave to the writing
-- routine holds the content's bytes at its place. Then that routine ends without an error, and each
-- byte of each file of the torrent is the content's byte at its place.
pub write-run_reported :
    (join : Bytes → Bytes → Bytes) (t u : Torrent) (content : Bytes) (d : Downloader)
    (es : List Event) (s : Crew) (filled : ℕ → Piece) (disk : Disk)
    → build_file_segment t ≡ ok u
    → HasDistinctPaths join u.file_segments
    → 0 < u.piece_length
    → IsWritable disk
    → length content ≡ u.length
    → new_torrent_downloader u.length u.piece_length ≡ ok d
    → run es (start_crew d) ≡ some s
    → s.cancelled ≡ false
    → s.reported ≡ true
    → IsFilled content d filled
    → (after : Disk) × (write join u.file_segments (map filled s.written) disk ≡ ok after)
      × ((k o : ℕ) (f : FileSegment)
          → get_elem? u.file_segments k ≡ some f
          → o < f.file.length
          → get_elem? (after.content (get_path join f)) o ≡ get_elem? content (f.start_index + o))
write-run_reported join t u content d es s filled disk built distinct some_size w whole made runs on
      reported fills =
    let chain = built-Chain t u built in
    let holds = filled-HoldsData join u content d es s filled some_size made runs whole fills in
    let (after, writes, right) =
      write-IsRight join u.file_segments content
        (subst (λ n. Chain 0 n u.file_segments) (sym whole) chain) distinct (map filled s.written)
        disk (All-map (HoldsData content) filled s.written holds) w in
    (
      after,
      writes,
      λ k o f at within.
          let below = Chain-below 0 u.length u.file_segments k o f chain at within in
          let covered =
            written-IsCovered join u content d es s filled some_size made runs whole fills
              (f.start_index + o) on reported below in
          right k o f at within (omega (arith, below, whole)) (inl covered),
    )
