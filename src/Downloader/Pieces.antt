-- ===== src/Downloader/Pieces.antt =====
-- The pieces and the queue that `buildQueue` makes.
use native.Mathlib.Nat.{mod-lt, mul-le-mul_left}
use native.Mathlib.Omega.{div_any}
use dawn_torrent.Base.{
  ℕ, zero, suc, ◌+◌, ◌-◌, ◌*◌, ◌≤◌, ◌<◌, ◌≡◌, refl, sym, ap, ◌∙◌, subst, List, [], ◌∷◌, ◌++◌, some,
  ok, length, get_elem?, set, length-append, get_elem?-append_left, get_elem?-append_right, ltb,
  dec_lt, if◌then◌else◌, arith,
}
use dawn_torrent.Base.Int.{pos}
use dawn_torrent.Piece.{Piece, new_piece, ceil_div}
use dawn_torrent.Downloader.Queue.{DownloadQueue, entry, push, place_at}
use dawn_torrent.Downloader.Queue.Level.{IsLevel, fix_queue-level, init-level}
use dawn_torrent.Downloader.{piece_at, build_loop, build_queue}

-- The pieces lie from `a` to `b` without a gap, numbered from `i` on, none of them empty or longer
-- than the torrent's piece length.
abbrev pub Tiles : ℕ → ℕ → ℕ → ℕ → List Piece → Type 0
Tiles size i a b [] = a ≡ b
Tiles size i a b (p ∷ ps) =
    (p.piece_index ≡ i)
    × (p.piece_start_index ≡ a)
    × (1 ≤ p.piece_length)
    × (p.piece_length ≤ size)
    × Tiles size (i + 1) (a + p.piece_length) b ps

-- The indices below `n`.
abbrev pub upto : ℕ → List ℕ
upto zero = []
upto (suc n) = upto n ++ (n ∷ [])

pub length-upto : (n : ℕ) → length (upto n) ≡ n
length-upto zero = refl
length-upto (suc n) = omega (arith, length-append (upto n) (n ∷ []), length-upto n)

get_elem?-upto : (n i : ℕ) → i < n → get_elem? (upto n) i ≡ some i
get_elem?-upto zero i h = absurd (omega arith)
get_elem?-upto (suc n) i h = elim (dec_lt i n) [
  | yes below ↦
      get_elem?-append_left (upto n) (n ∷ []) i (omega (arith, length-upto n))
      ∙ get_elem?-upto n i below
  | no last ↦
      let same : i ≡ length (upto n) = omega (arith, length-upto n) in
      ground (
        arith,
        get_elem?-append_right (upto n) (n ∷ []) i (omega (arith, length-upto n)),
        length-upto n,
      )
]

module _ (total size : ℕ) where
  -- The piece at a place of the queue.
  abbrev placed : ℕ → Piece
  placed i = record (piece_at total size i) { queue_index = pos i }

  made : ℕ → List Piece
  made zero = []
  made (suc n) = made n ++ (placed n ∷ [])

  length-made : (n : ℕ) → length (made n) ≡ n
  unfolding made
  length-made zero = refl
  length-made (suc n) = omega (arith, length-append (made n) (placed n ∷ []), length-made n)

  get_elem?-made : (n i : ℕ) → i < n → get_elem? (made n) i ≡ some (placed i)
  unfolding made
  get_elem?-made zero i h = absurd (omega arith)
  get_elem?-made (suc n) i h = elim (dec_lt i n) [
    | yes below ↦
        get_elem?-append_left (made n) (placed n ∷ []) i (omega (arith, length-made n))
        ∙ get_elem?-made n i below
    | no last ↦
        let same : i ≡ n = omega arith in
        let e = get_elem?-append_right (made n) (placed n ∷ []) i (omega (arith, length-made n)) in
        let here : i - length (made n) ≡ 0 = omega (arith, length-made n) in
        e ∙ rw (here, same) refl
  ]

  abbrev queue_of : ℕ → DownloadQueue
  queue_of n = record { pieces = made n; queue = upto n }

  queue_of-IsLevel : (n : ℕ) → IsLevel (queue_of n)
  unfolding entry piece_at new_piece
  queue_of-IsLevel n i h =
      let below : i < n = omega (arith, length-upto n) in
      (placed i, rw (get_elem?-upto n i below, get_elem?-made n i below) refl, refl)

  set-append : (xs : List Piece) (p q : Piece) → set (xs ++ (p ∷ [])) (length xs) q ≡ xs ++ (q ∷ [])
  set-append [] p q = refl
  set-append (x ∷ xs) p q = ap (◌∷◌ x) (set-append xs p q)

  place_at-made :
      (n : ℕ) → place_at n (pos n) (made n ++ (piece_at total size n ∷ [])) ≡ ok (made (suc n))
  unfolding place_at made
  place_at-made n =
      let size_at = length-made n in
      let there =
        get_elem?-append_right (made n) (piece_at total size n ∷ []) n (omega (arith, size_at)) in
      let here : n - length (made n) ≡ 0 = omega (arith, size_at) in
      let stored =
        subst
          (λ k.
            set (made n ++ (piece_at total size n ∷ [])) k (placed n) ≡ made n ++ (placed n ∷ []))
          size_at (set-append (made n) (piece_at total size n) (placed n)) in
      rw (there, here, stored) refl

  push-made :
      (n : ℕ)
      → push n (record { pieces = made n ++ (piece_at total size n ∷ []); queue = upto n })
        ≡ ok (queue_of (suc n))
  unfolding push
  push-made n =
      rw (length-upto n, place_at-made n)
        (fix_queue-level (queue_of (suc n)) n (queue_of-IsLevel (suc n))
          (omega (arith, length-upto (suc n))))

  build_loop-made :
      (left n : ℕ) → build_loop left total size n (queue_of n) ≡ ok (queue_of (n + left))
  unfolding build_loop
  build_loop-made zero n = ap (λ k. ok (queue_of k)) (omega arith)
  build_loop-made (suc left) n =
      let next_place : suc n ≡ n + 1 = omega arith in
      let size_after : n + 1 + left ≡ n + suc left = omega arith in
      subst (λ k. build_loop (suc left) total size n (queue_of n) ≡ ok (queue_of k)) size_after
        (rw (push-made n) (
          ap (λ k. build_loop left total size (n + 1) (queue_of k)) next_place
          ∙ build_loop-made left (n + 1)))

  build_queue-made : build_queue total size ≡ ok (queue_of (ceil_div total size))
  unfolding build_queue made
  build_queue-made =
      let n = ceil_div total size in
      let all : 0 + n ≡ n = omega arith in
      let loop =
        subst (λ k. build_loop n total size 0 (queue_of 0) ≡ ok (queue_of k)) all
          (build_loop-made n 0) in
      rw loop (init-level (queue_of n) (queue_of-IsLevel n))

  -- Where the first `i` pieces end.
  abbrev reach : ℕ → ℕ
  reach i = if ltb total (i * size) then total else i * size

  before : (i : ℕ) → 0 < size → i < ceil_div total size → i * size < total
  before i some_size h =
      let whole = div_any (total + (size - 1)) size in
      let rest = mod-lt (total + (size - 1)) some_size in
      let less : size * suc i ≤ size * ceil_div total size = mul-le-mul_left size h in grind arith

  behind : 0 < size → total ≤ ceil_div total size * size
  behind some_size =
      let whole = div_any (total + (size - 1)) size in
      let rest = mod-lt (total + (size - 1)) some_size in grind arith

  Tiles-append :
      (xs : List Piece) (p : Piece) (i a b : ℕ)
      → Tiles size i a b xs
      → p.piece_index ≡ i + length xs
      → p.piece_start_index ≡ b
      → 1 ≤ p.piece_length
      → p.piece_length ≤ size
      → Tiles size i a (b + p.piece_length) (xs ++ (p ∷ []))
  Tiles-append [] p i a b t at start filled most = ground (arith, t)
  Tiles-append (x ∷ xs) p i a b (e, s, l, m, t) at start filled most = (
    e,
    s,
    l,
    m,
    Tiles-append xs p (i + 1) (a + x.piece_length) b t (omega arith) start filled most,
  )

  placed_index : (i : ℕ) → (placed i).piece_index ≡ i
  unfolding piece_at new_piece
  placed_index i = refl

  placed_start : (i : ℕ) → (placed i).piece_start_index ≡ i * size
  unfolding piece_at new_piece
  placed_start i = refl

  placed_filled : (i : ℕ) → 0 < size → i * size < total → 1 ≤ (placed i).piece_length
  unfolding piece_at new_piece
  placed_filled i some_size inside = ground arith

  placed_most : (i : ℕ) → (placed i).piece_length ≤ size
  unfolding piece_at new_piece
  placed_most i = ground arith

  reach-placed : (i : ℕ) → i * size < total → reach i + (placed i).piece_length ≡ reach (suc i)
  unfolding piece_at new_piece
  reach-placed i inside =
      let more : suc i * size ≡ i * size + size = grind arith in ground (arith, more)

  made-Tiles : 0 < size → (i : ℕ) → i ≤ ceil_div total size → Tiles size 0 0 (reach i) (made i)
  unfolding made
  made-Tiles some_size zero h = ground arith
  made-Tiles some_size (suc i) h =
      let inside = before i some_size (omega arith) in
      let until : reach i ≡ i * size = ground arith in
      let size_there : reach i + (placed i).piece_length ≡ reach (suc i) = reach-placed i inside in
      subst (λ b. Tiles size 0 0 b (made i ++ (placed i ∷ []))) size_there
        (Tiles-append (made i) (placed i) 0 0 (reach i) (made-Tiles some_size i (omega arith))
          (placed_index i ∙ omega (arith, length-made i)) (placed_start i ∙ sym until)
          (placed_filled i some_size inside) (placed_most i))

-- For a positive piece length `buildQueue` never panics. The pieces lie from 0 to the torrent's
-- length without a gap, numbered from 0 on, none of them empty or longer than the piece length; the
-- queue holds each of them once, in order.
pub build_queue-Tiles :
    (total size : ℕ)
    → 0 < size
    → (q : DownloadQueue) × (build_queue total size ≡ ok q)
      × Tiles size 0 0 total q.pieces
      × (q.queue ≡ upto (length q.pieces))
unfolding made
build_queue-Tiles total size some_size =
    let n = ceil_div total size in
    let full : reach total size n ≡ total = ground (arith, behind total size some_size) in
    (
      queue_of total size n,
      build_queue-made total size,
      subst (λ b. Tiles size 0 0 b (made total size n)) full
          (made-Tiles total size some_size n (omega arith)),
      ap upto (sym (length-made total size n)),
    )
