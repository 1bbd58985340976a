-- ===== src/Downloader/Queue.antt =====
-- core/downloadQueue.go, with what it takes from Go's `container/heap`.
pub mod Fuel
pub mod Level
use dawn_torrent.Base.{
  ℕ, zero, suc, ◌+◌, ◌-◌, ◌*◌, ◌/◌, Bool, true, false, not, ◌&&◌, ◌||◌, List, [], ◌∷◌, ◌++◌, Option,
  none, some, Result, ok, panic, ◌>>=◌, or_panic, length, get_elem?, set, take, ltb, leb, ◌==◌,
  if◌then◌else◌,
}
use dawn_torrent.Base.Int.{ℤ, pos, negsuc}
use dawn_torrent.Piece.{Piece}

-- All pieces, and the heap: indices into them.
pub record DownloadQueue : Type 0 where
  pub pieces : List Piece
  pub queue : List ℕ

-- `<` on integers.
abbrev pub lt_ℤ : ℤ → ℤ → Bool
lt_ℤ (pos a) (pos b) = ltb a b
lt_ℤ (pos a) (negsuc b) = false
lt_ℤ (negsuc a) (pos b) = true
lt_ℤ (negsuc a) (negsuc b) = ltb b a

-- The piece at a place of the heap.
unfoldable pub entry : DownloadQueue → ℕ → Result Piece
entry q i = or_panic (get_elem? q.queue i) >>= λ k. or_panic (get_elem? q.pieces k)

unfoldable pub less : DownloadQueue → ℕ → ℕ → Result Bool
unfolding entry
less q i j = do a ← entry q i; b ← entry q j; ok (lt_ℤ a.availability b.availability)

unfoldable pub place_at : ℕ → ℤ → List Piece → Result (List Piece)
place_at k at pieces = do
  p ← or_panic (get_elem? pieces k)
  ok (set pieces k (record p { queue_index = at }))

unfoldable pub swap : ℕ → ℕ → DownloadQueue → Result DownloadQueue
unfolding place_at
swap i j q = do
  a ← or_panic (get_elem? q.queue i)
  b ← or_panic (get_elem? q.queue j)
  first ← place_at b (pos i) q.pieces
  both ← place_at a (pos j) first
  ok (record { pieces = both; queue = set (set q.queue i b) j a })

-- `heap.down` from `i` among the first `n` places, and the place where it ends. Each round at least
-- doubles the place, so that `n` is fuel enough.
pub down : ℕ → ℕ → ℕ → DownloadQueue → Result (DownloadQueue × ℕ)
unfolding less swap
down zero i n q = ok (q, i)
down (suc fuel) i n q =
    let left = 2 * i + 1 in
    let right = left + 1 in
    let from = λ (j : ℕ).
      (less q j i >>= λ smaller.
      let moved = swap i j q >>= down fuel j n in if smaller then moved else ok (q, i)) in
    let child : Result Bool = if ltb right n then less q right left else ok false in
    if leb n left then ok (q, i) else child >>= λ other. from (if other then right else left)

-- `heap.up`. Each round at least halves the place.
up : ℕ → ℕ → DownloadQueue → Result DownloadQueue
unfolding less swap
up zero j q = ok q
up (suc fuel) j q =
    let i = (j - 1) / 2 in
    let rest = less q j i >>= λ smaller.
    let moved = swap i j q >>= up fuel i in if smaller then moved else ok q in
    if i == j then ok q else rest

-- `heap.Fix`.
unfoldable pub fix_queue : ℕ → DownloadQueue → Result DownloadQueue
unfolding down up
fix_queue i q =
    down (length q.queue) i (length q.queue) q >>= λ r. if ltb i r.1 then ok r.0 else up i i r.0

-- `Push` of the piece at an index.
unfoldable pub push : ℕ → DownloadQueue → Result DownloadQueue
unfolding fix_queue place_at
push k q = do
  let at = length q.queue
  pieces ← place_at k (pos at) q.pieces
  fix_queue at (record { pieces = pieces; queue = q.queue ++ (k ∷ []) })

-- `heap.Init`, from the place below `k` on downwards.
init_loop : ℕ → DownloadQueue → Result DownloadQueue
unfolding down
init_loop zero q = ok q
init_loop (suc k) q = down (length q.queue) k (length q.queue) q >>= λ r. init_loop k r.0

unfoldable pub init : DownloadQueue → Result DownloadQueue
unfolding init_loop
init q = init_loop (length q.queue / 2) q

-- `Pop`; an empty queue gives nil, and its lock stays taken.
unfoldable pub pop : DownloadQueue → Result (Option ℕ × DownloadQueue)
unfolding place_at
pop q = elim (get_elem? q.queue (length q.queue - 1)) [
  | none ↦ ok (none, q)
  | some k ↦ do
    pieces ← place_at k (negsuc 0) q.pieces
    ok (some k, record { pieces = pieces; queue = take (length q.queue - 1) q.queue })
]

-- `RemoveAt` over `heap.Remove`: an index past the length ends the program, the length itself is
-- out of range in the exchange.
unfoldable pub remove_at : ℕ → DownloadQueue → Result (ℕ × DownloadQueue)
unfolding swap down up pop
remove_at i q =
    let n = length q.queue - 1 in
    let moved : Result DownloadQueue =
      swap i n q >>= λ q'. down n i n q' >>= λ r. if ltb i r.1 then ok r.0 else up i i r.0 in
    let ready : Result DownloadQueue = if n == i then ok q else moved in
    if leb (length q.queue) i
    then panic
    else ready >>= λ q'. pop q' >>= λ r. or_panic r.0 >>= λ k. ok (k, r.1)
