-- ===== src/Downloader/Queue/Level.antt =====
-- A heap of pieces that all have one availability is left as it is.
use dawn_torrent.Base.{
  ℕ, zero, suc, ◌+◌, ◌-◌, ◌*◌, ◌/◌, ◌≤◌, ◌<◌, ◌≡◌, refl, false, ok, length, arith,
}
use dawn_torrent.Base.Int.{pos}
use dawn_torrent.Piece.{Piece}
use dawn_torrent.Downloader.Queue.{DownloadQueue, entry, less, down, up, fix_queue, init_loop, init}

-- Every place of the heap has a piece, whose availability is 0.
abbrev pub IsLevel : DownloadQueue → Type 0
IsLevel q =
    (i : ℕ) → i < length q.queue → (p : Piece) × (entry q i ≡ ok p) × (p.availability ≡ pos 0)

less-level :
    (q : DownloadQueue) (i j : ℕ)
    → IsLevel q
    → i < length q.queue
    → j < length q.queue
    → less q i j ≡ ok false
unfolding less
less-level q i j level hi hj =
    let (a, ea, za) = level i hi in let (b, eb, zb) = level j hj in rw (ea, eb, za, zb)

down-level :
    (fuel i n : ℕ) (q : DownloadQueue)
    → IsLevel q
    → n ≤ length q.queue
    → i < n
    → down fuel i n q ≡ ok (q, i)
unfolding down
down-level zero i n q level hn hi = refl
down-level (suc fuel) i n q level hn hi =
    let left : 2 * i + 1 < n → less q (2 * i + 1) i ≡ ok false =
      λ h. less-level q (2 * i + 1) i level (omega arith) (omega arith) in
    let right : 2 * i + 1 + 1 < n → less q (2 * i + 1 + 1) (2 * i + 1) ≡ ok false =
      λ h. less-level q (2 * i + 1 + 1) (2 * i + 1) level (omega arith) (omega arith) in
    ground (arith, left, right)

up-level : (fuel j : ℕ) (q : DownloadQueue) → IsLevel q → j < length q.queue → up fuel j q ≡ ok q
unfolding up
up-level zero j q level hj = refl
up-level (suc fuel) j q level hj =
    let e = less-level q j ((j - 1) / 2) level hj (omega arith) in ground (arith, e)

pub fix_queue-level :
    (q : DownloadQueue) (i : ℕ) → IsLevel q → i < length q.queue → fix_queue i q ≡ ok q
unfolding fix_queue
fix_queue-level q i level hi =
    let d = down-level (length q.queue) i (length q.queue) q level (omega arith) hi in
    let u = up-level i i q level hi in ground (arith, d, u)

init_loop-level :
    (k : ℕ) (q : DownloadQueue) → IsLevel q → k ≤ length q.queue → init_loop k q ≡ ok q
unfolding init_loop
init_loop-level zero q level hk = refl
init_loop-level (suc k) q level hk =
    let d = down-level (length q.queue) k (length q.queue) q level (omega arith) (omega arith) in
    rw d (init_loop-level k q level (omega arith))

pub init-level : (q : DownloadQueue) → IsLevel q → init q ≡ ok q
unfolding init
init-level q level = init_loop-level (length q.queue / 2) q level (omega arith)
