-- ===== src/Downloader/Queue/Fuel.antt =====
-- The fuel of `down` is enough: more of it changes nothing.
use dawn_torrent.Base.{
  ℕ, zero, suc, ◌+◌, ◌*◌, ◌≤◌, ◌≡◌, ap, ◌∙◌, Bool, true, false, Result, ok, ◌>>=◌, ltb, leb,
  if◌then◌else◌, arith,
}
use dawn_torrent.Downloader.Queue.{DownloadQueue, less, swap, down}

down-suc :
    (fuel i n : ℕ) (q : DownloadQueue) → n ≤ i + fuel → down (suc fuel) i n q ≡ down fuel i n q
unfolding down
down-suc zero i n q h = ground arith
down-suc (suc fuel) i n q h =
    let child : Bool → ℕ = λ other. if other then 2 * i + 1 + 1 else 2 * i + 1 in
    let left : n ≤ 2 * i + 1 + fuel = omega arith in
    let right : n ≤ 2 * i + 1 + 1 + fuel = omega arith in
    let same : (other : Bool) → down (suc fuel) (child other) n ≡ down fuel (child other) n =
      λ other. elim other as (λ o. down (suc fuel) (child o) n ≡ down fuel (child o) n) [
        | true ↦ λ k x. down-suc fuel (2 * i + 1 + 1) n x right k
        | false ↦ λ k x. down-suc fuel (2 * i + 1) n x left k
      ] in
    λ k. round (λ other. same other k)
  where
    round : (Bool → DownloadQueue → Result (DownloadQueue × ℕ)) → Result (DownloadQueue × ℕ)
    round g =
        let child : Bool → ℕ = λ other. if other then 2 * i + 1 + 1 else 2 * i + 1 in
        let first : Result Bool =
          if ltb (2 * i + 1 + 1) n then less q (2 * i + 1 + 1) (2 * i + 1) else ok false in
        if leb n (2 * i + 1)
        then ok (q, i)
        else first >>= λ other.
            (less q (child other) i >>= λ smaller.
            if smaller then (swap i (child other) q >>= g other) else ok (q, i))

-- A sift down the heap that starts at place `i` of `n`, with fuel that reaches from `i` to `n`, ends
-- with the same result whatever more fuel it gets.
pub down-enough :
    (more fuel i n : ℕ) (q : DownloadQueue)
    → n ≤ i + fuel
    → down (more + fuel) i n q ≡ down fuel i n q
down-enough zero fuel i n q h = ap (λ f. down f i n q) (omega arith)
down-enough (suc more) fuel i n q h =
    let next : suc more + fuel ≡ suc (more + fuel) = omega arith in
    ap (λ f. down f i n q) next
    ∙ down-suc (more + fuel) i n q (omega arith)
    ∙ down-enough more fuel i n q h
