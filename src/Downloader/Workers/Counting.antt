-- ===== src/Downloader/Workers/Counting.antt =====
-- core/downloader.go: the pieces among the workers and the jobs, counted.
use dawn_torrent.Base.{
  ℕ, zero, suc, ◌+◌, ◌≤◌, ◌≡◌, refl, ap, ◌∙◌, List, [], ◌∷◌, ◌++◌, Option, none, some, get_elem?,
  set, ◌==◌, if◌then◌else◌, arith,
}
use dawn_torrent.Downloader.Workers.{
  Worker, unstarted, signalling, waiting, working, finished, weigh, active,
}

-- A worker's change changes every weight by the difference of the two places.
pub weigh-set :
    (f : Worker → ℕ) (ws : List Worker) (i : ℕ) (w w' : Worker)
    → get_elem? ws i ≡ some w
    → weigh f (set ws i w') + f w ≡ weigh f ws + f w'
weigh-set f [] i w w' h = absurd (ground (arith, h))
weigh-set f (x ∷ ws) zero w w' h = ground (arith, h)
weigh-set f (x ∷ ws) (suc i) w w' h = omega (arith, weigh-set f ws i w w' h)

pub weigh-le :
    (f : Worker → ℕ) (ws : List Worker) (i : ℕ) (w : Worker)
    → get_elem? ws i ≡ some w
    → f w ≤ weigh f ws
weigh-le f [] i w h = absurd (ground (arith, h))
weigh-le f (x ∷ ws) zero w h = ground (arith, h)
weigh-le f (x ∷ ws) (suc i) w h = omega (arith, weigh-le f ws i w h)

abbrev pub holds : ℕ → Worker → ℕ
holds p unstarted = 0
holds p finished = 0
holds p signalling = 0
holds p waiting = 0
holds p (working q) = if p == q then 1 else 0

abbrev pub ended : Worker → ℕ
ended unstarted = 0
ended finished = 1
ended signalling = 0
ended waiting = 0
ended (working q) = 0

abbrev pub count : ℕ → List ℕ → ℕ
count p [] = 0
count p (q ∷ qs) = (if p == q then 1 else 0) + count p qs

-- How often a piece is among the jobs, and how many pieces and nils are.
abbrev pub queued : ℕ → List (Option ℕ) → ℕ
queued p [] = 0
queued p (none ∷ js) = queued p js
queued p (some q ∷ js) = (if p == q then 1 else 0) + queued p js

abbrev pub somes : List (Option ℕ) → ℕ
somes [] = 0
somes (none ∷ js) = somes js
somes (some q ∷ js) = 1 + somes js

abbrev pub nils : List (Option ℕ) → ℕ
nils [] = 0
nils (none ∷ js) = 1 + nils js
nils (some q ∷ js) = nils js

-- No piece stands behind a nil.
abbrev pub NilsLast : List (Option ℕ) → Type 0
NilsLast [] = Unit {_}
NilsLast (none ∷ js) = (somes js ≡ 0) × NilsLast js
NilsLast (some q ∷ js) = NilsLast js

pub count-append :
    (p : ℕ) (xs : List ℕ) (q : ℕ)
    → count p (xs ++ (q ∷ [])) ≡ count p xs + (if p == q then 1 else 0)
count-append p [] q = ground arith
count-append p (x ∷ xs) q = omega (arith, count-append p xs q)

-- What one more job at the end changes.
pub queued-append_some :
    (p : ℕ) (js : List (Option ℕ)) (q : ℕ)
    → queued p (js ++ (some q ∷ [])) ≡ queued p js + (if p == q then 1 else 0)
queued-append_some p [] q = ground arith
queued-append_some p (none ∷ js) q = queued-append_some p js q
queued-append_some p (some x ∷ js) q = omega (arith, queued-append_some p js q)

pub append_nil :
    (p : ℕ) (js : List (Option ℕ))
    → (queued p (js ++ (none ∷ [])) ≡ queued p js) × (somes (js ++ (none ∷ [])) ≡ somes js)
append_nil p [] = (refl, refl)
append_nil p (none ∷ js) = append_nil p js
append_nil p (some x ∷ js) = (
  ap (λ n. (if p == x then 1 else 0) + n) (append_nil p js).0,
  ap (λ n. 1 + n) (append_nil p js).1,
)

pub append_some :
    (js : List (Option ℕ)) (q : ℕ)
    → nils js ≡ 0
    → NilsLast (js ++ (some q ∷ [])) × (nils (js ++ (some q ∷ [])) ≡ 0)
append_some [] q h = (tt, refl)
append_some (none ∷ js) q h = absurd (omega arith)
append_some (some x ∷ js) q h = append_some js q h

pub NilsLast-append_nil : (js : List (Option ℕ)) → NilsLast js → NilsLast (js ++ (none ∷ []))
NilsLast-append_nil [] h = (refl, tt)
NilsLast-append_nil (none ∷ js) h = ((append_nil 0 js).1 ∙ h.0, NilsLast-append_nil js h.1)
NilsLast-append_nil (some x ∷ js) h = NilsLast-append_nil js h

pub queued-le : (p : ℕ) (js : List (Option ℕ)) → queued p js ≤ somes js
queued-le p [] = omega arith
queued-le p (none ∷ js) = queued-le p js
queued-le p (some x ∷ js) = ground (arith, queued-le p js)

pub holds-le : (p : ℕ) (ws : List Worker) → weigh (holds p) ws ≤ weigh active ws
holds-le p [] = omega arith
holds-le p (unstarted ∷ ws) = omega (arith, holds-le p ws)
holds-le p (signalling ∷ ws) = omega (arith, holds-le p ws)
holds-le p (waiting ∷ ws) = omega (arith, holds-le p ws)
holds-le p (finished ∷ ws) = omega (arith, holds-le p ws)
holds-le p (working q ∷ ws) = ground (arith, holds-le p ws)
