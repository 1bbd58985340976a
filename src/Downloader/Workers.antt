-- ===== src/Downloader/Workers.antt =====
-- core/downloader.go: `startWorker` and `download`, the workers and the routine that hands out pieces.
-- One event is what a routine does from one channel operation to the next. The interleaving of the
-- routines is the order of the events, and an event that has to wait is not enabled. The download of
-- a piece from a peer is one event, an error in it ends the process.
pub mod Counting
pub mod Handing
pub mod Giving
pub mod Safety
use dawn_torrent.Base.{
  ℕ, zero, suc, ◌+◌, Bool, true, false, ◌&&◌, ◌||◌, not, List, [], ◌∷◌, ◌++◌, Option, none, some,
  ok, err, panic, length, get_elem?, set, replicate, ltb, ◌==◌, if◌then◌else◌,
}
use dawn_torrent.Downloader.{Downloader, select_piece}

-- Where a worker stands: not running yet, sending its signal, in its `select`, with a piece, returned.
pub data Worker : Type 0 where
  unstarted signalling waiting finished : Worker
  working : ℕ → Worker

-- The channel of jobs holds nil for the end. `written` are the pieces sent to the writer.
pub record Crew : Type 0 where
  pub downloader : Downloader
  pub jobs : List (Option ℕ)
  pub workers : List Worker
  pub written : List ℕ
  pub cancelled : Bool
  pub is_shutting_down : Bool
  pub sent_shut_down_signal : Bool
  pub is_completed : Bool
  pub closed : Bool
  pub gone : Bool
  pub reported : Bool

abbrev pub n_worker : ℕ
n_worker = 10

-- `Start` of a downloader.
abbrev pub start_crew : Downloader → Crew
start_crew d = record {
  downloader = d;
  jobs = [];
  workers = replicate n_worker unstarted;
  written = [];
  cancelled = false;
  is_shutting_down = false;
  sent_shut_down_signal = false;
  is_completed = false;
  closed = false;
  gone = false;
  reported = false;
}

-- The number of workers, weighed.
abbrev pub weigh : (Worker → ℕ) → List Worker → ℕ
weigh f [] = 0
weigh f (w ∷ ws) = f w + weigh f ws

-- What the wait group counts: the routines that have begun and not returned.
abbrev pub active : Worker → ℕ
active unstarted = 0
active finished = 0
active signalling = 1
active waiting = 1
active (working p) = 1

pub data Event : Type 0 where
  starts signals takes quits delivers : ℕ → Event
  cancels notices closes leaves : Event

-- The worker changes its place.
abbrev pub move : ℕ → Worker → Crew → Crew
move i w s = record s { workers = set s.workers i w }

-- The signal of a worker is received: the next piece, or nil at the end, goes into the jobs, and the
-- first time that the end is seen a routine is started that waits for the workers.
unfoldable pub hand_out : ℕ → Crew → Option Crew
unfolding select_piece
hand_out i s = elim (select_piece 0 s.downloader) [
  | ok (piece, completed, d) ↦
      let ends = completed || s.is_shutting_down in
      some (record (move i waiting s) {
        downloader = d;
        jobs = s.jobs ++ (piece ∷ []);
        sent_shut_down_signal = s.sent_shut_down_signal || ends;
        is_completed = (if ends && not s.sent_shut_down_signal then completed else s.is_completed);
      })
  | err e ↦ none
  | panic ↦ none
]

-- The first job is taken; nil ends the worker.
abbrev pub take_job : List (Option ℕ) → ℕ → Crew → Option Crew
take_job [] i s = none
take_job (some p ∷ rest) i s = some (record (move i (working p) s) { jobs = rest })
take_job (none ∷ rest) i s = some (record (move i finished s) { jobs = rest })

-- A worker whose piece is complete gives it to the writer. Every download is taken to be able to come
-- to this; one that ends the process, as that of a piece below one block does, has no further event.
abbrev pub deliver : Option Worker → ℕ → Crew → Option Crew
deliver (some (working p)) i s =
    some (record (move i signalling s) { written = s.written ++ (p ∷ []) })
deliver _ i s = none

-- One event. `closes` is the routine that waits for the workers; behind it the loop that hands out
-- pieces is left when it sees its context done.
unfoldable pub step : Event → Crew → Option Crew
unfolding hand_out
step (starts i) s = elim (get_elem? s.workers i) [
  | some unstarted ↦ some (move i signalling s)
  | _ ↦ none
]
step (signals i) s = elim (get_elem? s.workers i) [
  | some signalling ↦ if not s.gone && ltb (length s.jobs) n_worker then hand_out i s else none
  | _ ↦ none
]
step (takes i) s = elim (get_elem? s.workers i) [ some waiting ↦ take_job s.jobs i s | _ ↦ none ]
step (quits i) s = elim (get_elem? s.workers i) [
  | some waiting ↦ if s.cancelled then some (move i finished s) else none
  | _ ↦ none
]
step (delivers i) s = deliver (get_elem? s.workers i) i s
step cancels s = some (record s { cancelled = true })
step notices s = if s.cancelled then some (record s { is_shutting_down = true }) else none
step closes s =
    if s.sent_shut_down_signal && not s.closed && (weigh active s.workers == 0)
    then some (record s { closed = true; reported = s.is_completed })
    else none
step leaves s = if s.closed then some (record s { gone = true }) else none

-- The events one after the other.
unfoldable pub run : List Event → Crew → Option Crew
unfolding step
run [] s = some s
run (e ∷ es) s = elim (step e s) [ none ↦ none | some s' ↦ run es s' ]
