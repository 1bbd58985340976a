-- ===== src/Manager.antt =====
-- core/torrent_manager.go: the state machine of a torrent, driven by the signals of `stateChan`.
-- A context is a number. Whether the download of a context lets `downloadRoutineWait.Wait()` return
-- once it is cancelled is a parameter, `returns`; where it does not, the manager is `blocked`. A panic
-- ends the program: `log.Panicf`, `panic`, and a call of a nil function.
pub mod Lifecycle
pub mod Pausing
pub mod Signals
pub mod Assembly
use dawn_torrent.Base.{
  ℕ, suc, ◌+◌, Bool, List, [], ◌∷◌, Bytes, Option, none, some, Result, ok, err, panic, blocked,
  ◌>>=◌, ◌==◌, if◌then◌else◌,
}

-- interfaces/managers.go.
abbrev pub start_torrent : ℕ
start_torrent = 0

abbrev pub pause_torrent : ℕ
pause_torrent = 1

abbrev pub stop_torrent : ℕ
stop_torrent = 2

abbrev pub complete_torrent : ℕ
complete_torrent = 3

-- The states with the cancel functions that they keep, `none` for one that was never set.
pub data ManagerState : Type 0 where
  stopped : ManagerState
  in_progress : ℕ → Option ℕ → Option ℕ → ManagerState
  paused : Option ℕ → Option ℕ → ManagerState

pub record Manager : Type 0 where
  pub my_state : ManagerState
  pub state : ℕ
  pub next_context : ℕ
  pub cancelled : List ℕ
  pub downloads : List ℕ
  pub scrappers : List ℕ
  pub routers : List ℕ

unfoldable pub new_manager : Manager
new_manager = record {
  my_state = stopped;
  state = 0;
  next_context = 0;
  cancelled = [];
  downloads = [];
  scrappers = [];
  routers = [];
}

abbrev cancel : ℕ → Manager → Manager
cancel c m = record m { cancelled = c ∷ m.cancelled }

-- A call of a stored cancel function; of nil it panics.
call_cancel : Option ℕ → Manager → Result Manager
call_cancel none m = panic
call_cancel (some c) m = ok (cancel c m)

start_in : ManagerState → Manager → Manager
start_in stopped m =
    let d = m.next_context in
    record m {
      next_context = d + 3;
      downloads = d ∷ m.downloads;
      scrappers = (d + 1) ∷ m.scrappers;
      routers = (d + 2) ∷ m.routers;
      my_state = in_progress d (some (d + 1)) (some (d + 2));
    }
start_in (in_progress d s r) m = m
start_in (paused s r) m =
    let d = m.next_context in
    record m {
      next_context = d + 1;
      downloads = d ∷ m.downloads;
      my_state = in_progress d none none;
    }

-- `downloadRoutineWait.Wait()`.
pub wait : (ℕ → Bool) → ℕ → Manager → Result Manager
wait returns d m = if returns d then ok m else err blocked

stop_in : (ℕ → Bool) → ManagerState → Manager → Result Manager
unfolding call_cancel wait
stop_in returns stopped m = ok m
stop_in returns (in_progress d s r) m = wait returns d (cancel d m) >>= λ m'.
    call_cancel s m' >>= λ m''. call_cancel r m'' >>= λ k. ok (record k { my_state = stopped })
stop_in returns (paused s r) m = panic

pause_in : (ℕ → Bool) → ManagerState → Manager → Result Manager
unfolding wait
pause_in returns stopped m = ok m
pause_in returns (in_progress d s r) m =
    wait returns d (cancel d m) >>= λ m'. ok (record m' { my_state = paused s r })
pause_in returns (paused s r) m = ok m

state_in : ManagerState → Result ℕ
state_in stopped = ok stop_torrent
state_in (in_progress d s r) = ok complete_torrent
state_in (paused s r) = panic

unfoldable pub get_state : Manager → Result ℕ
unfolding state_in
get_state m = state_in m.my_state

-- The `switch` of `Init`; a number that names no state does nothing.
handle_in : (ℕ → Bool) → ManagerState → ℕ → Manager → Result Manager
unfolding start_in stop_in pause_in
handle_in returns st signal m =
    if signal == start_torrent
    then ok (start_in st m)
    else if signal == pause_torrent
    then pause_in returns st m
    else if signal == stop_torrent
    then stop_in returns st m
    else if signal == complete_torrent
    then stop_in returns st m
    else ok m

-- One round of `Init`.
unfoldable pub handle_signal : (ℕ → Bool) → ℕ → Manager → Result Manager
unfolding handle_in
handle_signal returns signal m = handle_in returns m.my_state signal (record m { state = signal })

pub run : (ℕ → Bool) → List ℕ → Manager → Result Manager
run returns [] m = ok m
run returns (signal ∷ signals) m = handle_signal returns signal m >>= run returns signals

-- `getCurrentState` of core/tracker/scrapper.go: the event that an announce reports.
abbrev pub started_event : Bytes
started_event = b's' ∷ b't' ∷ b'a' ∷ b'r' ∷ b't' ∷ b'e' ∷ b'd' ∷ []

abbrev stopped_event : Bytes
stopped_event = b's' ∷ b't' ∷ b'o' ∷ b'p' ∷ b'p' ∷ b'e' ∷ b'd' ∷ []

abbrev completed_event : Bytes
completed_event = b'c' ∷ b'o' ∷ b'm' ∷ b'p' ∷ b'l' ∷ b'e' ∷ b't' ∷ b'e' ∷ b'd' ∷ []

unfoldable pub get_current_state : Manager → Result Bytes
unfolding get_state
get_current_state m = get_state m >>= λ s.
    if s == start_torrent
    then ok started_event
    else if s == stop_torrent
    then ok stopped_event
    else if s == complete_torrent
    then ok completed_event
    else ok []
