-- ===== src/Manager/Signals.antt =====
-- core/torrent_manager.go: `stateChan`, by which the manager gets its signals. A routine that has to
-- wait for the channel does nothing, so that an interleaving is a list of moves that do not wait.
pub mod Order
pub mod Closing
use dawn_torrent.Base.{
  ℕ, suc, ◌+◌, Bool, true, false, List, [], ◌∷◌, ◌++◌, Option, none, some, Result, ok, err, panic,
  ◌>>=◌, length, ltb, if◌then◌else◌,
}
use dawn_torrent.Manager.{Manager, new_manager, handle_signal}

-- The capacity of `stateChan`.
abbrev pub state_capacity : ℕ
state_capacity = 1

pub record Desk : Type 0 where
  pub manager : Manager
  pub state_chan : List ℕ
  pub is_closed : Bool

abbrev pub new_desk : Desk
new_desk = record { manager = new_manager; state_chan = []; is_closed = false }

-- `none` waits; a send on a closed channel panics.
unfoldable pub set_state : ℕ → Desk → Option (Result Desk)
set_state signal d =
    if d.is_closed
    then some panic
    else if ltb (length d.state_chan) state_capacity
    then some (ok (record d { state_chan = d.state_chan ++ (signal ∷ []) }))
    else none

handled : (ℕ → Bool) → ℕ → List ℕ → Desk → Result Desk
handled returns signal rest d =
    handle_signal returns signal d.manager >>= λ m. ok (record d { manager = m; state_chan = rest })

-- One round of `Init`: what is in the channel first, and 0 from a closed channel that is empty.
receive : (ℕ → Bool) → List ℕ → Desk → Option (Result Desk)
unfolding handled
receive returns (signal ∷ rest) d = some (handled returns signal rest d)
receive returns [] d =
    let from_closed = handled returns 0 [] d in if d.is_closed then some from_closed else none

unfoldable pub init_round : (ℕ → Bool) → Desk → Option (Result Desk)
unfolding receive
init_round returns d = receive returns d.state_chan d

-- `Stop` of the manager closes the channel; closing it again panics.
unfoldable pub stop : Desk → Option (Result Desk)
stop d = if d.is_closed then some panic else some (ok (record d { is_closed = true }))

pub data Move : Type 0 where
  sends : ℕ → Move
  receives closes : Move

unfoldable pub move : (ℕ → Bool) → Move → Desk → Option (Result Desk)
unfolding set_state init_round stop
move returns (sends signal) d = set_state signal d
move returns receives d = init_round returns d
move returns closes d = stop d

-- The moves one after the other, none of which waits, blocks the manager for ever or panics.
unfoldable pub moves : (ℕ → Bool) → List Move → Desk → Option Desk
unfolding move
moves returns [] d = some d
moves returns (m ∷ ms) d = elim (move returns m d) [ some (ok d') ↦ moves returns ms d' | _ ↦ none ]
