-- ===== src/Api/Commands.antt =====
-- main.go: the loop that reads signals from the terminal.
use dawn_torrent.Base.{ℕ, length, leb, List, [], ◌∷◌, Bytes, none, some, equal_bytes, if◌then◌else◌}
use dawn_torrent.Base.Int.{ℤ}
use dawn_torrent.Base.Decimal.{atoi}

-- "exit".
abbrev pub exit_command : Bytes
exit_command = b'e' ∷ b'x' ∷ b'i' ∷ b't' ∷ []

-- `bufio.MaxScanTokenSize`: the scanner stops at a line that does not fit with its end.
abbrev pub max_scan_token_size : ℕ
max_scan_token_size = 65536

-- Once the scanner has stopped, at the end of the input or at a line that is too long, every further
-- line is empty, and the loop goes on for ever.
pub data LoopEnd : Type 0 where
  exited spins : LoopEnd

-- The loop on the lines of the input, as far as each call of `SetState` returns and the manager goes
-- on: the numbers that are given to `SetState`, and how it ends. A line
-- that is no number is logged, and only then can it be the one that the loop ends with.
unfoldable pub command_loop : List Bytes → List ℤ × LoopEnd
unfolding atoi equal_bytes
command_loop [] = ([], spins)
command_loop (command ∷ lines) =
    let later = command_loop lines in
    let read : List ℤ × LoopEnd = elim (atoi command) [
      | none ↦ if equal_bytes command exit_command then ([], exited) else later
      | some n ↦ (n ∷ later.0, later.1)
    ] in
    if leb max_scan_token_size (length command) then ([], spins) else read
