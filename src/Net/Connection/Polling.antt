-- ===== src/Net/Connection/Polling.antt =====
-- src/net/Connection.cpp: `pollLines`, `touchActivity`, and the one-shot slots of Connection.hpp.
use mathlib.Core.Option
use amlp.Base.{
  ℕ, zero, suc, Bool, true, false, ◌||◌, List, [], ◌∷◌, ◌++◌, Option, none, some, ◌==◌,
  if◌then◌else◌, Bytes, length,
}
use amlp.Net.Connection.{
  Connection, PendingInputTo, send, process_telnet_bytes, k_iac, k_wont, opt_echo,
}

-- What one call of `::read` gives.
pub data ReadResult : Type 0 where
  bytes : Bytes → ReadResult
  end_of_file would_block interrupted failed : ReadResult

-- The read loop: the chunk, and whether the peer is gone. A list that ends stands for EAGAIN.
unfoldable pub read_chunk : List ReadResult → Bytes × Bool
read_chunk [] = ([], false)
read_chunk (bytes b ∷ reads) = let (chunk, gone) = read_chunk reads in (b ++ chunk, gone)
read_chunk (interrupted ∷ reads) = read_chunk reads
read_chunk (would_block ∷ _) = ([], false)
read_chunk (end_of_file ∷ _) = ([], true)
read_chunk (failed ∷ _) = ([], true)

-- `find('\n')`, with `substr(0, pos)` and what `erase(0, pos + 1)` leaves.
unfoldable pub break_line : Bytes → Option (Bytes × Bytes)
break_line [] = none
break_line (b ∷ rest) =
    if b == b'\n'
    then some ([], rest)
    else Option.map (λ (line, later). (b ∷ line, later)) (break_line rest)

-- `if (!line.empty() && line.back() == '\r') line.pop_back();`
unfoldable pub strip_cr : Bytes → Bytes
strip_cr [] = []
strip_cr (b ∷ []) = if b == b'\r' then [] else b ∷ []
strip_cr (b ∷ c ∷ rest) = b ∷ strip_cr (c ∷ rest)

module _ {V : Type 0} where
  unfoldable pub restore_echo : Connection V → Connection V
  unfolding send
  restore_echo c =
      if c.echo_suppressed
      then send (k_iac ∷ k_wont ∷ opt_echo ∷ []) (record c { echo_suppressed = false })
      else c

  -- The line loop. Each round takes at least the newline, so the buffer's length is fuel enough.
  unfoldable pub pull_lines : ℕ → Connection V → Connection V × List Bytes
  pull_lines zero c = (c, [])
  pull_lines (suc fuel) c = elim (break_line c.input_buffer) [
    | none ↦ (c, [])
    | some (line, rest) ↦
        let (d, lines) = pull_lines fuel (restore_echo (record c { input_buffer = rest })) in
        (d, strip_cr line ∷ lines)
  ]

  unfoldable pub receive : Bytes → Connection V → Connection V × List Bytes
  receive chunk c = let d = process_telnet_bytes chunk c in pull_lines (length d.input_buffer) d

  unfoldable pub poll_lines : List ReadResult → Connection V → Connection V × List Bytes
  unfolding receive
  poll_lines reads c = elim c.fd [
    | none ↦ (c, [])
    | some _ ↦
        let (chunk, gone) = read_chunk reads in
        receive chunk (record c { closed = c.closed || gone })
  ]

  unfoldable pub touch_activity : ℕ → Connection V → Connection V
  touch_activity now c = record c { last_activity_time = now }

  unfoldable pub mark_closed : Connection V → Connection V
  mark_closed c = record c { closed = true }

  unfoldable pub take_window_size_update : Connection V → Connection V × Bool
  take_window_size_update c = (record c { window_size_updated = false }, c.window_size_updated)

  unfoldable pub take_terminal_type_update : Connection V → Connection V × Bool
  take_terminal_type_update c =
      (record c { terminal_type_updated = false }, c.terminal_type_updated)

  unfoldable pub set_pending_input_to : ℕ → V → List V → Connection V → Connection V
  set_pending_input_to obj function extra_args c = record c {
    pending_input_to = some (record { object = obj; function = function; extra_args = extra_args });
  }

  unfoldable pub take_pending_input_to : Connection V → Connection V × Option (PendingInputTo V)
  take_pending_input_to c = (record c { pending_input_to = none }, c.pending_input_to)

  unfoldable pub set_pending_notify_fail : V → Connection V → Connection V
  set_pending_notify_fail message c = record c { pending_notify_fail = some message }

  unfoldable pub take_pending_notify_fail : Connection V → Connection V × Option V
  take_pending_notify_fail c = (record c { pending_notify_fail = none }, c.pending_notify_fail)

  unfoldable pub clear_pending_notify_fail : Connection V → Connection V
  clear_pending_notify_fail c = record c { pending_notify_fail = none }
