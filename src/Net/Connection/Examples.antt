-- ===== src/Net/Connection/Examples.antt =====
-- src/net/Connection.cpp: runs of the model, and the theorems at concrete input.
use amlp.Base.{
  ℕ, ◌*◌, ◌≤◌, true, false, List, [], ◌∷◌, ◌++◌, ◌≡◌, refl, Bytes, codes, arith, length, All,
}
use amlp.Net.Connection.{
  Connection, open_connection, plain, k_iac, k_do, k_will, opt_naws, opt_ttype, qual_is,
  process_telnet_bytes, telnet_byte,
}
use amlp.Net.Connection.Polling.{
  ReadResult, bytes, interrupted, end_of_file, read_chunk, break_line, strip_cr, restore_echo,
  pull_lines, receive, poll_lines,
}
use amlp.Net.Connection.Decode.{escape, process_telnet_bytes-decode, process_telnet_bytes-escape}
use amlp.Net.Connection.Subnegotiation.{
  subnegotiation, size_bytes, process_telnet_bytes-size, process_telnet_bytes-type,
}
use amlp.Net.Connection.Replies.{answers, total, IsFinal, process_telnet_bytes-answers}
use mathlib.Core.List.{Perm}
use amlp.Net.Connection.Chunks.{receive_split}
use amlp.Net.Connection.Outcome.{Polled, poll_lines-lines}
use amlp.Net.Connection.Sending.{WriteResult, wrote, write_loop, write_loop-capacity}

abbrev fresh : Connection ℕ
fresh = open_connection 5 100

-- A password prompt is on: the echo flag is set.
abbrev quiet : Connection ℕ
quiet = record fresh { echo_suppressed = true; input_buffer = codes "se" }

abbrev reads : List ReadResult
reads =
    bytes (codes "cret\r\nlo")
    ∷ interrupted
    ∷ bytes (k_iac ∷ k_will ∷ 99 ∷ codes "ok\n")
    ∷ end_of_file
    ∷ []

poll_run : (poll_lines reads quiet).1 ≡ codes "secret" ∷ codes "look" ∷ []
unfolding poll_lines read_chunk process_telnet_bytes telnet_byte pull_lines break_line strip_cr
    restore_echo
poll_run = refl

process_telnet_bytes-decode_example :
    ((process_telnet_bytes (codes "a" ++ k_iac ∷ k_do ∷ 7 ∷ []) fresh).telnet_state ≡ plain)
    × ((process_telnet_bytes (codes "a" ++ k_iac ∷ k_do ∷ 7 ∷ []) fresh).input_buffer ≡ codes "a")
    × ((process_telnet_bytes (codes "a" ++ k_iac ∷ k_do ∷ 7 ∷ []) fresh).echo_suppressed ≡ false)
process_telnet_bytes-decode_example =
    process_telnet_bytes-decode (codes "a" ++ k_iac ∷ k_do ∷ 7 ∷ []) fresh

process_telnet_bytes-escape_example :
    ((process_telnet_bytes (escape (7 ∷ 255 ∷ 9 ∷ [])) fresh).input_buffer ≡ 7 ∷ 255 ∷ 9 ∷ [])
    × ((process_telnet_bytes (escape (7 ∷ 255 ∷ 9 ∷ [])) fresh).telnet_state ≡ plain)
process_telnet_bytes-escape_example = process_telnet_bytes-escape (7 ∷ 255 ∷ 9 ∷ []) fresh refl

process_telnet_bytes-size_example :
    process_telnet_bytes (subnegotiation opt_naws (size_bytes 255 40)) fresh ≡ record fresh {
      sb_buffer = opt_naws ∷ size_bytes 255 40;
      terminal_width = 255;
      terminal_height = 40;
      window_size_updated = true;
    }
process_telnet_bytes-size_example =
    process_telnet_bytes-size 255 40 fresh refl (omega arith) (omega arith)

process_telnet_bytes-type_example :
    process_telnet_bytes (subnegotiation opt_ttype (qual_is ∷ codes "xterm")) fresh ≡ record fresh {
      sb_buffer = opt_ttype ∷ qual_is ∷ codes "xterm";
      terminal_type = codes "xterm";
      terminal_type_updated = true;
    }
process_telnet_bytes-type_example = process_telnet_bytes-type (codes "xterm") fresh refl

abbrev offers : Bytes
offers = k_iac ∷ k_will ∷ 99 ∷ k_iac ∷ k_do ∷ 1 ∷ []

process_telnet_bytes-answers_example :
    ((process_telnet_bytes offers fresh).sent ≡ (255 ∷ 254 ∷ 99 ∷ []) ∷ [])
    × (total (answers plain offers) ≤ 2 * length offers)
    × All IsFinal (answers plain offers)
process_telnet_bytes-answers_example = process_telnet_bytes-answers offers 5 fresh refl refl

receive_split_example :
    let first = receive (codes "lo\n" ++ k_iac ∷ []) quiet in
    let second = receive (k_will ∷ 99 ∷ codes "x\n") first.0 in
    let whole = receive ((codes "lo\n" ++ k_iac ∷ []) ++ k_will ∷ 99 ∷ codes "x\n") quiet in
    (whole.1 ≡ first.1 ++ second.1)
    × (record (whole.0) { sent = [] } ≡ record (second.0) { sent = [] })
    × Perm whole.0.sent second.0.sent
receive_split_example = receive_split (codes "lo\n" ++ k_iac ∷ []) (k_will ∷ 99 ∷ codes "x\n") quiet

poll_lines-lines_example : Polled reads quiet (poll_lines reads quiet)
poll_lines-lines_example = poll_lines-lines reads 5 quiet refl

write_loop-capacity_example :
    write_loop
      (wrote 2 ∷ WriteResult.interrupted ∷ wrote 1 ∷ WriteResult.failed ∷ [])
      (codes "hello")
    ≡ (codes "hel", codes "lo")
write_loop-capacity_example =
    write_loop-capacity (wrote 2 ∷ WriteResult.interrupted ∷ wrote 1 ∷ WriteResult.failed ∷ [])
      (codes "hello")
