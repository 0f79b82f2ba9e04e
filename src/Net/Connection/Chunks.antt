-- ===== src/Net/Connection/Chunks.antt =====
-- src/net/Connection.cpp: input split across reads gives the same lines and the same state.
use mathlib.Core.Path.{ap₂, subst}
use mathlib.Core.List.{map-append, Perm, perm_append_comm}
use mathlib.Core.List.Perm
use amlp.Net.Connection.Replies.{answers}
use amlp.Net.Connection.Messages.{
  answers-append, opened, opened-append, opened-none, restoring, restoring-false, receive-messages,
}
use amlp.Base.{
  append-nil, Bool, Option, true, ℕ, false, ◌&&◌, List, [], ◌∷◌, ◌++◌, ◌≡◌, refl, sym, ap, ◌∙◌,
  Bytes, map, arith, append_assoc,
}
use amlp.Net.Connection.{Connection}
use amlp.Net.Connection.Lines.{lines_of, last_line, is_empty, is_empty-append, lines_of-last_line}
use amlp.Net.Connection.Polling.{strip_cr, receive}
use amlp.Net.Connection.Decode.{state_after, decode, decode-append}
use amlp.Net.Connection.Pulling.{
  core, receive-Pulled, receive-lines, receive-echo, core-process_telnet_bytes,
  process_telnet_bytes-append,
}

and-true : (e : Bool) → (e && true) ≡ e
and-true e = ground arith

and-false : (e : Bool) → (e && false) ≡ false
and-false e = ground arith

-- The echo message of one read, in that of two.
restoring_split :
    (fd : Option ℕ) (e : Bool) (lines later : List Bytes) (x rb : List Bytes)
    → Perm (x ++ (rb ++ opened fd (restoring e (lines ++ later)))) (
        (x ++ opened fd (restoring e lines))
        ++ (rb ++ opened fd (restoring (e && is_empty lines) later)))
restoring_split fd e [] later x rb = rw (and-true e, opened-none fd, append-nil x) (Perm.refl _)
restoring_split fd e (l ∷ lines) later x rb =
    let echo = opened fd (restoring e (l ∷ lines)) in
    rw (restoring-false fd later (e && false) (and-false e), append-nil rb, append_assoc x echo rb)
      (Perm.append_left x (perm_append_comm rb echo))

module _ {V : Type 0} where
  -- The lines and the buffer, of one read and of two.
  receive_split_lines :
      (a b : Bytes) (c : Connection V)
      → let first = receive a c in
        let second = receive b first.0 in
        let whole = receive (a ++ b) c in
        (whole.1 ≡ first.1 ++ second.1) × (whole.0.input_buffer ≡ second.0.input_buffer)
  receive_split_lines a b c =
      let first = receive-lines a c in
      let second = receive-lines b (receive a c).0 in
      let whole = receive-lines (a ++ b) c in
      let text = c.input_buffer ++ decode c.telnet_state a in
      let later = decode (state_after c.telnet_state a) b in
      let joined : c.input_buffer ++ decode c.telnet_state (a ++ b) ≡ text ++ later =
        rw (decode-append, append_assoc) in
      let split = lines_of-last_line text later in
      let seen : (receive a c).0.input_buffer ++ decode (receive a c).0.telnet_state b
          ≡ last_line [] text ++ later =
        ap₂ (λ t s. t ++ decode s b) first.1 first.2 in
      (
        whole.0
            ∙ ap (λ t. map strip_cr (lines_of [] t)) joined
            ∙ ap (map strip_cr) split.0
            ∙ map-append strip_cr (lines_of [] text) _
            ∙ sym (
                ap₂ (λ s t. s ++ t) first.0
                  (second.0 ∙ ap (λ t. map strip_cr (lines_of [] t)) seen)),
        whole.1 ∙ ap (last_line []) joined ∙ split.1 ∙ sym (second.1 ∙ ap (last_line []) seen),
      )

  -- The messages, of one read and of two.
  receive_split_sent :
      (a b : Bytes) (c : Connection V)
      → Perm (receive (a ++ b) c).0.sent (receive b (receive a c).0).0.sent
  receive_split_sent a b c =
      let first = receive a c in
      let s = state_after c.telnet_state a in
      let x = c.sent ++ opened c.fd (answers c.telnet_state a) in
      let rb = opened c.fd (answers s b) in
      let m = receive-messages a c in
      let n = receive-messages b first.0 in
      let w = receive-messages (a ++ b) c in
      let later = (receive b first.0).1 in
      let whole : (receive (a ++ b) c).0.sent
          ≡ x ++ (rb ++ opened c.fd (restoring c.echo_suppressed (first.1 ++ later))) =
        w.0
        ∙ ap₂ (λ t l. (c.sent ++ opened c.fd t) ++ opened c.fd (restoring c.echo_suppressed l))
            (answers-append a b c.telnet_state) (receive_split_lines a b c).0
        ∙ rw
            (
              opened-append c.fd (answers c.telnet_state a) (answers s b),
              append_assoc,
              append_assoc,
              append_assoc,
            )
            refl in
      let split : (receive b first.0).0.sent
          ≡ (x ++ opened c.fd (restoring c.echo_suppressed first.1))
            ++ (rb ++ opened c.fd (restoring (c.echo_suppressed && is_empty first.1) later)) =
        n.0
        ∙ ap
            (λ f.
              (first.0.sent ++ opened f (answers first.0.telnet_state b))
              ++ opened f (restoring first.0.echo_suppressed later))
            m.1
        ∙ ap₂
            (λ t r.
              (t ++ opened c.fd (answers r b))
              ++ opened c.fd (restoring first.0.echo_suppressed later))
            m.0 (receive-lines a c).2
        ∙ ap
            (λ e.
              ((x ++ opened c.fd (restoring c.echo_suppressed first.1)) ++ rb)
              ++ opened c.fd (restoring e later))
            (receive-echo a c)
        ∙ append_assoc (x ++ opened c.fd (restoring c.echo_suppressed first.1)) rb _ in
      subst (λ t. Perm t (receive b first.0).0.sent) (sym whole)
        (subst
          (λ t. Perm (x ++ (rb ++ opened c.fd (restoring c.echo_suppressed (first.1 ++ later)))) t)
          (sym split) (restoring_split c.fd c.echo_suppressed first.1 later x rb))

  -- A chunk that the network splits in two, at any byte, also inside a telnet command, gives the
  -- same lines in the same order, the same unfinished line, the same values of all other fields but
  -- the messages sent, and the same messages, each as often, though maybe in another order.
  pub receive_split :
      (a b : Bytes) (c : Connection V)
      → let first = receive a c in
        let second = receive b first.0 in
        let whole = receive (a ++ b) c in
        (whole.1 ≡ first.1 ++ second.1)
        × (record (whole.0) { sent = [] } ≡ record (second.0) { sent = [] })
        × Perm whole.0.sent second.0.sent
  receive_split a b c =
      let first = receive a c in
      let second = receive b first.0 in
      let whole = receive (a ++ b) c in
      let lines = receive_split_lines a b c in
      let cores : core whole.0 ≡ core second.0 =
        (receive-Pulled (a ++ b) c).others
        ∙ ap core (process_telnet_bytes-append a b c)
        ∙ core-process_telnet_bytes b _ _ (sym (receive-Pulled a c).others)
        ∙ sym (receive-Pulled b first.0).others in
      let echo : whole.0.echo_suppressed ≡ second.0.echo_suppressed =
        receive-echo (a ++ b) c
        ∙ ap (λ t. c.echo_suppressed && is_empty t) lines.0
        ∙ is_empty-append c.echo_suppressed first.1 second.1
        ∙ ap (λ e. e && is_empty second.1) (sym (receive-echo a c))
        ∙ sym (receive-echo b first.0) in
      (
        lines.0,
        λ i. record (cores i) { input_buffer = lines.1 i; echo_suppressed = echo i },
        receive_split_sent a b c,
      )
