-- ===== src/Net/Connection/Messages.antt =====
-- src/net/Connection.cpp: the messages that one read sends.
use mathlib.Core.Path.{ap₂}
use amlp.Net.Connection.Decode.{
  telnet_byte-decoded, process_telnet_bytes-decode, next_state, state_after,
}
use amlp.Net.Connection.Replies.{telnet_byte-unsent, telnet_byte-sent, answer, answers}
use amlp.Net.Connection.Polling.{break_line, pull_lines, receive, restore_echo}
use amlp.Base.{
  append_assoc, Option-cases, ap, ◌∙◌, append-nil, length, sym, if◌then◌else◌, ◌++◌, List, ℕ, ◌≡◌,
  Bool, Bytes, Option, [], arith, false, inl, inr, none, refl, some, suc, zero, ◌∷◌,
}
use amlp.Net.Connection.{
  process_telnet_bytes, telnet_byte, Connection, TelnetState, k_iac, k_wont, opt_echo,
}

-- What is sent of `messages`: all, if there is a descriptor.
abbrev pub opened : Option ℕ → List Bytes → List Bytes
opened none messages = []
opened (some _) messages = messages

pub opened-append :
    (fd : Option ℕ) (xs ys : List Bytes) → opened fd (xs ++ ys) ≡ opened fd xs ++ opened fd ys
opened-append none xs ys = refl
opened-append (some _) xs ys = refl

-- The message that turns echo on again, at the first line.
abbrev pub restoring : Bool → List Bytes → List Bytes
restoring e [] = []
restoring e (_ ∷ _) = if e then (k_iac ∷ k_wont ∷ opt_echo ∷ []) ∷ [] else []

pub answers-append :
    (a b : Bytes) (s : TelnetState)
    → answers s (a ++ b) ≡ answers s a ++ answers (state_after s a) b
answers-append [] b s = refl
answers-append (x ∷ a) b s =
    ap (λ t. answer s x ++ t) (answers-append a b (next_state s x))
    ∙ sym (
        append_assoc (answer s x) (answers (next_state s x) a)
          (answers (state_after (next_state s x) a) b))

pub restoring-false :
    (fd : Option ℕ) (lines : List Bytes) (e : Bool) → e ≡ false → opened fd (restoring e lines) ≡ []
restoring-false none lines e h = refl
restoring-false (some fd) [] e h = refl
restoring-false (some fd) (l ∷ lines) e h = rw h refl

pub opened-none : (fd : Option ℕ) → opened fd [] ≡ []
opened-none none = refl
opened-none (some fd) = refl

module _ {V : Type 0} where
  process_telnet_bytes-messages :
      (raw : Bytes) (fd : Option ℕ) (c : Connection V)
      → c.fd ≡ fd
      → ((process_telnet_bytes raw c).sent ≡ c.sent ++ opened fd (answers c.telnet_state raw))
        × ((process_telnet_bytes raw c).fd ≡ fd)
  unfolding process_telnet_bytes
  process_telnet_bytes-messages [] none c h = (sym (append-nil c.sent), h)
  process_telnet_bytes-messages [] (some fd) c h = (sym (append-nil c.sent), h)
  process_telnet_bytes-messages (b ∷ raw) none c h =
      let one = telnet_byte-unsent c.telnet_state b c h in
      let rest = process_telnet_bytes-messages raw none (telnet_byte c.telnet_state b c) one.1 in
      (rest.0 ∙ ap (λ m. m ++ []) one.0, rest.1)
  process_telnet_bytes-messages (b ∷ raw) (some fd) c h =
      let one = telnet_byte-sent c.telnet_state b fd c h in
      let s = (telnet_byte-decoded c.telnet_state b c refl).0 in
      let rest =
        process_telnet_bytes-messages raw (some fd) (telnet_byte c.telnet_state b c) one.1 in
      (
        rest.0
            ∙ ap₂ (λ m t. m ++ answers t raw) one.0 s
            ∙ append_assoc c.sent (answer c.telnet_state b)
                (answers (next_state c.telnet_state b) raw),
        rest.1,
      )

  restore_echo-sent :
      (fd : Option ℕ) (c : Connection V)
      → c.fd ≡ fd
      → ((restore_echo c).sent ≡ c.sent ++ opened fd (restoring c.echo_suppressed ([] ∷ [])))
        × ((restore_echo c).fd ≡ fd)
        × ((restore_echo c).echo_suppressed ≡ false)
  unfolding restore_echo
  restore_echo-sent none c h = ground (arith, append-nil c.sent)
  restore_echo-sent (some fd) c h = ground (arith, append-nil c.sent)

  -- No line, no message; at the first line the echo is restored, and at no later one.
  pull_lines-messages :
      (fuel : ℕ) (fd : Option ℕ) (c : Connection V)
      → c.fd ≡ fd
      → ((pull_lines fuel c).0.sent
          ≡ c.sent ++ opened fd (restoring c.echo_suppressed (pull_lines fuel c).1))
        × ((pull_lines fuel c).0.fd ≡ fd)
  unfolding pull_lines
  pull_lines-messages zero fd c h = (rw (opened-none fd) (sym (append-nil c.sent)), h)
  pull_lines-messages (suc fuel) fd c h = elim (Option-cases (break_line c.input_buffer)) [
    | inl e ↦ rw (e, pull_lines) (rw (opened-none fd) (sym (append-nil c.sent)), h)
    | inr ((line, rest), e) ↦
        let d = restore_echo (record c { input_buffer = rest }) in
        let k = restore_echo-sent fd (record c { input_buffer = rest }) h in
        let ih = pull_lines-messages fuel fd d k.1 in
        rw (e, pull_lines)
          (
            ih.0
                ∙ ap₂ (λ x y. x ++ y) k.0
                    (restoring-false fd (pull_lines fuel d).1 d.echo_suppressed k.2)
                ∙ append-nil _,
            ih.1,
          )
  ]

  pub receive-messages :
      (raw : Bytes) (c : Connection V)
      → ((receive raw c).0.sent
          ≡ (c.sent ++ opened c.fd (answers c.telnet_state raw))
            ++ opened c.fd (restoring c.echo_suppressed (receive raw c).1))
        × ((receive raw c).0.fd ≡ c.fd)
  unfolding receive
  receive-messages raw c =
      let d = process_telnet_bytes raw c in
      let p = process_telnet_bytes-messages raw c.fd c refl in
      let q = pull_lines-messages (length d.input_buffer) c.fd d p.1 in
      (
        q.0
            ∙ ap₂ (λ m e. m ++ opened c.fd (restoring e (pull_lines (length d.input_buffer) d).1))
                p.0 (process_telnet_bytes-decode raw c).2,
        q.1,
      )
