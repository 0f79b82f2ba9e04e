-- ===== src/Net/Connection/Pulling.antt =====
-- src/net/Connection.cpp: what one read gives, in terms of the bytes that it brings.

use amlp.Base.{
  ℕ, zero, suc, ◌≤◌, false, ◌&&◌, List, [], ◌∷◌, ◌++◌, ◌≡◌, refl, sym, ap, ◌∙◌, inl, inr,
  Option-cases, Bytes, length, map, arith,
}
use amlp.Net.Connection.{
  Connection, TelnetState, plain, iac, will, do_, sb, sb_iac, handle_negotiation, subnegotiate,
  telnet_byte, process_telnet_bytes,
}
use amlp.Net.Connection.Lines.{lines_of, last_line, is_empty, break_line-Breaks}
use amlp.Net.Connection.Polling.{break_line, strip_cr, restore_echo, pull_lines, receive}
use amlp.Net.Connection.Decode.{state_after, decode, process_telnet_bytes-decode}

module _ {V : Type 0} where
  -- A connection less its buffer, its sent messages and its echo flag.
  abbrev pub core : Connection V → Connection V
  core c = record c { input_buffer = []; sent = []; echo_suppressed = false }

  restore_echo-keeps :
      (c : Connection V)
      → (core (restore_echo c) ≡ core c)
        × ((restore_echo c).input_buffer ≡ c.input_buffer)
        × ((restore_echo c).echo_suppressed ≡ false)
  unfolding restore_echo
  restore_echo-keeps c = ground arith

  -- What the line loop gives from connection `c`.
  pub record Pulled (c : Connection V) (r : Connection V × List Bytes) : Type 0 where
    pub lines : r.1 ≡ map strip_cr (lines_of [] c.input_buffer)
    pub buffer : r.0.input_buffer ≡ last_line [] c.input_buffer
    pub others : core r.0 ≡ core c
    pub echo : r.0.echo_suppressed ≡ (c.echo_suppressed && is_empty r.1)

  pull_lines-Pulled :
      (fuel : ℕ) (c : Connection V) → length c.input_buffer ≤ fuel → Pulled c (pull_lines fuel c)
  unfolding pull_lines
  pull_lines-Pulled zero c h =
      let empty : c.input_buffer ≡ [] = ground arith in
      record { lines = rw empty; buffer = rw empty; others = refl; echo = ground arith }
  pull_lines-Pulled (suc fuel) c h = elim (Option-cases (break_line c.input_buffer)) [
    | inl e ↦
        let b = rw e at (break_line-Breaks c.input_buffer []) in
        rw (e, pull_lines)
          (record { lines = rw b.0; buffer = sym b.1; others = refl; echo = ground arith })
    | inr ((line, rest), e) ↦
        let b = rw e at (break_line-Breaks c.input_buffer []) in
        let d = restore_echo (record c { input_buffer = rest }) in
        let k = restore_echo-keeps (record c { input_buffer = rest }) in
        let ih = pull_lines-Pulled fuel d (omega (arith, ap (length {0}) k.1)) in
        rw (e, pull_lines)
          (record {
            lines =
                ap (λ t. strip_cr line ∷ t) (ih.lines ∙ ap (λ t. map strip_cr (lines_of [] t)) k.1)
                ∙ ap (map strip_cr) (sym b.0);
            buffer = ih.buffer ∙ ap (last_line []) k.1 ∙ sym b.1;
            others = ih.others ∙ k.0;
            echo = ground (arith, ih.echo, k.2);
          })
  ]

  core-handle_negotiation :
      (s : TelnetState) (b : ℕ) (c : Connection V)
      → core (handle_negotiation s b c) ≡ core (handle_negotiation s b (core c))
  unfolding handle_negotiation
  core-handle_negotiation will b c = ground arith
  core-handle_negotiation do_ b c = ground arith
  core-handle_negotiation _ b c = refl

  core-subnegotiate :
      (buf : Bytes) (c : Connection V)
      → core (subnegotiate buf c) ≡ core (subnegotiate buf (core c))
  unfolding subnegotiate
  core-subnegotiate [] c = refl
  core-subnegotiate (b ∷ []) c = ground arith
  core-subnegotiate (b ∷ w₁ ∷ []) c = ground arith
  core-subnegotiate (b ∷ w₁ ∷ w₀ ∷ []) c = ground arith
  core-subnegotiate (b ∷ w₁ ∷ w₀ ∷ h₁ ∷ []) c = ground arith
  core-subnegotiate (b ∷ w₁ ∷ w₀ ∷ h₁ ∷ h₀ ∷ _) c = ground arith

  core-telnet_byte :
      (s : TelnetState) (b : ℕ) (c : Connection V)
      → core (telnet_byte s b c) ≡ core (telnet_byte s b (core c))
  unfolding telnet_byte
  core-telnet_byte plain b c = ground arith
  core-telnet_byte iac b c = ground arith
  core-telnet_byte will b c =
      ap (λ (e : Connection V). record e { telnet_state = plain })
        (core-handle_negotiation will b c)
  core-telnet_byte do_ b c =
      ap (λ (e : Connection V). record e { telnet_state = plain }) (core-handle_negotiation do_ b c)
  core-telnet_byte sb b c = ground arith
  core-telnet_byte sb_iac b c = ground (
    arith,
    ap (λ (e : Connection V). record e { telnet_state = plain }) (core-subnegotiate c.sb_buffer c),
  )
  core-telnet_byte _ b c = refl

  pub core-process_telnet_bytes :
      (raw : Bytes) (c d : Connection V)
      → core c ≡ core d
      → core (process_telnet_bytes raw c) ≡ core (process_telnet_bytes raw d)
  unfolding process_telnet_bytes
  core-process_telnet_bytes [] c d h = h
  core-process_telnet_bytes (b ∷ raw) c d h = core-process_telnet_bytes raw _ _ (
      core-telnet_byte c.telnet_state b c
      ∙ ap (λ (e : Connection V). core (telnet_byte e.telnet_state b e)) h
      ∙ sym (core-telnet_byte d.telnet_state b d))

  -- `receive` on one chunk: the lines and the buffer by the automaton, the other fields by the
  -- byte machine, the echo flag cleared by the first line.
  pub receive-Pulled :
      (raw : Bytes) (c : Connection V) → Pulled (process_telnet_bytes raw c) (receive raw c)
  unfolding receive
  receive-Pulled raw c = pull_lines-Pulled _ (process_telnet_bytes raw c) (omega arith)

  -- The lines of a chunk, by the automaton.
  pub receive-lines :
      (raw : Bytes) (c : Connection V)
      → let text = c.input_buffer ++ decode c.telnet_state raw in
        ((receive raw c).1 ≡ map strip_cr (lines_of [] text))
        × ((receive raw c).0.input_buffer ≡ last_line [] text)
        × ((receive raw c).0.telnet_state ≡ state_after c.telnet_state raw)
  receive-lines raw c =
      let p = receive-Pulled raw c in
      let d = process_telnet_bytes-decode raw c in
      (
        p.lines ∙ ap (λ t. map strip_cr (lines_of [] t)) d.1,
        p.buffer ∙ ap (last_line []) d.1,
        ap (λ (e : Connection V). e.telnet_state) p.others ∙ d.0,
      )

  pub process_telnet_bytes-append :
      (a b : Bytes) (c : Connection V)
      → process_telnet_bytes (a ++ b) c ≡ process_telnet_bytes b (process_telnet_bytes a c)
  unfolding process_telnet_bytes
  process_telnet_bytes-append [] b c = refl
  process_telnet_bytes-append (x ∷ a) b c =
      process_telnet_bytes-append a b (telnet_byte c.telnet_state x c)

  pub receive-echo :
      (raw : Bytes) (c : Connection V)
      → (receive raw c).0.echo_suppressed ≡ (c.echo_suppressed && is_empty (receive raw c).1)
  receive-echo raw c =
      (receive-Pulled raw c).echo
      ∙ ap (λ e. e && is_empty (receive raw c).1) (process_telnet_bytes-decode raw c).2
