-- ===== src/Net/Connection/Decode.antt =====
-- The plain text of a telnet stream, stated with no connection, and that the byte machine of
-- src/net/Connection.cpp computes it.
use mathlib.Core.Path.{ap₂}
use amlp.Base.{
  ℕ, [], ◌∷◌, ◌++◌, ◌≡◌, refl, sym, ap, ◌∙◌, ◌==◌, if◌then◌else◌, Bytes, arith, append-nil,
  append_assoc,
}
use amlp.Net.Connection.{
  Connection, TelnetState, plain, iac, will, wont, do_, dont, sb, sb_iac, k_iac, k_will, k_wont,
  k_do, k_dont, k_sb, handle_negotiation, terminal_type_reply, window_size_reply, subnegotiate,
  handle_subnegotiation, telnet_byte, process_telnet_bytes,
}

-- The state behind a byte.
abbrev pub next_state : TelnetState → ℕ → TelnetState
next_state plain b = if b == k_iac then iac else plain
next_state iac b =
    if b == k_will
    then will
    else if b == k_wont
    then wont
    else if b == k_do
    then do_
    else if b == k_dont
    then dont
    else if b == k_sb
    then sb
    else plain
next_state sb b = if b == k_iac then sb_iac else sb
next_state sb_iac b = if b == k_iac then sb else plain
next_state _ b = plain

-- The text that a byte adds: itself outside a command, 255 for a doubled IAC.
abbrev pub decoded : TelnetState → ℕ → Bytes
decoded plain b = if b == k_iac then [] else b ∷ []
decoded iac b = if b == k_iac then b ∷ [] else []
decoded _ b = []

abbrev pub state_after : TelnetState → Bytes → TelnetState
state_after s [] = s
state_after s (b ∷ raw) = state_after (next_state s b) raw

abbrev pub decode : TelnetState → Bytes → Bytes
decode s [] = []
decode s (b ∷ raw) = decoded s b ++ decode (next_state s b) raw

-- How a client sends data: each IAC twice.
abbrev pub escape : Bytes → Bytes
escape [] = []
escape (b ∷ data_) = if b == k_iac then b ∷ b ∷ escape data_ else b ∷ escape data_

pub decode-append :
    (a b : Bytes) (s : TelnetState) → decode s (a ++ b) ≡ decode s a ++ decode (state_after s a) b
decode-append [] b s = refl
decode-append (x ∷ a) b s = rw (decode-append a b (next_state s x), append_assoc)

escape-decode :
    (data_ : Bytes)
    → (decode plain (escape data_) ≡ data_) × (state_after plain (escape data_) ≡ plain)
escape-decode [] = (refl, refl)
escape-decode (b ∷ data_) = ground (arith, escape-decode data_)

module _ {V : Type 0} where
  handle_negotiation-keeps :
      (s : TelnetState) (b : ℕ) (c : Connection V)
      → ((handle_negotiation s b c).input_buffer ≡ c.input_buffer)
        × ((handle_negotiation s b c).echo_suppressed ≡ c.echo_suppressed)
  unfolding handle_negotiation
  handle_negotiation-keeps will b c = ground arith
  handle_negotiation-keeps _ b c = ground arith

  terminal_type_reply-keeps :
      (name : Bytes) (c : Connection V)
      → ((terminal_type_reply name c).input_buffer ≡ c.input_buffer)
        × ((terminal_type_reply name c).echo_suppressed ≡ c.echo_suppressed)
  unfolding terminal_type_reply
  terminal_type_reply-keeps [] c = (refl, refl)
  terminal_type_reply-keeps (b ∷ name) c = ground arith

  window_size_reply-keeps :
      (size : Bytes) (c : Connection V)
      → ((window_size_reply size c).input_buffer ≡ c.input_buffer)
        × ((window_size_reply size c).echo_suppressed ≡ c.echo_suppressed)
  unfolding window_size_reply
  window_size_reply-keeps [] c = (refl, refl)
  window_size_reply-keeps (_ ∷ []) c = (refl, refl)
  window_size_reply-keeps (_ ∷ _ ∷ []) c = (refl, refl)
  window_size_reply-keeps (_ ∷ _ ∷ _ ∷ []) c = (refl, refl)
  window_size_reply-keeps (_ ∷ _ ∷ _ ∷ _ ∷ _) c = (refl, refl)

  subnegotiate-keeps :
      (buf : Bytes) (c : Connection V)
      → ((subnegotiate buf c).input_buffer ≡ c.input_buffer)
        × ((subnegotiate buf c).echo_suppressed ≡ c.echo_suppressed)
  unfolding subnegotiate
  subnegotiate-keeps [] c = (refl, refl)
  subnegotiate-keeps (b ∷ payload) c =
      ground (arith, terminal_type_reply-keeps payload c, window_size_reply-keeps payload c)

  handle_subnegotiation-keeps :
      (c : Connection V)
      → ((handle_subnegotiation c).input_buffer ≡ c.input_buffer)
        × ((handle_subnegotiation c).echo_suppressed ≡ c.echo_suppressed)
  unfolding handle_subnegotiation
  handle_subnegotiation-keeps c = subnegotiate-keeps c.sb_buffer c

  -- What one byte does to the state, the text and the echo flag.
  pub telnet_byte-decoded :
      (s : TelnetState) (b : ℕ) (c : Connection V)
      → c.telnet_state ≡ s
      → ((telnet_byte s b c).telnet_state ≡ next_state s b)
        × ((telnet_byte s b c).input_buffer ≡ c.input_buffer ++ decoded s b)
        × ((telnet_byte s b c).echo_suppressed ≡ c.echo_suppressed)
  unfolding telnet_byte
  telnet_byte-decoded plain b c h = ground (arith, append-nil c.input_buffer)
  telnet_byte-decoded iac b c h = ground (arith, append-nil c.input_buffer)
  telnet_byte-decoded will b c h =
      ground (arith, append-nil c.input_buffer, handle_negotiation-keeps will b c)
  telnet_byte-decoded wont b c h = ground (arith, append-nil c.input_buffer)
  telnet_byte-decoded do_ b c h =
      ground (arith, append-nil c.input_buffer, handle_negotiation-keeps do_ b c)
  telnet_byte-decoded dont b c h = ground (arith, append-nil c.input_buffer)
  telnet_byte-decoded sb b c h = ground (arith, append-nil c.input_buffer)
  telnet_byte-decoded sb_iac b c h =
      ground (arith, append-nil c.input_buffer, handle_subnegotiation-keeps c)

  -- The machine ends in the state, and adds to the buffer exactly the text, that the stream has
  -- by the automaton `decode`, from every state, and leaves the echo flag.
  pub process_telnet_bytes-decode :
      (raw : Bytes) (c : Connection V)
      → ((process_telnet_bytes raw c).telnet_state ≡ state_after c.telnet_state raw)
        × ((process_telnet_bytes raw c).input_buffer ≡ c.input_buffer ++ decode c.telnet_state raw)
        × ((process_telnet_bytes raw c).echo_suppressed ≡ c.echo_suppressed)
  unfolding process_telnet_bytes
  process_telnet_bytes-decode [] c = (refl, sym (append-nil c.input_buffer), refl)
  process_telnet_bytes-decode (b ∷ raw) c =
      let d = telnet_byte c.telnet_state b c in
      let one = telnet_byte-decoded c.telnet_state b c refl in
      let rest = process_telnet_bytes-decode raw d in
      (
        rest.0 ∙ ap (λ s. state_after s raw) one.0,
        rest.1
            ∙ ap₂ (λ buf s. buf ++ decode s raw) one.1 one.0
            ∙ append_assoc c.input_buffer (decoded c.telnet_state b) (decode _ raw),
        rest.2 ∙ one.2,
      )

  -- Data that a client escapes arrives unchanged, whatever bytes it holds, and leaves the machine
  -- outside any command.
  pub process_telnet_bytes-escape :
      (data_ : Bytes) (c : Connection V)
      → c.telnet_state ≡ plain
      → ((process_telnet_bytes (escape data_) c).input_buffer ≡ c.input_buffer ++ data_)
        × ((process_telnet_bytes (escape data_) c).telnet_state ≡ plain)
  process_telnet_bytes-escape data_ c h =
      let run = process_telnet_bytes-decode (escape data_) c in
      let coded = escape-decode data_ in
      (
        run.1
            ∙ ap (λ s. c.input_buffer ++ decode s (escape data_)) h
            ∙ ap (λ t. c.input_buffer ++ t) coded.0,
        run.0 ∙ ap (λ s. state_after s (escape data_)) h ∙ coded.1,
      )
