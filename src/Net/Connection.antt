-- ===== src/Net/Connection.antt =====
-- src/net/Connection.cpp and include/amlp/net/Connection.hpp: the state of one connection and the
-- telnet byte machine. `sent` records the messages handed to the write loop, in order.
pub mod Polling
pub mod Decode
pub mod Subnegotiation
pub mod Replies
pub mod Lines
pub mod Messages
pub mod Pulling
pub mod Chunks
pub mod Outcome
pub mod Sending
mod Examples
use amlp.Base.{
  ℕ, ◌+◌, ◌*◌, Bool, true, false, List, [], ◌∷◌, ◌++◌, Option, none, some, ◌==◌, if◌then◌else◌,
  Bytes,
}

pub data TelnetState : Type 0 where
  plain iac will wont do_ dont sb sb_iac : TelnetState

-- The constants of the anonymous namespace.
abbrev pub k_iac : ℕ
k_iac = 255

abbrev pub k_dont : ℕ
k_dont = 254

abbrev pub k_do : ℕ
k_do = 253

abbrev pub k_wont : ℕ
k_wont = 252

abbrev pub k_will : ℕ
k_will = 251

abbrev pub k_sb : ℕ
k_sb = 250

abbrev pub k_se : ℕ
k_se = 240

abbrev pub opt_echo : ℕ
opt_echo = 1

abbrev pub opt_ttype : ℕ
opt_ttype = 24

abbrev pub opt_naws : ℕ
opt_naws = 31

abbrev pub qual_is : ℕ
qual_is = 0

abbrev pub qual_send : ℕ
qual_send = 1

-- `V` is the type of LPC values; objects are named by numbers.
pub record PendingInputTo (V : Type 0) : Type 0 where
  pub object : ℕ
  pub function : V
  pub extra_args : List V

-- `fd` is `none` for the closed descriptor -1.
pub record Connection (V : Type 0) : Type 0 where
  pub fd : Option ℕ
  pub input_buffer : Bytes
  pub bound_object : Option ℕ
  pub closed : Bool
  pub pending_input_to : Option (PendingInputTo V)
  pub pending_notify_fail : Option V
  pub last_activity_time : ℕ
  pub telnet_state : TelnetState
  pub sb_buffer : Bytes
  pub echo_suppressed : Bool
  pub terminal_width : ℕ
  pub terminal_height : ℕ
  pub window_size_updated : Bool
  pub terminal_type : Bytes
  pub terminal_type_updated : Bool
  pub sent : List Bytes

module _ {V : Type 0} where
  -- The constructor: the descriptor and the clock's reading.
  abbrev pub open_connection : ℕ → ℕ → Connection V
  open_connection fd now = record {
    fd = some fd;
    input_buffer = [];
    bound_object = none;
    closed = false;
    pending_input_to = none;
    pending_notify_fail = none;
    last_activity_time = now;
    telnet_state = plain;
    sb_buffer = [];
    echo_suppressed = false;
    terminal_width = 0;
    terminal_height = 0;
    window_size_updated = false;
    terminal_type = [];
    terminal_type_updated = false;
    sent = [];
  }

  unfoldable pub send : Bytes → Connection V → Connection V
  send message c = elim c.fd [ none ↦ c | some _ ↦ record c { sent = c.sent ++ message ∷ [] } ]

  unfoldable pub suppress_echo : Connection V → Connection V
  unfolding send
  suppress_echo c =
      if c.echo_suppressed
      then c
      else send (k_iac ∷ k_will ∷ opt_echo ∷ []) (record c { echo_suppressed = true })

  unfoldable pub request_window_size : Connection V → Connection V
  unfolding send
  request_window_size c = send (k_iac ∷ k_do ∷ opt_naws ∷ []) c

  unfoldable pub request_terminal_type : Connection V → Connection V
  unfolding send
  request_terminal_type c = send (k_iac ∷ k_sb ∷ opt_ttype ∷ qual_send ∷ k_iac ∷ k_se ∷ []) c

  unfoldable pub start_request_terminal_type : Connection V → Connection V
  unfolding send
  start_request_terminal_type c = send (k_iac ∷ k_do ∷ opt_ttype ∷ []) c

  unfoldable pub handle_negotiation : TelnetState → ℕ → Connection V → Connection V
  unfolding send request_terminal_type
  handle_negotiation will option c =
      if option == opt_echo
      then c
      else if option == opt_naws
      then c
      else if option == opt_ttype
      then request_terminal_type c
      else send (k_iac ∷ k_dont ∷ option ∷ []) c
  handle_negotiation do_ option c =
      if option == opt_echo then c else send (k_iac ∷ k_wont ∷ option ∷ []) c
  handle_negotiation _ option c = c

  -- The `TTYPE` branch, on the bytes behind the option.
  terminal_type_reply : Bytes → Connection V → Connection V
  terminal_type_reply [] c = c
  terminal_type_reply (qual ∷ name) c =
      if qual == qual_is then record c { terminal_type = name; terminal_type_updated = true } else c

  -- The `NAWS` branch, on the bytes behind the option. `(a << 8) | b` of two bytes is a sum.
  window_size_reply : Bytes → Connection V → Connection V
  window_size_reply (w₁ ∷ w₀ ∷ h₁ ∷ h₀ ∷ _) c = record c {
    terminal_width = w₁ * 256 + w₀;
    terminal_height = h₁ * 256 + h₀;
    window_size_updated = true;
  }
  window_size_reply _ c = c

  subnegotiate : Bytes → Connection V → Connection V
  unfolding terminal_type_reply window_size_reply
  subnegotiate [] c = c
  subnegotiate (option ∷ payload) c =
      if option == opt_ttype
      then terminal_type_reply payload c
      else if option == opt_naws
      then window_size_reply payload c
      else c

  unfoldable pub handle_subnegotiation : Connection V → Connection V
  unfolding subnegotiate
  handle_subnegotiation c = subnegotiate c.sb_buffer c

  abbrev to_state : TelnetState → Connection V → Connection V
  to_state s c = record c { telnet_state = s }

  -- `plainOut` is the input buffer: `pollLines` is the only caller.
  abbrev push_plain : ℕ → Connection V → Connection V
  push_plain b c = record c { input_buffer = c.input_buffer ++ b ∷ [] }

  abbrev push_sb : ℕ → Connection V → Connection V
  push_sb b c = record c { sb_buffer = c.sb_buffer ++ b ∷ [] }

  -- The byte behind an IAC.
  telnet_command : ℕ → Connection V → Connection V
  telnet_command b c =
      if b == k_iac
      then to_state plain (push_plain k_iac c)
      else if b == k_will
      then to_state will c
      else if b == k_wont
      then to_state wont c
      else if b == k_do
      then to_state do_ c
      else if b == k_dont
      then to_state dont c
      else if b == k_sb
      then record c { telnet_state = sb; sb_buffer = [] }
      else to_state plain c

  -- One round of the loop of `processTelnetBytes`, in each state.
  unfoldable pub telnet_byte : TelnetState → ℕ → Connection V → Connection V
  unfolding telnet_command handle_negotiation handle_subnegotiation
  telnet_byte plain b c = if b == k_iac then to_state iac c else push_plain b c
  telnet_byte iac b c = telnet_command b c
  telnet_byte will b c = to_state plain (handle_negotiation will b c)
  telnet_byte wont b c = to_state plain (handle_negotiation wont b c)
  telnet_byte do_ b c = to_state plain (handle_negotiation do_ b c)
  telnet_byte dont b c = to_state plain (handle_negotiation dont b c)
  telnet_byte sb b c = if b == k_iac then to_state sb_iac c else push_sb b c
  telnet_byte sb_iac b c =
      if b == k_se
      then to_state plain (handle_subnegotiation c)
      else if b == k_iac
      then to_state sb (push_sb k_iac c)
      else to_state plain c

  unfoldable pub process_telnet_bytes : Bytes → Connection V → Connection V
  process_telnet_bytes [] c = c
  process_telnet_bytes (b ∷ raw) c = process_telnet_bytes raw (telnet_byte c.telnet_state b c)
