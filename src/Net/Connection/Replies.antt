-- ===== src/Net/Connection/Replies.antt =====
-- src/net/Connection.cpp: what the telnet machine sends, as a function of the bytes read.
use mathlib.Core.Path.{ap₂}
use amlp.Base.{
  none, ℕ, ◌+◌, ◌*◌, ◌≤◌, List, [], ◌∷◌, ◌++◌, some, ◌≡◌, refl, sym, ap, ◌∙◌, ◌==◌, if◌then◌else◌,
  Bytes, arith, append-nil, append_assoc, length, All, All-append,
}
use amlp.Net.Connection.{
  Connection, TelnetState, plain, iac, will, do_, sb, sb_iac, k_iac, k_wont, k_dont, k_sb, k_se,
  opt_echo, opt_ttype, opt_naws, qual_send, handle_negotiation, subnegotiate, handle_subnegotiation,
  telnet_byte, process_telnet_bytes,
}
use amlp.Net.Connection.Decode.{next_state, telnet_byte-decoded}

-- The answer to the option byte behind WILL or DO.
abbrev pub answer : TelnetState → ℕ → List Bytes
answer will option =
    if option == opt_echo
    then []
    else if option == opt_naws
    then []
    else if option == opt_ttype
    then (k_iac ∷ k_sb ∷ opt_ttype ∷ qual_send ∷ k_iac ∷ k_se ∷ []) ∷ []
    else (k_iac ∷ k_dont ∷ option ∷ []) ∷ []
answer do_ option = if option == opt_echo then [] else (k_iac ∷ k_wont ∷ option ∷ []) ∷ []
answer _ option = []

abbrev pub answers : TelnetState → Bytes → List Bytes
answers s [] = []
answers s (b ∷ raw) = answer s b ++ answers (next_state s b) raw

-- The bytes of a list of messages.
abbrev pub total : List Bytes → ℕ
total [] = 0
total (m ∷ ms) = length m + total ms

total-append : (xs ys : List Bytes) → total (xs ++ ys) ≡ total xs + total ys
total-append [] ys = omega arith
total-append (m ∷ xs) ys = omega (arith, total-append xs ys)

-- The bytes of a command read so far.
abbrev pending : TelnetState → ℕ
pending plain = 0
pending iac = 1
pending sb = 1
pending sb_iac = 1
pending _ = 2

answer-total :
    (s : TelnetState) (b : ℕ)
    → total (answer s b) + 2 * pending (next_state s b) ≤ 2 * pending s + 2
answer-total plain b = ground arith
answer-total iac b = ground arith
answer-total will b = ground arith
answer-total do_ b = ground arith
answer-total sb b = ground arith
answer-total sb_iac b = ground arith
answer-total _ b = ground arith

answers-total :
    (raw : Bytes) (s : TelnetState) → total (answers s raw) ≤ 2 * pending s + 2 * length raw
answers-total [] s = omega arith
answers-total (b ∷ raw) s = omega (
  arith,
  answers-total raw (next_state s b),
  answer-total s b,
  total-append (answer s b) (answers (next_state s b) raw),
)

-- A message that the machine would not answer if the peer sent it back.
abbrev pub IsFinal : Bytes → Type 0
IsFinal m = answers plain m ≡ []

answer-IsFinal : (s : TelnetState) (b : ℕ) → All IsFinal (answer s b)
answer-IsFinal will b = ground arith
answer-IsFinal do_ b = ground arith
answer-IsFinal _ b = tt

answers-IsFinal : (raw : Bytes) (s : TelnetState) → All IsFinal (answers s raw)
answers-IsFinal [] s = tt
answers-IsFinal (b ∷ raw) s =
    All-append IsFinal (answer s b) _ (answer-IsFinal s b) (answers-IsFinal raw (next_state s b))

module _ {V : Type 0} where
  subnegotiate-sent :
      (buf : Bytes) (c : Connection V)
      → ((subnegotiate buf c).sent ≡ c.sent) × ((subnegotiate buf c).fd ≡ c.fd)
  unfolding subnegotiate
  subnegotiate-sent [] c = (refl, refl)
  subnegotiate-sent (b ∷ []) c = ground arith
  subnegotiate-sent (b ∷ w₁ ∷ []) c = ground arith
  subnegotiate-sent (b ∷ w₁ ∷ w₀ ∷ []) c = ground arith
  subnegotiate-sent (b ∷ w₁ ∷ w₀ ∷ h₁ ∷ []) c = ground arith
  subnegotiate-sent (b ∷ w₁ ∷ w₀ ∷ h₁ ∷ h₀ ∷ _) c = ground arith

  pub telnet_byte-sent :
      (s : TelnetState) (b fd : ℕ) (c : Connection V)
      → c.fd ≡ some fd
      → ((telnet_byte s b c).sent ≡ c.sent ++ answer s b) × ((telnet_byte s b c).fd ≡ some fd)
  unfolding telnet_byte handle_subnegotiation handle_negotiation
  telnet_byte-sent plain b fd c h = ground (arith, append-nil c.sent)
  telnet_byte-sent iac b fd c h = ground (arith, append-nil c.sent)
  telnet_byte-sent will b fd c h = ground (arith, append-nil c.sent)
  telnet_byte-sent do_ b fd c h = ground (arith, append-nil c.sent)
  telnet_byte-sent sb b fd c h = ground (arith, append-nil c.sent)
  telnet_byte-sent sb_iac b fd c h =
      ground (arith, append-nil c.sent, subnegotiate-sent c.sb_buffer c)
  telnet_byte-sent _ b fd c h = ground (arith, append-nil c.sent)

  -- Without a descriptor nothing is sent.
  pub telnet_byte-unsent :
      (s : TelnetState) (b : ℕ) (c : Connection V)
      → c.fd ≡ none
      → ((telnet_byte s b c).sent ≡ c.sent) × ((telnet_byte s b c).fd ≡ none)
  unfolding telnet_byte handle_subnegotiation handle_negotiation
  telnet_byte-unsent sb_iac b c h = ground (arith, subnegotiate-sent c.sb_buffer c)
  telnet_byte-unsent _ b c h = ground arith

  process_telnet_bytes-sent :
      (raw : Bytes) (fd : ℕ) (c : Connection V)
      → c.fd ≡ some fd
      → (process_telnet_bytes raw c).sent ≡ c.sent ++ answers c.telnet_state raw
  unfolding process_telnet_bytes
  process_telnet_bytes-sent [] fd c h = sym (append-nil c.sent)
  process_telnet_bytes-sent (b ∷ raw) fd c h =
      let one = telnet_byte-sent c.telnet_state b fd c h in
      let s = (telnet_byte-decoded c.telnet_state b c refl).0 in
      process_telnet_bytes-sent raw fd (telnet_byte c.telnet_state b c) one.1
      ∙ ap₂ (λ m t. m ++ answers t raw) one.0 s
      ∙ append_assoc c.sent (answer c.telnet_state b) (answers (next_state c.telnet_state b) raw)

  -- On an open connection outside a command the machine sends the answers to the WILL and DO
  -- commands of the stream, in order and nothing else; in all at most two bytes for each byte read;
  -- and no answer would be answered in turn, so two such machines cannot loop.
  pub process_telnet_bytes-answers :
      (raw : Bytes) (fd : ℕ) (c : Connection V)
      → c.fd ≡ some fd
      → c.telnet_state ≡ plain
      → ((process_telnet_bytes raw c).sent ≡ c.sent ++ answers plain raw)
        × (total (answers plain raw) ≤ 2 * length raw)
        × All IsFinal (answers plain raw)
  process_telnet_bytes-answers raw fd c h p = (
    process_telnet_bytes-sent raw fd c h ∙ ap (λ s. c.sent ++ answers s raw) p,
    omega (arith, answers-total raw plain),
    answers-IsFinal raw plain,
  )
