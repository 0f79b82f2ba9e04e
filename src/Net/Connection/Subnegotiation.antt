-- ===== src/Net/Connection/Subnegotiation.antt =====
-- src/net/Connection.cpp: the window size and the terminal type that a client reports.
use amlp.Base.{
  ℕ, ◌/◌, ◌%◌, ◌<◌, true, false, [], ◌∷◌, ◌++◌, ◌≡◌, refl, ap, ◌∙◌, ◌==◌, if◌then◌else◌, Bytes,
  arith, append-nil, append_assoc,
}
use amlp.Net.Connection.{
  Connection, plain, sb, sb_iac, k_iac, k_sb, k_se, opt_naws, opt_ttype, qual_is, subnegotiate,
  handle_subnegotiation, telnet_byte, process_telnet_bytes,
}
use amlp.Net.Connection.Decode.{escape}

-- What a client sends: the option and its payload, each IAC of the payload twice.
abbrev pub subnegotiation : ℕ → Bytes → Bytes
subnegotiation option payload = k_iac ∷ k_sb ∷ option ∷ (escape payload ++ k_iac ∷ k_se ∷ [])

-- The four bytes of a window size, most significant first (RFC 1073).
abbrev pub size_bytes : ℕ → ℕ → Bytes
size_bytes width height = (width / 256) ∷ (width % 256) ∷ (height / 256) ∷ (height % 256) ∷ []

escape-cons :
    (b : ℕ) (data_ rest : Bytes)
    → escape (b ∷ data_) ++ rest
      ≡ (if b == k_iac then b ∷ b ∷ (escape data_ ++ rest) else b ∷ (escape data_ ++ rest))
escape-cons b data_ rest = ground arith

module _ {V : Type 0} where
  -- One byte of a payload, doubled if it is an IAC.
  process_telnet_bytes-payload_byte :
      (b : ℕ) (rest : Bytes) (c : Connection V)
      → c.telnet_state ≡ sb
      → process_telnet_bytes (if b == k_iac then b ∷ b ∷ rest else b ∷ rest) c
        ≡ process_telnet_bytes rest (record c { sb_buffer = c.sb_buffer ++ b ∷ [] })
  unfolding process_telnet_bytes telnet_byte
  process_telnet_bytes-payload_byte b rest c h = ground arith

  process_telnet_bytes-escape_sb :
      (data_ rest : Bytes) (c : Connection V)
      → c.telnet_state ≡ sb
      → process_telnet_bytes (escape data_ ++ rest) c
        ≡ process_telnet_bytes rest (record c { sb_buffer = c.sb_buffer ++ data_ })
  process_telnet_bytes-escape_sb [] rest c h = rw append-nil
  process_telnet_bytes-escape_sb (b ∷ data_) rest c h =
      ap (λ t. process_telnet_bytes t c) (escape-cons b data_ rest)
      ∙ process_telnet_bytes-payload_byte b (escape data_ ++ rest) c h
      ∙ process_telnet_bytes-escape_sb data_ rest (record c { sb_buffer = c.sb_buffer ++ b ∷ [] }) h
      ∙ rw append_assoc

  -- The three bytes that open a subnegotiation, and the two that close it.
  process_telnet_bytes-open :
      (option : ℕ) (rest : Bytes) (c : Connection V)
      → c.telnet_state ≡ plain
      → (option == k_iac) ≡ false
      → process_telnet_bytes (k_iac ∷ k_sb ∷ option ∷ rest) c
        ≡ process_telnet_bytes rest (record c { telnet_state = sb; sb_buffer = option ∷ [] })
  unfolding process_telnet_bytes telnet_byte
  process_telnet_bytes-open option rest c h n = ground arith

  process_telnet_bytes-close :
      (c : Connection V)
      → c.telnet_state ≡ sb
      → process_telnet_bytes (k_iac ∷ k_se ∷ []) c
        ≡ record (handle_subnegotiation (record c { telnet_state = sb_iac })) {
          telnet_state = plain;
        }
  unfolding process_telnet_bytes telnet_byte
  process_telnet_bytes-close c h = ground arith

  -- A subnegotiation of any payload, its IAC bytes doubled, is handed to the option's branch whole.
  process_telnet_bytes-subnegotiation :
      (option : ℕ) (payload : Bytes) (c : Connection V)
      → c.telnet_state ≡ plain
      → (option == k_iac) ≡ false
      → process_telnet_bytes (subnegotiation option payload) c
        ≡ record (subnegotiate
            (option ∷ payload)
            (record c { telnet_state = sb_iac; sb_buffer = option ∷ payload })) {
              telnet_state = plain;
            }
  unfolding handle_subnegotiation
  process_telnet_bytes-subnegotiation option payload c h n =
      process_telnet_bytes-open option _ c h n
      ∙ process_telnet_bytes-escape_sb payload (k_iac ∷ k_se ∷ [])
          (record c { telnet_state = sb; sb_buffer = option ∷ [] }) refl
      ∙ process_telnet_bytes-close (record c { telnet_state = sb; sb_buffer = option ∷ payload })
          refl

  -- A window size below 65536 either way is read back as it was sent, also where one of its bytes
  -- is 255; besides the size only the update flag and the subnegotiation buffer change, and nothing
  -- is sent.
  pub process_telnet_bytes-size :
      (width height : ℕ) (c : Connection V)
      → c.telnet_state ≡ plain
      → width < 65536
      → height < 65536
      → process_telnet_bytes (subnegotiation opt_naws (size_bytes width height)) c ≡ record c {
        sb_buffer = opt_naws ∷ size_bytes width height;
        terminal_width = width;
        terminal_height = height;
        window_size_updated = true;
      }
  unfolding subnegotiate
  process_telnet_bytes-size width height c h w v =
      process_telnet_bytes-subnegotiation opt_naws (size_bytes width height) c h refl ∙ ground arith

  -- A terminal type of any bytes is read back as it was sent.
  pub process_telnet_bytes-type :
      (name : Bytes) (c : Connection V)
      → c.telnet_state ≡ plain
      → process_telnet_bytes (subnegotiation opt_ttype (qual_is ∷ name)) c ≡ record c {
        sb_buffer = opt_ttype ∷ qual_is ∷ name;
        terminal_type = name;
        terminal_type_updated = true;
      }
  unfolding subnegotiate
  process_telnet_bytes-type name c h =
      process_telnet_bytes-subnegotiation opt_ttype (qual_is ∷ name) c h refl ∙ ground arith
