-- ===== src/Net/Connection/Outcome.antt =====
-- src/net/Connection.cpp: what one call of `pollLines` does to an open connection.
use mathlib.Core.Path.{subst}
use amlp.Base.{
  ==_iff, ◌==◌, Bool-cases, inl, inr, sym, Bool, true, false, ℕ, ◌&&◌, ◌||◌, List, [], ◌∷◌, ◌++◌,
  some, ◌≡◌, refl, ap, ◌∙◌, Bytes, map, arith,
}
use amlp.Net.Connection.{
  Connection, TelnetState, sb_iac, subnegotiate, telnet_byte, process_telnet_bytes,
}
use amlp.Net.Connection.Pulling.{receive-Pulled, receive-lines, receive-echo}
use amlp.Net.Connection.Decode.{state_after, decode}
use amlp.Net.Connection.Lines.{lines_of, last_line, is_empty}
use amlp.Net.Connection.Polling.{
  ReadResult, bytes, end_of_file, would_block, interrupted, failed, read_chunk, poll_lines,
  strip_cr,
}

-- What the calls of `::read` give up to the first that ends the loop: the bytes, and whether that one
-- was the end of the stream or an error.
pub data Chunk : List ReadResult → Bytes → Bool → Type 0 where
  nothing_left : Chunk [] [] false
  got :
      (b chunk : Bytes) (gone : Bool) (reads : List ReadResult)
      → Chunk reads chunk gone
      → Chunk (bytes b ∷ reads) (b ++ chunk) gone
  again :
      (chunk : Bytes) (gone : Bool) (reads : List ReadResult)
      → Chunk reads chunk gone
      → Chunk (interrupted ∷ reads) chunk gone
  blocked : (reads : List ReadResult) → Chunk (would_block ∷ reads) [] false
  hung_up : (reads : List ReadResult) → Chunk (end_of_file ∷ reads) [] true
  broken : (reads : List ReadResult) → Chunk (failed ∷ reads) [] true

read_chunk-Chunk : (reads : List ReadResult) → Chunk reads (read_chunk reads).0 (read_chunk reads).1
unfolding read_chunk
read_chunk-Chunk [] = nothing_left
read_chunk-Chunk (bytes b ∷ reads) = got b _ _ reads (read_chunk-Chunk reads)
read_chunk-Chunk (interrupted ∷ reads) = again _ _ reads (read_chunk-Chunk reads)
read_chunk-Chunk (would_block ∷ reads) = blocked reads
read_chunk-Chunk (end_of_file ∷ reads) = hung_up reads
read_chunk-Chunk (failed ∷ reads) = broken reads

-- A line less one trailing carriage return.
pub data Stripped (raw line : Bytes) : Type 0 where
  ended : raw ≡ line ++ b'\r' ∷ [] → Stripped raw line
  not_ended : ((front : Bytes) → ¬ (raw ≡ front ++ b'\r' ∷ [])) → raw ≡ line → Stripped raw line

one_byte : (b : ℕ) (front : Bytes) → b ∷ [] ≡ front ++ b'\r' ∷ [] → b ≡ b'\r'
one_byte b [] e = ground (arith, e)
one_byte b (x ∷ []) e = ground (arith, e)
one_byte b (x ∷ y ∷ front) e = ground (arith, e)

later_end :
    (b c : ℕ) (rest front : Bytes)
    → b ∷ c ∷ rest ≡ front ++ b'\r' ∷ []
    → (later : Bytes) × (c ∷ rest ≡ later ++ b'\r' ∷ [])
later_end b c rest [] e = ground (arith, e)
later_end b c rest (x ∷ front) e = (front, ground (arith, e))

strip_cr-Stripped : (raw : Bytes) → Stripped raw (strip_cr raw)
unfolding strip_cr
strip_cr-Stripped [] = not_ended (λ front e. nowhere front e) refl
  where
    nowhere : (front : Bytes) → ¬ ([] ≡ front ++ b'\r' ∷ [])
    nowhere [] e = ground (arith, e)
    nowhere (x ∷ front) e = ground (arith, e)
strip_cr-Stripped (b ∷ []) = elim (Bool-cases (b == b'\r')) [
  | inl e ↦ rw e (ended (ap (λ x. x ∷ []) ((==_iff b b'\r').0 e)))
  | inr e ↦ rw e (not_ended (λ front h. ground (arith, e, one_byte b front h)) refl)
]
strip_cr-Stripped (b ∷ c ∷ rest) = elim (strip_cr-Stripped (c ∷ rest)) [
  | ended e ↦ ended (ap (λ x. b ∷ x) e)
  | not_ended n e ↦
      not_ended (λ front h. let l = later_end b c rest front h in n l.0 l.1) (ap (λ x. b ∷ x) e)
]

-- Two lists of lines, one by one.
pub data EachStripped : List Bytes → List Bytes → Type 0 where
  none_left : EachStripped [] []
  one_more :
      (raw line : Bytes) (raws lines : List Bytes)
      → Stripped raw line
      → EachStripped raws lines
      → EachStripped (raw ∷ raws) (line ∷ lines)

map-EachStripped : (raws : List Bytes) → EachStripped raws (map strip_cr raws)
map-EachStripped [] = none_left
map-EachStripped (raw ∷ raws) =
    one_more raw _ raws _ (strip_cr-Stripped raw) (map-EachStripped raws)

module _ {V : Type 0} where
  subnegotiate-closed : (buf : Bytes) (c : Connection V) → (subnegotiate buf c).closed ≡ c.closed
  unfolding subnegotiate
  subnegotiate-closed [] c = refl
  subnegotiate-closed (b ∷ []) c = ground arith
  subnegotiate-closed (b ∷ w₁ ∷ []) c = ground arith
  subnegotiate-closed (b ∷ w₁ ∷ w₀ ∷ []) c = ground arith
  subnegotiate-closed (b ∷ w₁ ∷ w₀ ∷ h₁ ∷ []) c = ground arith
  subnegotiate-closed (b ∷ w₁ ∷ w₀ ∷ h₁ ∷ h₀ ∷ _) c = ground arith

  telnet_byte-closed :
      (s : TelnetState) (b : ℕ) (c : Connection V) → (telnet_byte s b c).closed ≡ c.closed
  unfolding telnet_byte
  telnet_byte-closed sb_iac b c = ground (arith, subnegotiate-closed c.sb_buffer c)
  telnet_byte-closed _ b c = ground arith

  process_telnet_bytes-closed :
      (raw : Bytes) (c : Connection V) → (process_telnet_bytes raw c).closed ≡ c.closed
  unfolding process_telnet_bytes
  process_telnet_bytes-closed [] c = refl
  process_telnet_bytes-closed (b ∷ raw) c =
      process_telnet_bytes-closed raw _ ∙ telnet_byte-closed c.telnet_state b c

  -- What one poll of `c` comes to, in terms of the bytes read.
  pub record Polled (reads : List ReadResult) (c : Connection V) (r : Connection V × List Bytes)
      : Type 0 where
    pub chunk : Bytes
    pub gone : Bool
    pub read : Chunk reads chunk gone
    pub lines : EachStripped (lines_of [] (c.input_buffer ++ decode c.telnet_state chunk)) r.1
    pub buffer : r.0.input_buffer ≡ last_line [] (c.input_buffer ++ decode c.telnet_state chunk)
    pub state : r.0.telnet_state ≡ state_after c.telnet_state chunk
    pub echo : r.0.echo_suppressed ≡ (c.echo_suppressed && is_empty r.1)
    pub closed : r.0.closed ≡ (c.closed || gone)

  -- One poll of an open connection reads the bytes that come before the first call of `::read` that
  -- would block, fails or meets the end of the stream. The lines handed on are the complete lines of
  -- the buffered text and the decoded bytes read, each less one trailing carriage return; the
  -- unfinished line stays buffered; the echo flag is cleared exactly if a line came; and the
  -- connection is marked closed exactly if it was or the read loop met the end of the stream or an
  -- error.
  pub poll_lines-lines :
      (reads : List ReadResult) (fd : ℕ) (c : Connection V)
      → c.fd ≡ some fd
      → Polled reads c (poll_lines reads c)
  unfolding poll_lines
  poll_lines-lines reads fd c h =
      let (chunk, gone) = read_chunk reads in
      let e = record c { closed = c.closed || gone } in
      let r = receive-lines chunk e in
      rw (h, poll_lines)
        (record {
          chunk = chunk;
          gone = gone;
          read = read_chunk-Chunk reads;
          lines =
              subst (EachStripped (lines_of [] (c.input_buffer ++ decode c.telnet_state chunk)))
                (sym r.0)
                (map-EachStripped (lines_of [] (c.input_buffer ++ decode c.telnet_state chunk)));
          buffer = r.1;
          state = r.2;
          echo = receive-echo chunk e;
          closed =
              ap (λ (d : Connection V). d.closed) (receive-Pulled chunk e).others
              ∙ process_telnet_bytes-closed chunk e;
        })
