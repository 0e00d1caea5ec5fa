-- ===== src/Docker/LogReader.antt =====
-- internal/docker/log_reader.go: the frames that Docker sends the log of a container in, on bytes. The
-- stream ends where its list does. `io.ReadFull` reports a header that is cut off, so the branch for a
-- short header is never taken. The text that comes with an error is left out: `Read` drops it.
pub mod Lines
pub mod Joins
use dozzle_gaia_fork.Common.{
  ℕ, zero, suc, ◌+◌, ◌*◌, ◌==◌, Bool, true, false, Option, none, some, List, [], ◌∷◌, ◌++◌, length,
  take, drop, ltb, if◌then◌else◌,
}

abbrev pub Bytes : Type 0
Bytes = List ℕ

pub data StdType : Type 0 where
  stdout stderr : StdType

-- `io.EOF` and `io.ErrUnexpectedEOF`
pub data ReadError : Type 0 where
  eof unexpected_eof : ReadError

-- What `readEvent` returns, with what is left of the stream.
pub data Event : Type 0 where
  got : Bytes → StdType → Bytes → Event
  failed : ReadError → Bytes → Event

-- What `Read` returns, with what is left of the stream; with an error, its stream type is left out.
pub data Line : Type 0 where
  line : Bytes → StdType → Bytes → Line
  broken : ReadError → Bytes → Line

abbrev pub newline : ℕ
newline = 10

-- `reader.ReadString('\n')`, with the bytes read so far.
unfoldable pub read_string : Bytes → Bytes → Event
read_string seen [] = failed eof []
read_string seen (b ∷ bs) =
    let rest = read_string (seen ++ (b ∷ [])) bs in
    if b == newline then got (seen ++ (b ∷ [])) stdout bs else rest

abbrev pub stream_type : ℕ → StdType
stream_type b = if b == 2 then stderr else stdout

-- `binary.BigEndian.Uint32`
abbrev pub big_endian : ℕ → ℕ → ℕ → ℕ → ℕ
big_endian a b c d = a * 16777216 + b * 65536 + c * 256 + d

-- The rest of `readEvent`, once it has the number of bytes.
abbrev pub read_body : StdType → ℕ → Bytes → Event
read_body std count bs =
    if count == 0
    then got [] std bs
    else if ltb (length bs) count
    then failed eof []
    else got (take count bs) std (drop count bs)

unfoldable pub read_frame : Bytes → Event
read_frame (b0 ∷ b1 ∷ b2 ∷ b3 ∷ b4 ∷ b5 ∷ b6 ∷ b7 ∷ bs) =
    read_body (stream_type b0) (big_endian b4 b5 b6 b7) bs
read_frame [] = failed eof []
read_frame _ = failed unexpected_eof []

unfoldable pub read_event : Bool → Bytes → Event
unfolding read_string read_frame
read_event true bs = read_string [] bs
read_event false bs = read_frame bs

-- `strings.HasSuffix(message, "\n")`
unfoldable pub ends_line : Bytes → Bool
ends_line [] = false
ends_line (b ∷ []) = b == newline
ends_line (b ∷ c ∷ bs) = ends_line (c ∷ bs)

-- What `strings.Cut(tail, " ")` finds after the space.
unfoldable pub after_space : Bytes → Bytes
after_space [] = []
after_space (b ∷ bs) = let rest = after_space bs in if b == 32 then bs else rest

-- The loop that appends the parts of a long line, each without its timestamp.
unfoldable pub read_parts : Bool → ℕ → Bytes → StdType → Bytes → Option Line
unfolding read_event ends_line after_space
read_parts tty zero message std bs = none
read_parts tty (suc fuel) message std bs =
    if ends_line message then some (line message std bs) else elim (read_event tty bs) [
      | failed err rest ↦ some (broken err rest)
      | got tail _ rest ↦ read_parts tty fuel (message ++ after_space tail) std rest
    ]

unfoldable pub read : Bool → Bytes → Option Line
unfolding read_parts
read tty bs = elim (read_event tty bs) [
  | failed err rest ↦ some (broken err rest)
  | got message std rest ↦ read_parts tty (suc (length rest)) message std rest
]
