-- ===== src/Tests/Frames.antt =====
-- Frames of Docker's logs, read on small streams.
use dozzle_gaia_fork.Common.{true, false, some, [], ◌∷◌, ◌++◌, ◌≡◌, refl, arith}
use dozzle_gaia_fork.Docker.LogReader.{
  Bytes, stdout, stderr, unexpected_eof, line, broken, ends_line, read,
}
use dozzle_gaia_fork.Docker.LogReader.Joins.{
  frame, frames, Part, IsSplit, ends, goes_on, space, digit, read-frames,
}
use dozzle_gaia_fork.Docker.LogReader.Lines.{Returned, read-Returned}

-- "7 a", without its newline
abbrev first : Bytes
first = 55 ∷ 32 ∷ 97 ∷ []

-- "8 ", and "b" with the newline
abbrev second : Part
second = record { stamp = 56 ∷ 32 ∷ []; content = 98 ∷ 10 ∷ [] }

read_cut_header : read false (1 ∷ 0 ∷ 0 ∷ []) ≡ some (broken unexpected_eof [])
unfolding read
read_cut_header = refl

read_tty : read true (97 ∷ 10 ∷ 98 ∷ []) ≡ some (line (97 ∷ 10 ∷ []) stdout (98 ∷ []))
unfolding read
read_tty = refl

first-IsSplit : IsSplit first (second ∷ [])
unfolding ends_line
first-IsSplit =
    goes_on first (56 ∷ 32 ∷ []) (98 ∷ 10 ∷ []) [] refl (digit 56 (32 ∷ []) refl space)
      (omega arith) (ends (first ++ (98 ∷ 10 ∷ [])) refl)

read-frames_example :
    read false ((frame stderr first ++ frames stderr (second ∷ [])) ++ (1 ∷ 0 ∷ []))
    ≡ some (line (55 ∷ 32 ∷ 97 ∷ 98 ∷ 10 ∷ []) stderr (1 ∷ 0 ∷ []))
read-frames_example =
    read-frames stderr first (second ∷ []) (1 ∷ 0 ∷ []) (omega arith) first-IsSplit

read-Returned_example : Returned (read false (frame stdout (97 ∷ 10 ∷ []) ++ (2 ∷ [])))
read-Returned_example = read-Returned false (frame stdout (97 ∷ 10 ∷ []) ++ (2 ∷ []))
