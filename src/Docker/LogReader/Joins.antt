-- ===== src/Docker/LogReader/Joins.antt =====
-- A long line that Docker sends in several frames is put together again.
use dozzle_gaia_fork.Common.{
  ℕ, zero, suc, ◌/◌, ◌%◌, ◌<◌, ◌≤◌, ◌==◌, ◌≡◌, refl, ap, ◌∙◌, Bool, true, false, Option, some, List,
  [], ◌∷◌, ◌++◌, length, take, drop, ltb, if◌then◌else◌, arith, length-append, append_assoc,
}
use dozzle_gaia_fork.Docker.LogReader.{
  Bytes, StdType, stdout, stderr, eof, got, failed, Line, line, broken, stream_type, big_endian,
  read_body, read_frame, read_event, ends_line, after_space, read_parts, read,
}

abbrev code : StdType → ℕ
code stdout = 1
code stderr = 2

-- A frame as Docker writes it: the stream, three bytes 0, the number of bytes, the bytes.
abbrev pub frame : StdType → Bytes → Bytes
frame std m =
    code std
    ∷ 0
    ∷ 0
    ∷ 0
    ∷ length m / 16777216 % 256
    ∷ length m / 65536 % 256
    ∷ length m / 256 % 256
    ∷ length m % 256
    ∷ m

big_endian-digits :
    (n : ℕ)
    → n < 4294967296
    → big_endian (n / 16777216 % 256) (n / 65536 % 256) (n / 256 % 256) (n % 256) ≡ n
big_endian-digits n h = omega arith

stream_type-code : (s : StdType) → stream_type (code s) ≡ s
stream_type-code stdout = refl
stream_type-code stderr = refl

take-front : (m rest : Bytes) → take (length m) (m ++ rest) ≡ m
take-front [] rest = refl
take-front (b ∷ m) rest = ap (λ x. b ∷ x) (take-front m rest)

drop-front : (m rest : Bytes) → drop (length m) (m ++ rest) ≡ rest
drop-front [] rest = refl
drop-front (b ∷ m) rest = drop-front m rest

ltb-no : (a b : ℕ) → b ≤ a → ltb a b ≡ false
ltb-no a b h = ground arith

suc-nonzero : (n : ℕ) → (suc n == 0) ≡ false
suc-nonzero n = ground arith

read_body-front : (s : StdType) (m rest : Bytes) → read_body s (length m) (m ++ rest) ≡ got m s rest
read_body-front s [] rest = refl
read_body-front s (b ∷ m) rest =
    ap
      (λ c.
        if c
        then got [] s (b ∷ (m ++ rest))
        else if ltb (suc (length (m ++ rest))) (suc (length m))
        then failed eof []
        else got (b ∷ take (length m) (m ++ rest)) s (drop (length m) (m ++ rest)))
      (suc-nonzero (length m))
    ∙ ap
        (λ c.
          if c
          then failed eof []
          else got (b ∷ take (length m) (m ++ rest)) s (drop (length m) (m ++ rest)))
        (ltb-no (suc (length (m ++ rest))) (suc (length m)) (omega (arith, length-append m rest)))
    ∙ ap (λ x. got (b ∷ x) s (drop (length m) (m ++ rest))) (take-front m rest)
    ∙ ap (λ x. got (b ∷ m) s x) (drop-front m rest)

read_frame-frame :
    (s : StdType) (m rest : Bytes)
    → length m < 4294967296
    → read_frame (frame s m ++ rest) ≡ got m s rest
unfolding read_frame
read_frame-frame s m rest h =
    ap (λ t. read_body t _ (m ++ rest)) (stream_type-code s)
    ∙ ap (λ n. read_body s n (m ++ rest)) (big_endian-digits (length m) h)
    ∙ read_body-front s m rest

-- A stamp without a space, and the space after it.
pub data IsStamp : Bytes → Type 0 where
  space : IsStamp (32 ∷ [])
  digit : (b : ℕ) (bs : Bytes) → (b == 32) ≡ false → IsStamp bs → IsStamp (b ∷ bs)

after_space-stamp : (t part : Bytes) → IsStamp t → after_space (t ++ part) ≡ part
unfolding after_space
after_space-stamp _ part space = refl
after_space-stamp _ part (digit b bs h stamp) =
    ap (λ c. if c then bs ++ part else after_space (bs ++ part)) h ∙ after_space-stamp bs part stamp

-- The parts of a long line after the first, each with its stamp.
pub record Part : Type 0 where
  pub stamp : Bytes
  pub content : Bytes

abbrev pub frames : StdType → List Part → Bytes
frames std [] = []
frames std (p ∷ ps) = frame std (p.stamp ++ p.content) ++ frames std ps

abbrev pub joined : Bytes → List Part → Bytes
joined m [] = m
joined m (p ∷ ps) = joined (m ++ p.content) ps

-- A line that Docker has split: only its last part ends in a newline.
pub data IsSplit : Bytes → List Part → Type 0 where
  ends : (m : Bytes) → ends_line m ≡ true → IsSplit m []
  goes_on :
      (m t c : Bytes) (ps : List Part)
      → ends_line m ≡ false
      → IsStamp t
      → length (t ++ c) < 4294967296
      → IsSplit (m ++ c) ps
      → IsSplit m (record { stamp = t; content = c } ∷ ps)

if-true : {A : Type 0} → (c : Bool) (x y : A) → c ≡ true → (if c then x else y) ≡ x
if-true c x y h = ap (λ c. if c then x else y) h

if-false : {A : Type 0} → (c : Bool) (x y : A) → c ≡ false → (if c then x else y) ≡ y
if-false c x y h = ap (λ c. if c then x else y) h

-- A frame in front of the stream is what `readEvent` returns.
read_event-frame :
    (s : StdType) (m bs rest : Bytes)
    → length m < 4294967296
    → read_event false ((frame s m ++ bs) ++ rest) ≡ got m s (bs ++ rest)
unfolding read_event
read_event-frame s m bs rest h =
    ap read_frame (append_assoc (frame s m) bs rest) ∙ read_frame-frame s m (bs ++ rest) h

fuel_left :
    (s : StdType) (m bs rest : Bytes) (fuel : ℕ)
    → length ((frame s m ++ bs) ++ rest) < suc fuel
    → length (bs ++ rest) < fuel
fuel_left s m bs rest fuel h =
    omega (arith, length-append bs rest, length-append (m ++ bs) rest, length-append m bs)

read_parts-frames :
    (s : StdType) (m : Bytes) (ps : List Part) (rest : Bytes) (fuel : ℕ)
    → IsSplit m ps
    → length (frames s ps ++ rest) < fuel
    → read_parts false fuel m s (frames s ps ++ rest) ≡ some (line (joined m ps) s rest)
unfolding read_parts
read_parts-frames s m ps rest zero split h = ground arith
read_parts-frames s _ _ rest (suc fuel) (ends m end) h = if-true (ends_line m) _ _ end
read_parts-frames s _ _ rest (suc fuel) (goes_on m t c ps no_end stamp size split) h =
    if-false (ends_line m) _ _ no_end
    ∙ ap
        (λ o. elim o as (λ _. Option Line) [
          | failed err left ↦ some (broken err left)
          | got tail _ left ↦ read_parts false fuel (m ++ after_space tail) s left
        ])
        (read_event-frame s (t ++ c) (frames s ps) rest size)
    ∙ ap (λ x. read_parts false fuel (m ++ x) s (frames s ps ++ rest)) (after_space-stamp t c stamp)
    ∙ read_parts-frames s (m ++ c) ps rest fuel split
        (fuel_left s (t ++ c) (frames s ps) rest fuel h)

-- A line of which only the last part ends in a newline, split into frames of less than 4 GB each, all
-- but the first with a stamp in front, is read back whole, and what follows it is left in the stream.
pub read-frames :
    (s : StdType) (m : Bytes) (ps : List Part) (rest : Bytes)
    → length m < 4294967296
    → IsSplit m ps
    → read false ((frame s m ++ frames s ps) ++ rest) ≡ some (line (joined m ps) s rest)
unfolding read
read-frames s m ps rest size split =
    ap
      (λ o. elim o as (λ _. Option Line) [
        | failed err left ↦ some (broken err left)
        | got message std left ↦ read_parts false (suc (length left)) message std left
      ])
      (read_event-frame s m (frames s ps) rest size)
    ∙ read_parts-frames s m ps rest (suc (length (frames s ps ++ rest))) split (omega arith)
