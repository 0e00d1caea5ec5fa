-- ===== src/Docker/LogReader/Lines.antt =====
-- `Read` always returns.
use dozzle_gaia_fork.Common.{
  ℕ, zero, suc, ◌<◌, ◌≤◌, ◌==◌, ◌≡◌, refl, Bool, true, false, Option, some, [], ◌∷◌, ◌++◌, length,
  drop, ltb, if◌then◌else◌, arith, length-drop,
}
use dozzle_gaia_fork.Docker.LogReader.{
  Bytes, StdType, ReadError, Event, got, failed, Line, line, broken, newline, read_string,
  stream_type, big_endian, read_body, read_frame, read_event, ends_line, after_space, read_parts,
  read,
}

-- What is left of a stream of this length.
data Shorter (n : ℕ) : Event → Type 0 where
  shorter : (m : Bytes) (s : StdType) (rest : Bytes) → length rest < n → Shorter n (got m s rest)
  stopped : (err : ReadError) (rest : Bytes) → Shorter n (failed err rest)

either-Shorter :
    {n : ℕ} → (c : Bool) (x y : Event) → Shorter n x → Shorter n y → Shorter n (if c then x else y)
either-Shorter true x y p q = p
either-Shorter false x y p q = q

read_string-Shorter : (seen bs : Bytes) (n : ℕ) → length bs ≤ n → Shorter n (read_string seen bs)
unfolding read_string
read_string-Shorter seen [] n h = stopped _ _
read_string-Shorter seen (b ∷ bs) n h =
    either-Shorter (b == newline) _ _ (shorter _ _ bs (omega arith))
      (read_string-Shorter (seen ++ (b ∷ [])) bs n (omega arith))

read_body-Shorter :
    (s : StdType) (count : ℕ) (bs : Bytes) (n : ℕ)
    → length bs < n
    → Shorter n (read_body s count bs)
read_body-Shorter s count bs n h = either-Shorter (count == 0) _ _ (shorter _ _ bs h) (
    either-Shorter (ltb (length bs) count) _ _ (stopped _ _)
      (shorter _ _ (drop count bs) (omega (arith, length-drop count bs))))

read_frame-Shorter : (bs : Bytes) (n : ℕ) → length bs ≤ n → Shorter n (read_frame bs)
unfolding read_frame
read_frame-Shorter (b0 ∷ b1 ∷ b2 ∷ b3 ∷ b4 ∷ b5 ∷ b6 ∷ b7 ∷ bs) n h =
    read_body-Shorter (stream_type b0) (big_endian b4 b5 b6 b7) bs n (omega arith)
read_frame-Shorter [] n h = stopped _ _
read_frame-Shorter (_ ∷ []) n h = stopped _ _
read_frame-Shorter (_ ∷ _ ∷ []) n h = stopped _ _
read_frame-Shorter (_ ∷ _ ∷ _ ∷ []) n h = stopped _ _
read_frame-Shorter (_ ∷ _ ∷ _ ∷ _ ∷ []) n h = stopped _ _
read_frame-Shorter (_ ∷ _ ∷ _ ∷ _ ∷ _ ∷ []) n h = stopped _ _
read_frame-Shorter (_ ∷ _ ∷ _ ∷ _ ∷ _ ∷ _ ∷ []) n h = stopped _ _
read_frame-Shorter (_ ∷ _ ∷ _ ∷ _ ∷ _ ∷ _ ∷ _ ∷ []) n h = stopped _ _

-- What is read leaves less than the stream.
read_event-Shorter :
    (tty : Bool) (bs : Bytes) (n : ℕ) → length bs ≤ n → Shorter n (read_event tty bs)
unfolding read_event
read_event-Shorter true bs n h = read_string-Shorter [] bs n h
read_event-Shorter false bs n h = read_frame-Shorter bs n h

-- What `Read` may return.
pub data Returned : Option Line → Type 0 where
  whole :
      (m : Bytes) (s : StdType) (rest : Bytes)
      → ends_line m ≡ true
      → Returned (some (line m s rest))
  cut : (err : ReadError) (rest : Bytes) → Returned (some (broken err rest))

continue_event :
    {n : ℕ}
    → (o : Event) → Shorter n o
    → (next : Bytes → StdType → Bytes → Option Line)
    → ((m : Bytes) (s : StdType) (rest : Bytes) → length rest < n → Returned (next m s rest))
    → Returned (elim o as (λ _. Option Line) [
      | failed err rest ↦ some (broken err rest)
      | got m s rest ↦ next m s rest
    ])
continue_event (failed err rest) _ next go_on = cut err rest
continue_event (got m s rest) (shorter _ _ _ h) next go_on = go_on m s rest h

either-Returned :
    (c : Bool) (x y : Option Line)
    → (c ≡ true → Returned x)
    → Returned y
    → Returned (if c then x else y)
either-Returned true x y p q = p refl
either-Returned false x y p q = q

read_parts-Returned :
    (tty : Bool) (fuel : ℕ) (message : Bytes) (std : StdType) (bs : Bytes)
    → length bs < fuel
    → Returned (read_parts tty fuel message std bs)
unfolding read_parts
read_parts-Returned tty zero message std bs h = ground arith
read_parts-Returned tty (suc fuel) message std bs h =
    either-Returned (ends_line message) _ _ (whole message std bs) (
      continue_event (read_event tty bs) (read_event-Shorter tty bs (length bs) (omega arith)) _
        (λ tail _ rest shorter_rest.
          read_parts-Returned tty fuel (message ++ after_space tail) std rest (omega arith)))

-- Whatever the stream holds, `Read` returns: a message that ends in a newline, or an error.
pub read-Returned : (tty : Bool) (bs : Bytes) → Returned (read tty bs)
unfolding read
read-Returned tty bs =
    continue_event (read_event tty bs) (read_event-Shorter tty bs (length bs) (omega arith)) _
      (λ m s rest _. read_parts-Returned tty (suc (length rest)) m s rest (omega arith))
