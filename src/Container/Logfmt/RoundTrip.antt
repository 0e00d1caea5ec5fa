-- ===== src/Container/Logfmt/RoundTrip.antt =====
-- `ParseLogFmt` reads back what is written as `key=value` pairs with single spaces between them.
use dozzle_gaia_fork.Common.{
  ℕ, ◌+◌, ◌==◌, ◌≤◌, ◌<◌, ltb, leb, true, false, some, [], ◌∷◌, ◌++◌, length, take, drop, ◌≡◌, refl,
  sym, ap, ◌∙◌, subst, arith, All, length-append, append_assoc, append-nil, Bool-cases, inl, inr,
}
use dozzle_gaia_fork.Container.Logfmt.{
  Bytes, Pairs, space, quote, equals, slice, eqb_bytes, set_pair, Scan, scan_key, scan_bare,
  scan_byte, scan_bytes, last_pair, last_value, fresh_scan, finish, parse_log_fmt,
}

-- A byte of a key, and one of a bare value.
abbrev pub IsKeyByte : ℕ → Type 0
IsKeyByte c = ((c == equals) ≡ false) × ((c == space) ≡ false)

abbrev pub IsValueByte : ℕ → Type 0
IsValueByte c = ((c == quote) ≡ false) × ((c == space) ≡ false)

-- A pair that can be written without quotes.
abbrev pub IsBare : Bytes × Bytes → Type 0
IsBare (k, v) = (1 ≤ length k) × All IsKeyByte k × All IsValueByte v

-- What follows the first pair.
unfoldable pub format_rest : Pairs → Bytes
format_rest [] = []
format_rest ((k, v) ∷ ps) = space ∷ (k ++ (equals ∷ (v ++ format_rest ps)))

-- `k1=v1 k2=v2 …`, of one pair or more.
unfoldable pub format : Bytes × Bytes → Pairs → Bytes
unfolding format_rest
format (k, v) ps = k ++ (equals ∷ (v ++ format_rest ps))

-- The pairs, set one after the other.
unfoldable pub set_all : Pairs → Pairs → Pairs
set_all [] r = r
set_all ((k, v) ∷ ps) r = set_all ps (set_pair k v r)

drop-append_length : (pre rest : Bytes) → drop (length pre) (pre ++ rest) ≡ rest
drop-append_length [] rest = refl
drop-append_length (c ∷ pre) rest = drop-append_length pre rest

take-append_length : (w rest : Bytes) → take (length w) (w ++ rest) ≡ w
take-append_length [] rest = refl
take-append_length (c ∷ w) rest = ap (◌∷◌ c) (take-append_length w rest)

slice-append :
    (pre w rest : Bytes) → slice (pre ++ (w ++ rest)) (length pre) (length pre + length w) ≡ w
slice-append pre w rest =
    rw (drop-append_length pre (w ++ rest))
      (ap (λ n. take n (w ++ rest)) (omega arith) ∙ take-append_length w rest)

abbrev in_key : Pairs → Bytes → ℕ → Scan
in_key r k n = record fresh_scan { result = r; key = k; start = n }

abbrev in_value : Pairs → Bytes → ℕ → Scan
in_value r k n = record fresh_scan { result = r; key = k; is_key = false; start = n }

-- The bytes of a key and those of a bare value only move on.
scan_bytes-key :
    (log : Bytes) (i : ℕ) (k rest : Bytes) (r : Pairs) (key : Bytes) (n : ℕ)
    → All IsKeyByte k
    → scan_bytes log i (k ++ rest) (in_key r key n)
      ≡ scan_bytes log (i + length k) rest (in_key r key n)
unfolding scan_bytes scan_byte scan_key
scan_bytes-key log i [] rest r key n h =
    ap (λ m. scan_bytes log m rest (in_key r key n)) (omega arith)
scan_bytes-key log i (c ∷ k) rest r key n ((no_eq, no_sp), h) =
    rw (no_eq, scan_bytes, no_sp)
      (scan_bytes-key log (i + 1) k rest r key n h
        ∙ ap (λ m. scan_bytes log m rest (in_key r key n)) (omega arith))

scan_bytes-value :
    (log : Bytes) (i : ℕ) (v rest : Bytes) (r : Pairs) (key : Bytes) (n : ℕ)
    → All IsValueByte v
    → scan_bytes log i (v ++ rest) (in_value r key n)
      ≡ scan_bytes log (i + length v) rest (in_value r key n)
unfolding scan_bytes scan_byte scan_bare
scan_bytes-value log i [] rest r key n h =
    ap (λ m. scan_bytes log m rest (in_value r key n)) (omega arith)
scan_bytes-value log i (c ∷ v) rest r key n ((no_quote, no_sp), h) =
    rw (no_quote, no_sp)
      (scan_bytes-value log (i + 1) v rest r key n h
        ∙ ap (λ m. scan_bytes log m rest (in_value r key n)) (omega arith))

-- The `=` after a key that is not empty, and the space after a value.
scan_bytes-equals :
    (log : Bytes) (i : ℕ) (rest : Bytes) (r : Pairs) (key : Bytes) (n : ℕ)
    → n < i
    → scan_bytes log i (equals ∷ rest) (in_key r key n)
      ≡ scan_bytes log (i + 1) rest (in_value r (slice log n i) (i + 1))
unfolding scan_bytes scan_byte scan_key
scan_bytes-equals log i rest r key n h =
    let later : leb i n ≡ false = ground arith in rw (later, scan_bytes) refl

scan_bytes-space :
    (log : Bytes) (i : ℕ) (rest : Bytes) (r : Pairs) (key : Bytes) (n : ℕ)
    → scan_bytes log i (space ∷ rest) (in_value r key n)
      ≡ scan_bytes log (i + 1) rest (in_key (set_pair key (slice log n i) r) key (i + 1))
unfolding scan_bytes scan_byte scan_bare
scan_bytes-space log i rest r key n = refl

eqb_bytes_refl : (k : Bytes) → eqb_bytes k k ≡ true
eqb_bytes_refl [] = refl
eqb_bytes_refl (c ∷ k) = let same : (c == c) ≡ true = ground arith in rw same (eqb_bytes_refl k)

set_pair-set_pair : (k v : Bytes) (r : Pairs) → set_pair k v (set_pair k v r) ≡ set_pair k v r
unfolding set_pair
set_pair-set_pair k v [] = rw (eqb_bytes_refl k) refl
set_pair-set_pair k v ((k', v') ∷ r) = elim (Bool-cases (eqb_bytes k' k)) [
  | inl same ↦ rw (same, same) refl
  | inr other ↦ rw (other, other) (ap (◌∷◌ (k', v')) (set_pair-set_pair k v r))
]

finish_lem :
    (pre v : Bytes) (r : Pairs) (k : Bytes)
    → finish (pre ++ v) (in_value r k (length pre)) ≡ some (set_pair k v r)
unfolding finish last_pair last_value
finish_lem pre v r k = elim (Bool-cases (ltb (length pre) (length (pre ++ v)))) [
  | inl more ↦ rw (more, finish, drop-append_length pre v) (ap some (set_pair-set_pair k v r))
  | inr over ↦ rw (over, finish, drop-append_length pre v) refl
]

parse_found :
    (log : Bytes) (s : Scan)
    → scan_bytes log 0 log fresh_scan ≡ some s
    → parse_log_fmt log ≡ finish log s
unfolding parse_log_fmt
parse_found log s e = rw (e, parse_log_fmt) refl

append_mid :
    (xs ys : Bytes) (c : ℕ) (zs : Bytes) → (xs ++ (ys ++ (c ∷ []))) ++ zs ≡ xs ++ (ys ++ (c ∷ zs))
append_mid xs ys c zs =
    append_assoc xs (ys ++ (c ∷ [])) zs ∙ ap (λ l. xs ++ l) (append_assoc ys (c ∷ []) zs)

length-append_mid :
    (xs ys : Bytes) (c : ℕ) → length (xs ++ (ys ++ (c ∷ []))) ≡ length xs + length ys + 1
length-append_mid xs ys c =
    length-append xs (ys ++ (c ∷ []))
    ∙ ap (λ n. length xs + n) (length-append ys (c ∷ []))
    ∙ omega arith

-- From a value to the value of the next pair.
next_pair :
    (log pre v k' rest : Bytes) (r : Pairs) (k : Bytes)
    → log ≡ pre ++ (v ++ (space ∷ (k' ++ (equals ∷ rest))))
    → All IsValueByte v
    → 1 ≤ length k'
    → All IsKeyByte k'
    → scan_bytes log
        (length pre)
        (v ++ (space ∷ (k' ++ (equals ∷ rest))))
        (in_value r k (length pre))
      ≡ scan_bytes log (length ((pre ++ (v ++ (space ∷ []))) ++ (k' ++ (equals ∷ [])))) rest (
          in_value
            (set_pair k v r)
            k'
            (length ((pre ++ (v ++ (space ∷ []))) ++ (k' ++ (equals ∷ [])))))
next_pair log pre v k' rest r k is hv long hk =
    let before = pre ++ (v ++ (space ∷ [])) in
    let n1 = length pre + length v + 1 in
    let at_key : n1 ≡ length before = sym (length-append_mid pre v space) in
    let is_before : log ≡ before ++ (k' ++ (equals ∷ rest)) =
      is ∙ sym (append_mid pre v space (k' ++ (equals ∷ rest))) in
    let value_is : slice log (length pre) (length pre + length v) ≡ v =
      ap (λ l. slice l (length pre) (length pre + length v)) is
      ∙ slice-append pre v (space ∷ (k' ++ (equals ∷ rest))) in
    let key_is : slice log n1 (n1 + length k') ≡ k' =
      ap (λ m. slice log m (m + length k')) at_key
      ∙ ap (λ l. slice l (length before) (length before + length k')) is_before
      ∙ slice-append before k' (equals ∷ rest) in
    let at_value : n1 + length k' + 1 ≡ length (before ++ (k' ++ (equals ∷ []))) =
      ap (λ m. m + length k' + 1) at_key ∙ sym (length-append_mid before k' equals) in
    scan_bytes-value log (length pre) v (space ∷ (k' ++ (equals ∷ rest))) r k (length pre) hv
    ∙ scan_bytes-space log (length pre + length v) (k' ++ (equals ∷ rest)) r k (length pre)
    ∙ ap (λ w. scan_bytes log n1 (k' ++ (equals ∷ rest)) (in_key (set_pair k w r) k n1)) value_is
    ∙ scan_bytes-key log n1 k' (equals ∷ rest) (set_pair k v r) k n1 hk
    ∙ scan_bytes-equals log (n1 + length k') rest (set_pair k v r) k n1 (omega arith)
    ∙ ap
        (λ w.
          scan_bytes log (n1 + length k' + 1) rest
            (in_value (set_pair k v r) w (n1 + length k' + 1)))
        key_is
    ∙ ap (λ m. scan_bytes log m rest (in_value (set_pair k v r) k' m)) at_value

-- From the `=` of a pair to the end, with the text before its value in `pre`.
pairs_lem :
    (log pre k v : Bytes) (r ps : Pairs)
    → log ≡ pre ++ (v ++ format_rest ps)
    → All IsValueByte v
    → All IsBare ps
    → (s : Scan) × (scan_bytes log (length pre) (v ++ format_rest ps) (in_value r k (length pre))
        ≡ some s)
      × (finish log s ≡ some (set_all ps (set_pair k v r)))
unfolding scan_bytes format_rest set_all
pairs_lem log pre k v r [] is hv h = (
  in_value r k (length pre),
  scan_bytes-value log (length pre) v [] r k (length pre) hv,
  subst (λ l. finish l (in_value r k (length pre)) ≡ some (set_pair k v r))
      (ap (λ l. pre ++ l) (sym (append-nil v)) ∙ sym is) (finish_lem pre v r k),
)
pairs_lem log pre k v r ((k', v') ∷ ps) is hv ((long, hk', hv'), h) =
    let before = pre ++ (v ++ (space ∷ [])) in
    let pre' = before ++ (k' ++ (equals ∷ [])) in
    let rest = v' ++ format_rest ps in
    let is_before : log ≡ before ++ (k' ++ (equals ∷ rest)) =
      is ∙ sym (append_mid pre v space (k' ++ (equals ∷ rest))) in
    let is' : log ≡ pre' ++ rest = is_before ∙ sym (append_mid before k' equals rest) in
    let (s, ends, all) = pairs_lem log pre' k' v' (set_pair k v r) ps is' hv' h in
    (s, next_pair log pre v k' rest r k is hv long hk' ∙ ends, all)

-- Where no key is empty, no key has a space or a `=`, and no value has a space or a quote: the text
-- of the pairs is read back as these pairs, set one after the other.
pub parse_log_fmt-format :
    (k v : Bytes) (ps : Pairs)
    → IsBare (k, v)
    → All IsBare ps
    → parse_log_fmt (format (k, v) ps) ≡ some (set_all ((k, v) ∷ ps) [])
unfolding parse_log_fmt format set_all
parse_log_fmt-format k v ps (long, hk, hv) h =
    let rest = v ++ format_rest ps in
    let log = k ++ (equals ∷ rest) in
    let pre = k ++ (equals ∷ []) in
    let is : log ≡ pre ++ rest = sym (append_assoc k (equals ∷ []) rest) in
    let key_is : slice log 0 (length k) ≡ k =
      ap (λ m. slice log 0 m) (omega arith) ∙ slice-append [] k (equals ∷ rest) in
    let at_value : length k + 1 ≡ length pre = sym (length-append k (equals ∷ [])) in
    let (s, ends, all) = pairs_lem log pre k v [] ps is hv h in
    let found =
      scan_bytes-key log 0 k (equals ∷ rest) [] [] 0 hk
      ∙ ap (λ m. scan_bytes log m (equals ∷ rest) (in_key [] [] 0)) (omega arith)
      ∙ scan_bytes-equals log (length k) rest [] [] 0 (omega arith)
      ∙ ap (λ w. scan_bytes log (length k + 1) rest (in_value [] w (length k + 1))) key_is
      ∙ ap (λ m. scan_bytes log m rest (in_value [] k m)) at_value
      ∙ ends in
    parse_found log s found ∙ all
