-- ===== src/Container/Logfmt.antt =====
-- internal/container/logfmt.go: `ParseLogFmt`. A Go string is the list of its bytes, and the ordered
-- map of the result is the list of its pairs.
pub mod RoundTrip
use dozzle_gaia_fork.Common.{
  ℕ, suc, ◌+◌, ◌-◌, ◌==◌, ltb, leb, Bool, true, false, not, ◌&&◌, Option, none, some, List, [], ◌∷◌,
  ◌++◌, length, take, drop, if◌then◌else◌,
}

abbrev pub Bytes : Type 0
Bytes = List ℕ

abbrev pub Pairs : Type 0
Pairs = List (Bytes × Bytes)

-- ' ', '"', '=' and '\'
abbrev pub space : ℕ
space = 32

abbrev pub quote : ℕ
quote = 34

abbrev pub equals : ℕ
equals = 61

abbrev pub backslash : ℕ
backslash = 92

-- `log[a:b]`, where a ≤ b
abbrev pub slice : Bytes → ℕ → ℕ → Bytes
slice log a b = take (b - a) (drop a log)

abbrev pub eqb_bytes : Bytes → Bytes → Bool
eqb_bytes [] [] = true
eqb_bytes [] (b ∷ ys) = false
eqb_bytes (a ∷ xs) [] = false
eqb_bytes (a ∷ xs) (b ∷ ys) = a == b && eqb_bytes xs ys

-- `result.Set`, which keeps the place of a key that is there.
unfoldable pub set_pair : Bytes → Bytes → Pairs → Pairs
set_pair key value [] = (key, value) ∷ []
set_pair key value ((k, v) ∷ rest) =
    let more = set_pair key value rest in
    if eqb_bytes k key then (k, value) ∷ rest else (k, v) ∷ more

-- The variables of the loop.
pub record Scan : Type 0 where
  pub result : Pairs
  pub key : Bytes
  pub in_quotes : Bool
  pub escaping : Bool
  pub is_key : Bool
  pub start : ℕ

-- The body of the loop in a key, in a quoted value and in a bare one; `none` is an error.
unfoldable pub scan_key : Bytes → ℕ → ℕ → Scan → Option Scan
scan_key log i c s =
    if c == equals
    then (if leb i s.start
        then none
        else some (record s { key = slice log s.start i; is_key = false; start = i + 1 }))
    else (if (c == space) && ltb s.start i then none else some s)

unfoldable pub scan_quoted : Bytes → ℕ → ℕ → Scan → Scan
scan_quoted log i c s =
    if s.escaping
    then record s { escaping = false }
    else (if c == backslash
        then record s { escaping = true }
        else (if c == quote
            then record s {
              result = set_pair s.key (slice log s.start i) s.result;
              in_quotes = false;
              is_key = true;
              start = i + 2;
            }
            else s))

unfoldable pub scan_bare : Bytes → ℕ → ℕ → Scan → Scan
scan_bare log i c s =
    if c == quote
    then record s { in_quotes = true; start = i + 1 }
    else (if c == space
        then record s {
          result = set_pair s.key (slice log s.start i) s.result;
          is_key = true;
          start = i + 1;
        }
        else s)

unfoldable pub scan_byte : Bytes → ℕ → ℕ → Scan → Option Scan
unfolding scan_key scan_quoted scan_bare
scan_byte log i c s =
    if s.is_key
    then scan_key log i c s
    else (if s.in_quotes then some (scan_quoted log i c s) else some (scan_bare log i c s))

unfoldable pub scan_bytes : Bytes → ℕ → Bytes → Scan → Option Scan
scan_bytes log i [] s = some s
scan_bytes log i (c ∷ cs) s = elim (scan_byte log i c s) [
  | none ↦ none
  | some s' ↦ scan_bytes log (i + 1) cs s'
]

-- The first `if` after the loop, with its `else if`.
unfoldable pub last_pair : Bytes → Scan → Option Scan
last_pair log s =
    if ltb s.start (length log)
    then (if s.is_key
        then none
        else (if s.in_quotes
            then none
            else some (record s { result = set_pair s.key (drop s.start log) s.result })))
    else some s

unfoldable pub last_value : Bytes → Scan → Option Pairs
last_value log s =
    if s.is_key
    then some s.result
    else (if s.in_quotes then none else some (set_pair s.key (drop s.start log) s.result))

abbrev pub fresh_scan : Scan
fresh_scan = record {
  result = [];
  key = [];
  in_quotes = false;
  escaping = false;
  is_key = true;
  start = 0;
}

unfoldable pub finish : Bytes → Scan → Option Pairs
unfolding last_pair last_value
finish log s = elim (last_pair log s) [ none ↦ none | some s' ↦ last_value log s' ]

unfoldable pub parse_log_fmt : Bytes → Option Pairs
unfolding scan_bytes finish
parse_log_fmt log = elim (scan_bytes log 0 log fresh_scan) [ none ↦ none | some s ↦ finish log s ]
