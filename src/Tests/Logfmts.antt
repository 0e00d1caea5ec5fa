-- ===== src/Tests/Logfmts.antt =====
-- `ParseLogFmt` on short lines, as bytes.
use dozzle_gaia_fork.Common.{some, [], ◌∷◌, ◌≡◌, refl, arith}
use dozzle_gaia_fork.Container.Logfmt.{
  set_pair, scan_key, scan_quoted, scan_bare, scan_byte, scan_bytes, last_pair, last_value, finish,
  parse_log_fmt,
}
use dozzle_gaia_fork.Container.Logfmt.RoundTrip.{format, set_all, parse_log_fmt-format}

-- `ab` and `12`, `c` and nothing
parse_log_fmt-format_example :
    parse_log_fmt (format (97 ∷ 98 ∷ [], 49 ∷ 50 ∷ []) ((99 ∷ [], []) ∷ []))
    ≡ some (set_all ((97 ∷ 98 ∷ [], 49 ∷ 50 ∷ []) ∷ (99 ∷ [], []) ∷ []) [])
parse_log_fmt-format_example =
    parse_log_fmt-format (97 ∷ 98 ∷ []) (49 ∷ 50 ∷ []) ((99 ∷ [], []) ∷ [])
      (omega arith, ((refl, refl), ((refl, refl), tt)), ((refl, refl), ((refl, refl), tt)))
      ((omega arith, ((refl, refl), tt), tt), tt)

-- `a="x y" b=1`
quoted_value :
    parse_log_fmt (97 ∷ 61 ∷ 34 ∷ 120 ∷ 32 ∷ 121 ∷ 34 ∷ 32 ∷ 98 ∷ 61 ∷ 49 ∷ [])
    ≡ some ((97 ∷ [], 120 ∷ 32 ∷ 121 ∷ []) ∷ (98 ∷ [], 49 ∷ []) ∷ [])
unfolding set_pair scan_key scan_quoted scan_bare scan_byte scan_bytes last_pair last_value finish
    parse_log_fmt
quoted_value = refl

-- `a=1  b=2`: the second space becomes a part of the key.
two_spaces :
    parse_log_fmt (97 ∷ 61 ∷ 49 ∷ 32 ∷ 32 ∷ 98 ∷ 61 ∷ 50 ∷ [])
    ≡ some ((97 ∷ [], 49 ∷ []) ∷ (32 ∷ 98 ∷ [], 50 ∷ []) ∷ [])
unfolding set_pair scan_key scan_quoted scan_bare scan_byte scan_bytes last_pair last_value finish
    parse_log_fmt
two_spaces = refl
