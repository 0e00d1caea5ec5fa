-- ===== src/Tests/Roles.antt =====
-- Roles of small inputs.
use dozzle_gaia_fork.Common.{true, [], ◌∷◌, ◌≡◌, refl, if◌then◌else◌}
use dozzle_gaia_fork.Common.Text.{str_eq}
use dozzle_gaia_fork.Auth.Roles.{RoleText, not_json, strings, parse_role, has, word_of, download}
use dozzle_gaia_fork.Auth.Roles.Bits.{may_download}
use dozzle_gaia_fork.Auth.Roles.Spelled.{parse_role-has}

-- Texts without spaces and in small letters.
abbrev plain : RoleText
plain = record {
  trim_space = λ s. s;
  to_lower = λ s. s;
  decode = λ s. if str_eq s "[\"shell\"]" then strings ("shell" ∷ []) else not_json;
  split_fields = λ s. if str_eq s "shell,download" then "shell" ∷ "download" ∷ [] else s ∷ [];
}

parse_json : parse_role plain "[\"shell\"]" ≡ 2
unfolding parse_role word_of
parse_json = refl

parse_all : parse_role plain "dozzle_all" ≡ 14
unfolding parse_role word_of
parse_all = refl

parse_role-has_example : has (parse_role plain "shell,download") download ≡ true
parse_role-has_example = parse_role-has plain may_download "shell,download"
