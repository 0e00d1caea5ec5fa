-- ===== src/Auth/Roles.antt =====
-- internal/auth/roles.go: a role is a set of bits. What `strings` and `encoding/json` do is a parameter.
pub mod Bits
pub mod Granted
pub mod Spelled
use Prim.Native.Nat.{bit_and, bit_or}
use dozzle_gaia_fork.Common.{
  ℕ, ◌==◌, Bool, true, false, String, List, [], ◌∷◌, if◌then◌else◌, not, ◌||◌,
}
use dozzle_gaia_fork.Common.Text.{str_eq}

abbrev pub none_role : ℕ
none_role = 0

abbrev pub shell : ℕ
shell = 2

abbrev pub actions : ℕ
actions = 4

abbrev pub download : ℕ
download = 8

abbrev pub all : ℕ
all = bit_or (bit_or shell actions) download

unfoldable pub has : ℕ → ℕ → Bool
has roles role = not (bit_and roles role == 0)

-- The cases of the switch.
pub data Word : Type 0 where
  shell_word actions_word download_word none_word all_word other_word : Word

unfoldable pub word_of : String → Word
word_of role =
    if str_eq role "shell" || str_eq role "dozzle_shell"
    then shell_word
    else if str_eq role "actions" || str_eq role "dozzle_actions"
    then actions_word
    else if str_eq role "download" || str_eq role "dozzle_download"
    then download_word
    else if str_eq role "none" || str_eq role "dozzle_none"
    then none_word
    else if str_eq role "all" || str_eq role "dozzle_all"
    then all_word
    else other_word

-- What `json.Valid` and `json.Unmarshal` into a `[]string` make of a text.
pub data Decoded : Type 0 where
  not_json not_strings : Decoded
  strings : List String → Decoded

-- `strings.TrimSpace`, `strings.ToLower`, the decoding, and the fields between commas and pipes.
pub record RoleText : Type 0 where
  pub trim_space : String → String
  pub to_lower : String → String
  pub decode : String → Decoded
  pub split_fields : String → List String

unfoldable pub parse_parts : RoleText → List String → ℕ → ℕ
parse_parts t [] roles = roles
parse_parts t (r ∷ rs) roles = elim (word_of (t.trim_space (t.to_lower r))) [
  | shell_word ↦ parse_parts t rs (bit_or roles shell)
  | actions_word ↦ parse_parts t rs (bit_or roles actions)
  | download_word ↦ parse_parts t rs (bit_or roles download)
  | none_word ↦ none_role
  | all_word ↦ all
  | other_word ↦ parse_parts t rs roles
]

unfoldable pub parse_role : RoleText → String → ℕ
unfolding parse_parts
parse_role t input = elim (t.decode (t.trim_space input)) [
  | not_json ↦ parse_parts t (t.split_fields input) none_role
  | not_strings ↦ none_role
  | strings parts ↦ parse_parts t parts none_role
]
