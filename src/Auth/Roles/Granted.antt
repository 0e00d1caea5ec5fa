-- ===== src/Auth/Roles/Granted.antt =====
-- Which roles `ParseRole` grants, by the cases of its switch.
use Prim.Native.Nat.{bit_or}
use dozzle_gaia_fork.Common.{
  ℕ, ◌≡◌, refl, sym, ap, ◌∙◌, Bool, true, false, String, Option, none, some, List, [], ◌∷◌, ◌||◌,
}
use dozzle_gaia_fork.Auth.Roles.{
  none_role, shell, actions, download, all, has, Word, shell_word, actions_word, download_word,
  none_word, all_word, other_word, word_of, Decoded, not_json, not_strings, strings, RoleText,
  parse_parts, parse_role,
}
use dozzle_gaia_fork.Auth.Roles.Bits.{
  Flag, may_shell, may_act, may_download, role_of, set, member, has-set, or_shell, or_actions,
  or_download,
}

abbrev pub names : Flag → Word → Bool
names may_shell shell_word = true
names may_act actions_word = true
names may_download download_word = true
names _ _ = false

abbrev pub words : RoleText → List String → List Word
words t [] = []
words t (r ∷ rs) = word_of (t.trim_space (t.to_lower r)) ∷ words t rs

-- The first "none" or "all": whether it is "all".
abbrev pub settled : List Word → Option Bool
settled [] = none
settled (none_word ∷ ws) = some false
settled (all_word ∷ ws) = some true
settled (_ ∷ ws) = settled ws

abbrev pub any_names : Flag → List Word → Bool
any_names f [] = false
any_names f (w ∷ ws) = names f w || any_names f ws

abbrev pub unless_settled : Option Bool → Bool → Bool
unless_settled none b = b
unless_settled (some b) _ = b

or-true : (a b : Bool) → (a || (true || b)) ≡ (true || b)
or-true true b = refl
or-true false b = refl

names_shell :
    (f : Flag) (a b c d : Bool)
    → (member f true b c || d) ≡ (member f a b c || (names f shell_word || d))
names_shell may_shell a b c d = sym (or-true a d)
names_shell may_act a b c d = refl
names_shell may_download a b c d = refl

names_actions :
    (f : Flag) (a b c d : Bool)
    → (member f a true c || d) ≡ (member f a b c || (names f actions_word || d))
names_actions may_shell a b c d = refl
names_actions may_act a b c d = sym (or-true b d)
names_actions may_download a b c d = refl

names_download :
    (f : Flag) (a b c d : Bool)
    → (member f a b true || d) ≡ (member f a b c || (names f download_word || d))
names_download may_shell a b c d = refl
names_download may_act a b c d = refl
names_download may_download a b c d = sym (or-true c d)

names_other :
    (f : Flag) (a b c d : Bool)
    → (member f a b c || d) ≡ (member f a b c || (names f other_word || d))
names_other may_shell a b c d = refl
names_other may_act a b c d = refl
names_other may_download a b c d = refl

member-same : (f : Flag) (a : Bool) → member f a a a ≡ a
member-same may_shell a = refl
member-same may_act a = refl
member-same may_download a = refl

or-false : (a : Bool) → a ≡ (a || false)
or-false true = refl
or-false false = refl

-- What the loop has for a flag at its end, from any set of roles.
abbrev Ends : RoleText → Flag → List String → Type 0
Ends t f parts =
    (a b c : Bool)
    → has (parse_parts t parts (set a b c)) (role_of f)
      ≡ unless_settled (settled (words t parts)) (member f a b c || any_names f (words t parts))

turn-Ends :
    (t : RoleText) (f : Flag) (rs : List String) (a b c : Bool) (w : Word)
    → Ends t f rs
    → has
        (elim w as (λ _. ℕ) [
          | shell_word ↦ parse_parts t rs (bit_or (set a b c) shell)
          | actions_word ↦ parse_parts t rs (bit_or (set a b c) actions)
          | download_word ↦ parse_parts t rs (bit_or (set a b c) download)
          | none_word ↦ none_role
          | all_word ↦ all
          | other_word ↦ parse_parts t rs (set a b c)
        ])
        (role_of f)
      ≡ unless_settled (settled (w ∷ words t rs)) (member f a b c || any_names f (w ∷ words t rs))
turn-Ends t f rs a b c shell_word rest =
    ap (λ n. has (parse_parts t rs n) (role_of f)) (or_shell a b c)
    ∙ rest true b c
    ∙ ap (unless_settled (settled (words t rs))) (names_shell f a b c (any_names f (words t rs)))
turn-Ends t f rs a b c actions_word rest =
    ap (λ n. has (parse_parts t rs n) (role_of f)) (or_actions a b c)
    ∙ rest a true c
    ∙ ap (unless_settled (settled (words t rs))) (names_actions f a b c (any_names f (words t rs)))
turn-Ends t f rs a b c download_word rest =
    ap (λ n. has (parse_parts t rs n) (role_of f)) (or_download a b c)
    ∙ rest a b true
    ∙ ap (unless_settled (settled (words t rs))) (names_download f a b c (any_names f (words t rs)))
turn-Ends t f rs a b c none_word rest = has-set f false false false ∙ member-same f false
turn-Ends t f rs a b c all_word rest = has-set f true true true ∙ member-same f true
turn-Ends t f rs a b c other_word rest =
    rest a b c
    ∙ ap (unless_settled (settled (words t rs))) (names_other f a b c (any_names f (words t rs)))

parse_parts-Ends : (t : RoleText) (f : Flag) (parts : List String) → Ends t f parts
unfolding parse_parts
parse_parts-Ends t f [] a b c = has-set f a b c ∙ or-false (member f a b c)
parse_parts-Ends t f (r ∷ rs) a b c =
    turn-Ends t f rs a b c (word_of (t.trim_space (t.to_lower r))) (parse_parts-Ends t f rs)

from_none :
    (t : RoleText) (f : Flag) (parts : List String)
    → has (parse_parts t parts none_role) (role_of f)
      ≡ unless_settled (settled (words t parts)) (any_names f (words t parts))
from_none t f parts =
    parse_parts-Ends t f parts false false false
    ∙ ap (λ b. unless_settled (settled (words t parts)) (b || any_names f (words t parts)))
        (member-same f false)

-- The parts of the input: the texts of a JSON list, or else the fields between commas and pipes.
abbrev pub parts_of : RoleText → String → Decoded → List String
parts_of t input not_json = t.split_fields input
parts_of t input not_strings = []
parts_of t input (strings parts) = parts

pub parse_role-words :
    (t : RoleText) (f : Flag) (input : String)
    → let ws = words t (parts_of t input (t.decode (t.trim_space input))) in
      has (parse_role t input) (role_of f) ≡ unless_settled (settled ws) (any_names f ws)
unfolding parse_role
parse_role-words t f input = decoded (t.decode (t.trim_space input))
  where
    decoded :
        (d : Decoded)
        → let ws = words t (parts_of t input d) in
          has
            (elim d as (λ _. ℕ) [
              | not_json ↦ parse_parts t (t.split_fields input) none_role
              | not_strings ↦ none_role
              | strings parts ↦ parse_parts t parts none_role
            ])
            (role_of f)
          ≡ unless_settled (settled ws) (any_names f ws)
    decoded not_json = from_none t f (t.split_fields input)
    decoded not_strings = has-set f false false false ∙ member-same f false
    decoded (strings parts) = from_none t f parts
