-- ===== src/Auth/Roles/Spelled.antt =====
-- The texts that grant each role, spelled out.
use dozzle_gaia_fork.Common.{
  ◌≡◌, refl, sym, ap, ◌∙◌, subst, Bool, true, false, String, Option, none, some, List, [], ◌∷◌,
  ◌||◌, if◌then◌else◌, ◌⊎◌, inl, inr, Bool-cases,
}
use dozzle_gaia_fork.Common.Text.{str_eq, eq_iff}
use dozzle_gaia_fork.Auth.Roles.{
  has, Word, shell_word, actions_word, download_word, none_word, all_word, other_word, word_of,
  RoleText, parse_role,
}
use dozzle_gaia_fork.Auth.Roles.Bits.{Flag, may_shell, may_act, may_download, role_of}
use dozzle_gaia_fork.Auth.Roles.Granted.{
  names, words, settled, any_names, unless_settled, parts_of, parse_role-words,
}

abbrev pub spells_shell : String → Bool
spells_shell s = str_eq s "shell" || str_eq s "dozzle_shell"

abbrev pub spells_actions : String → Bool
spells_actions s = str_eq s "actions" || str_eq s "dozzle_actions"

abbrev pub spells_download : String → Bool
spells_download s = str_eq s "download" || str_eq s "dozzle_download"

abbrev pub spells_none : String → Bool
spells_none s = str_eq s "none" || str_eq s "dozzle_none"

abbrev pub spells_all : String → Bool
spells_all s = str_eq s "all" || str_eq s "dozzle_all"

abbrev pub spells : Flag → String → Bool
spells may_shell s = spells_shell s
spells may_act s = spells_actions s
spells may_download s = spells_download s

-- The parts as the switch reads them: in small letters and without the spaces around them.
abbrev pub folded : RoleText → List String → List String
folded t [] = []
folded t (r ∷ rs) = t.trim_space (t.to_lower r) ∷ folded t rs

-- The first "none" or "all" of the texts: whether it is "all".
abbrev pub settled_by : List String → Option Bool
settled_by [] = none
settled_by (s ∷ ss) =
    let rest = settled_by ss in
    if spells_none s then some false else if spells_all s then some true else rest

abbrev pub any_spells : Flag → List String → Bool
any_spells f [] = false
any_spells f (s ∷ ss) = spells f s || any_spells f ss

-- Each text with its case of the switch.
data Spells : String → Word → Type 0 where
  shell_short : Spells "shell" shell_word
  shell_long : Spells "dozzle_shell" shell_word
  actions_short : Spells "actions" actions_word
  actions_long : Spells "dozzle_actions" actions_word
  download_short : Spells "download" download_word
  download_long : Spells "dozzle_download" download_word
  none_short : Spells "none" none_word
  none_long : Spells "dozzle_none" none_word
  all_short : Spells "all" all_word
  all_long : Spells "dozzle_all" all_word
  other :
      (s : String)
      → spells_shell s ≡ false
      → spells_actions s ≡ false
      → spells_download s ≡ false
      → spells_none s ≡ false
      → spells_all s ≡ false
      → Spells s other_word

either_of : (s x y : String) → (str_eq s x || str_eq s y) ≡ true → (s ≡ x) ⊎ (s ≡ y)
either_of s x y h = elim (Bool-cases (str_eq s x)) [
  | inl same ↦ inl ((eq_iff s x).0 same)
  | inr differs ↦ inr ((eq_iff s y).0 (ap (λ b. b || str_eq s y) (sym differs) ∙ h))
]

word_of-Spells : (s : String) → Spells s (word_of s)
unfolding word_of
word_of-Spells s = elim (Bool-cases (spells_shell s)) [
  | inl is ↦ elim (either_of s _ _ is) [
    | inl short ↦ subst (λ x. Spells x (word_of x)) (sym short) shell_short
    | inr long ↦ subst (λ x. Spells x (word_of x)) (sym long) shell_long
  ]
  | inr not_shell ↦ elim (Bool-cases (spells_actions s)) [
    | inl is ↦ elim (either_of s _ _ is) [
      | inl short ↦ subst (λ x. Spells x (word_of x)) (sym short) actions_short
      | inr long ↦ subst (λ x. Spells x (word_of x)) (sym long) actions_long
    ]
    | inr not_actions ↦ elim (Bool-cases (spells_download s)) [
      | inl is ↦ elim (either_of s _ _ is) [
        | inl short ↦ subst (λ x. Spells x (word_of x)) (sym short) download_short
        | inr long ↦ subst (λ x. Spells x (word_of x)) (sym long) download_long
      ]
      | inr not_download ↦ elim (Bool-cases (spells_none s)) [
        | inl is ↦ elim (either_of s _ _ is) [
          | inl short ↦ subst (λ x. Spells x (word_of x)) (sym short) none_short
          | inr long ↦ subst (λ x. Spells x (word_of x)) (sym long) none_long
        ]
        | inr not_none ↦ elim (Bool-cases (spells_all s)) [
          | inl is ↦ elim (either_of s _ _ is) [
            | inl short ↦ subst (λ x. Spells x (word_of x)) (sym short) all_short
            | inr long ↦ subst (λ x. Spells x (word_of x)) (sym long) all_long
          ]
          | inr not_all ↦
              rw (not_shell, not_actions, not_download, not_none, not_all, word_of)
                (other s not_shell not_actions not_download not_none not_all)
        ]
      ]
    ]
  ]
]

names-spells : (f : Flag) (s : String) (w : Word) → Spells s w → names f w ≡ spells f s
names-spells may_shell _ _ shell_short = refl
names-spells may_shell _ _ shell_long = refl
names-spells may_shell _ _ actions_short = refl
names-spells may_shell _ _ actions_long = refl
names-spells may_shell _ _ download_short = refl
names-spells may_shell _ _ download_long = refl
names-spells may_shell _ _ none_short = refl
names-spells may_shell _ _ none_long = refl
names-spells may_shell _ _ all_short = refl
names-spells may_shell _ _ all_long = refl
names-spells may_shell _ _ (other s a b c d e) = sym a
names-spells may_act _ _ shell_short = refl
names-spells may_act _ _ shell_long = refl
names-spells may_act _ _ actions_short = refl
names-spells may_act _ _ actions_long = refl
names-spells may_act _ _ download_short = refl
names-spells may_act _ _ download_long = refl
names-spells may_act _ _ none_short = refl
names-spells may_act _ _ none_long = refl
names-spells may_act _ _ all_short = refl
names-spells may_act _ _ all_long = refl
names-spells may_act _ _ (other s a b c d e) = sym b
names-spells may_download _ _ shell_short = refl
names-spells may_download _ _ shell_long = refl
names-spells may_download _ _ actions_short = refl
names-spells may_download _ _ actions_long = refl
names-spells may_download _ _ download_short = refl
names-spells may_download _ _ download_long = refl
names-spells may_download _ _ none_short = refl
names-spells may_download _ _ none_long = refl
names-spells may_download _ _ all_short = refl
names-spells may_download _ _ all_long = refl
names-spells may_download _ _ (other s a b c d e) = sym c

settled-cons :
    (s : String) (w : Word) (ws : List Word)
    → Spells s w
    → settled (w ∷ ws)
      ≡ (if spells_none s then some false else if spells_all s then some true else settled ws)
settled-cons _ _ ws shell_short = refl
settled-cons _ _ ws shell_long = refl
settled-cons _ _ ws actions_short = refl
settled-cons _ _ ws actions_long = refl
settled-cons _ _ ws download_short = refl
settled-cons _ _ ws download_long = refl
settled-cons _ _ ws none_short = refl
settled-cons _ _ ws none_long = refl
settled-cons _ _ ws all_short = refl
settled-cons _ _ ws all_long = refl
settled-cons _ _ ws (other s a b c d e) = rw (d, e) refl

settled-settled_by :
    (t : RoleText) (parts : List String) → settled (words t parts) ≡ settled_by (folded t parts)
settled-settled_by t [] = refl
settled-settled_by t (r ∷ rs) =
    let s = t.trim_space (t.to_lower r) in
    settled-cons s (word_of s) (words t rs) (word_of-Spells s)
    ∙ ap (λ o. if spells_none s then some false else if spells_all s then some true else o)
        (settled-settled_by t rs)

any_names-any_spells :
    (t : RoleText) (f : Flag) (parts : List String)
    → any_names f (words t parts) ≡ any_spells f (folded t parts)
any_names-any_spells t f [] = refl
any_names-any_spells t f (r ∷ rs) =
    let s = t.trim_space (t.to_lower r) in
    ap (λ b. b || any_names f (words t rs)) (names-spells f s (word_of s) (word_of-Spells s))
    ∙ ap (λ b. spells f s || b) (any_names-any_spells t f rs)

-- The role that `ParseRole` returns has a flag exactly if the first "none" or "all" among the parts
-- is an "all", or there is none of either and a part names the flag; each name also counts with
-- "dozzle_" in front.
pub parse_role-has :
    (t : RoleText) (f : Flag) (input : String)
    → let texts = folded t (parts_of t input (t.decode (t.trim_space input))) in
      has (parse_role t input) (role_of f) ≡ unless_settled (settled_by texts) (any_spells f texts)
parse_role-has t f input =
    let parts = parts_of t input (t.decode (t.trim_space input)) in
    parse_role-words t f input
    ∙ ap (λ o. unless_settled o (any_names f (words t parts))) (settled-settled_by t parts)
    ∙ ap (unless_settled (settled_by (folded t parts))) (any_names-any_spells t f parts)
