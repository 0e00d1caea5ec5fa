-- ===== src/Common/Text.antt =====
-- Equality of texts, with the facts that the tactics are given of it.
use dozzle_gaia_fork.Common.{String, Bool, false, List, [], ◌∷◌, ◌||◌, ◌≡◌, ◌≢◌, arith}
pub use text.Mathlib.Text.{◌==◌ as str_eq}
pub use text.Mathlib.TextEquality.{eq_iff}
use Prim.Native.String.{◌++◌ as append}
pub use text.Mathlib.TextPositions.{eq_refl}

abbrev pub elem : String → List String → Bool
elem k [] = false
elem k (x ∷ xs) = str_eq x k || elem k xs

-- The empty text, `""`.
abbrev pub is_empty : String → Bool
is_empty s = str_eq s ""

pub str_ne : (a b : String) → a ≢ b → str_eq a b ≡ false
str_ne a b h = ground (arith, eq_iff a b)

-- Texts put together, `a + b` and the formats of `fmt.Sprintf`.
abbrev pub concat : List String → String
concat [] = ""
concat (s ∷ ss) = append s (concat ss)

-- `strings.Join`
abbrev pub join : String → List String → String
join sep [] = ""
join sep (s ∷ []) = s
join sep (s ∷ t ∷ ts) = append s (append sep (join sep (t ∷ ts)))
