-- ===== src/Notification/Queue/Table.antt =====
-- Statements on one table, a list of rows with a text for the primary key.
use dozzle_gaia_fork.Common.{
  String, Bool, true, Option, none, some, List, [], ◌∷◌, ◌++◌, ◌≡◌, refl, subst, is_some,
  if◌then◌else◌, Bool-cases, inl, inr,
}
use dozzle_gaia_fork.Common.Text.{str_eq}

module _ {A : Type 0} (key : A → String) where
  -- `SELECT … WHERE key = ?`
  unfoldable pub select : String → List A → Option A
  select k [] = none
  select k (x ∷ xs) = if str_eq (key x) k then some x else select k xs

  -- `INSERT OR IGNORE`
  unfoldable pub insert_or_ignore : A → List A → List A
  unfolding select
  insert_or_ignore new xs = if is_some (select (key new) xs) then xs else xs ++ (new ∷ [])

  -- `INSERT … ON CONFLICT DO UPDATE`, where `merge old new` keeps the columns that are not named.
  unfoldable pub upsert : (A → A → A) → A → List A → List A
  upsert merge new [] = new ∷ []
  upsert merge new (x ∷ xs) =
      let rest = upsert merge new xs in
      if str_eq (key x) (key new) then merge x new ∷ xs else x ∷ rest

-- `WHERE`, in the order of the table.
unfoldable pub where_rows : {A : Type 0} → (A → Bool) → List A → List A
where_rows p [] = []
where_rows p (x ∷ xs) = let rest = where_rows p xs in if p x then x ∷ rest else rest

-- `UPDATE … WHERE`
unfoldable pub update_where : {A : Type 0} → (A → Bool) → (A → A) → List A → List A
update_where p f [] = []
update_where p f (x ∷ xs) = (if p x then f x else x) ∷ update_where p f xs

pub where_rows-both :
    {A : Type 0} (p q : A → Bool) (xs : List A)
    → ((x : A) → p x ≡ true → q x ≡ true)
    → where_rows p (where_rows q xs) ≡ where_rows p xs
unfolding where_rows
where_rows-both p q [] h = refl
where_rows-both p q (x ∷ xs) h = elim (Bool-cases (q x)) [
  | inl kept ↦ rw (kept, where_rows-both p q xs h) refl
  | inr gone ↦ elim (Bool-cases (p x)) [
    | inl both ↦ absurd (let e = h x both in cc)
    | inr neither ↦ rw (gone, neither, where_rows-both p q xs h) refl
  ]
]

module _ {A : Type 0} (key : A → String) where
  pub select-append_none :
      (k : String) (xs : List A) (new : A)
      → select key k xs ≡ none
      → select key k (xs ++ (new ∷ [])) ≡ select key k (new ∷ [])
  unfolding select
  select-append_none k [] new h = refl
  select-append_none k (x ∷ xs) new h = elim (Bool-cases (str_eq (key x) k)) [
    | inl same ↦
        absurd (let e = subst (λ b. (if b then some x else select key k xs) ≡ none) same h in cc)
    | inr other ↦ rw other (
        select-append_none k xs new
          (subst (λ b. (if b then some x else select key k xs) ≡ none) other h))
  ]
