-- ===== src/Notification/Queue/Rows.antt =====
-- The rows that a statement on `notification_queue` selects and changes.
use dozzle_gaia_fork.Common.{
  Bool, false, not, List, [], ◌∷◌, ◌++◌, ◌≡◌, refl, if◌then◌else◌, Bool-cases, ◌⊎◌, inl, inr, true,
  ◌&&◌, length, ap, ◌∙◌, sym, suc, count_where, map,
}
use dozzle_gaia_fork.Common.Int.{ltb_ℤ}
use dozzle_gaia_fork.Notification.Queue.{Job, Status, pending, sent, dropped}
use dozzle_gaia_fork.Notification.Queue.Jobs.{is_due}
use dozzle_gaia_fork.Notification.Queue.Table.{where_rows, update_where}
use dozzle_gaia_fork.Notification.Time.{Time, after}

-- The row waits, and its time has come.
abbrev pub waits : Time → Job → Bool
waits now j = elim j.status [ pending ↦ not (ltb_ℤ now j.deliver_at) | _ ↦ false ]

pub is_due-waits : (now : Time) (j : Job) → is_due now j ≡ waits now j
is_due-waits now j = of_status j.status
  where
    of_status :
        (s : Status)
        → elim s as (λ _. Bool) [ pending ↦ true | _ ↦ false ] && not (after j.deliver_at now)
          ≡ elim s as (λ _. Bool) [ pending ↦ not (ltb_ℤ now j.deliver_at) | _ ↦ false ]
    of_status pending = refl
    of_status sent = refl
    of_status dropped = refl

-- The row is one of the list.
abbrev pub Has : Job → List Job → Type 0
Has j [] = ⊥
Has j (x ∷ xs) = (x ≡ j) ⊎ Has j xs

pub where_rows-Has :
    (p : Job → Bool) (js : List Job) (j : Job) → Has j js → p j ≡ true → Has j (where_rows p js)
unfolding where_rows
where_rows-Has p [] j h met = h
where_rows-Has p (x ∷ xs) j (inl same) met =
    let kept : p x ≡ true = ap p same ∙ met in rw kept (inl same)
where_rows-Has p (x ∷ xs) j (inr h) met = elim (Bool-cases (p x)) [
  | inl kept ↦ rw kept (inr (where_rows-Has p xs j h met))
  | inr gone ↦ rw gone (where_rows-Has p xs j h met)
]

unfoldable pub Found : (Job → Bool) → List Job → Job → Type 0
Found p js j = Has j js × (p j ≡ true)

pub Found-step :
    (p : Job → Bool) (x : Job) (xs rows : List Job) (j : Job) (b : Bool)
    → p x ≡ b
    → (Has j rows → Found p xs j)
    → Has j (if b then x ∷ rows else rows)
    → Found p (x ∷ xs) j
unfolding Found
Found-step p x xs rows j true kept below (inl same) = (inl same, ap p (sym same) ∙ kept)
Found-step p x xs rows j true kept below (inr h) = (inr (below h).0, (below h).1)
Found-step p x xs rows j false gone below h = (inr (below h).0, (below h).1)

pub Has-where_rows :
    (p : Job → Bool) (js : List Job) (j : Job) → Has j (where_rows p js) → Found p js j
unfolding where_rows
Has-where_rows p [] j h = absurd h
Has-where_rows p (x ∷ xs) j h =
    Found-step p x xs (where_rows p xs) j (p x) refl (Has-where_rows p xs j) h

pub length-where_rows :
    (p q : Job → Bool) (js : List Job)
    → ((j : Job) → p j ≡ q j)
    → length (where_rows p js) ≡ count_where q js
unfolding where_rows
length-where_rows p q [] same = refl
length-where_rows p q (j ∷ js) same = elim (Bool-cases (q j)) [
  | inl kept ↦ rw (same j, kept) (ap suc (length-where_rows p q js same))
  | inr gone ↦ rw (same j, gone) (length-where_rows p q js same)
]

-- `ORDER BY`: the rows, in some order.
pub record IsReordering (order : List Job → List Job) : Type 0 where
  pub keeps : (js : List Job) (j : Job) → Has j js → Has j (order js)
  pub adds_none : (js : List Job) (j : Job) → Has j (order js) → Has j js
  pub as_many : (js : List Job) → length (order js) ≡ length js

pub update_where-map :
    {A : Type 0} (p : A → Bool) (f : A → A) (xs : List A)
    → update_where p f xs ≡ map (λ x. if p x then f x else x) xs
unfolding update_where
update_where-map p f [] = refl
update_where-map p f (x ∷ xs) = ap (λ l. (if p x then f x else x) ∷ l) (update_where-map p f xs)

pub where_rows-snoc :
    {A : Type 0} (p : A → Bool) (xs : List A) (x : A)
    → where_rows p (xs ++ (x ∷ [])) ≡ where_rows p xs ++ (if p x then x ∷ [] else [])
unfolding where_rows
where_rows-snoc p [] x = refl
where_rows-snoc p (y ∷ ys) x = elim (Bool-cases (p y)) [
  | inl kept ↦ rw (kept, where_rows-snoc p ys x) refl
  | inr gone ↦ rw (gone, where_rows-snoc p ys x) refl
]
