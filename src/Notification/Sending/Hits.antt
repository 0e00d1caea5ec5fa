-- ===== src/Notification/Sending/Hits.antt =====
-- The hits that the table of summaries counts.
use dozzle_gaia_fork.Common.{
  All, ◌≡◌, refl, sym, ap, ◌∙◌, subst, String, Bool, true, false, Option, none, some, List, [], ◌∷◌,
  if◌then◌else◌,
}
use dozzle_gaia_fork.Common.Int.{ℤ, pos, ◌+ℤ◌}
use dozzle_gaia_fork.Common.Text.{str_eq, eq_iff, eq_refl}
use dozzle_gaia_fork.Notification.Queue.{Db, QuietRow}
use dozzle_gaia_fork.Notification.Queue.Quiet.{quiet_key, merge_quiet}
use dozzle_gaia_fork.Notification.Queue.Table.{select, upsert}

abbrev pub summaries_of : Option Db → List QuietRow
summaries_of none = []
summaries_of (some db) = db.summaries

abbrev pub total_of : Option QuietRow → ℤ
total_of none = pos 0
total_of (some r) = r.total_count

-- The hits that the summary with the key counts.
unfoldable pub hits_of : String → List QuietRow → ℤ
hits_of k rows = total_of (select quiet_key k rows)

pub hits_of-upsert_same :
    (new : QuietRow) (rows : List QuietRow)
    → hits_of new.key (upsert quiet_key merge_quiet new rows) ≡ new.total_count
unfolding hits_of select upsert
hits_of-upsert_same new [] = ap (λ b. total_of (if b then some new else none)) (eq_refl new.key)
hits_of-upsert_same new (x ∷ xs) = step (hits_of-upsert_same new xs) (str_eq x.key new.key) refl
  where
    step :
        hits_of new.key (upsert quiet_key merge_quiet new xs) ≡ new.total_count
        → (b : Bool) → str_eq x.key new.key ≡ b
        → total_of (
            select quiet_key new.key
              (if b then merge_quiet x new ∷ xs else x ∷ upsert quiet_key merge_quiet new xs))
          ≡ new.total_count
    step rest true e =
        ap (λ b. total_of (if b then some (merge_quiet x new) else select quiet_key new.key xs)) e
    step rest false e =
        ap
          (λ b.
            total_of (
              if b then some x else select quiet_key new.key (upsert quiet_key merge_quiet new xs)))
          e
        ∙ rest

pub either_total :
    (b : Bool) (o p q : Option QuietRow)
    → total_of p ≡ total_of q
    → total_of (if b then o else p) ≡ total_of (if b then o else q)
either_total true o p q h = refl
either_total false o p q h = h

pub hits_of-upsert_other :
    (k : String) (new : QuietRow) (rows : List QuietRow)
    → str_eq new.key k ≡ false
    → hits_of k (upsert quiet_key merge_quiet new rows) ≡ hits_of k rows
unfolding hits_of select upsert
hits_of-upsert_other k new [] differs = ap (λ b. total_of (if b then some new else none)) differs
hits_of-upsert_other k new (x ∷ xs) differs =
    step (hits_of-upsert_other k new xs differs) (str_eq x.key new.key) refl
  where
    step :
        hits_of k (upsert quiet_key merge_quiet new xs) ≡ hits_of k xs
        → (b : Bool) → str_eq x.key new.key ≡ b
        → total_of (
            select quiet_key k
              (if b then merge_quiet x new ∷ xs else x ∷ upsert quiet_key merge_quiet new xs))
          ≡ total_of (if str_eq x.key k then some x else select quiet_key k xs)
    step rest true e =
        let other = ap (λ y. str_eq y k) ((eq_iff x.key new.key).0 e) ∙ differs in
        ap (λ b. total_of (if b then some (merge_quiet x new) else select quiet_key k xs)) other
        ∙ sym (ap (λ b. total_of (if b then some x else select quiet_key k xs)) other)
    step rest false e = either_total (str_eq x.key k) (some x) _ _ rest

pub select_key :
    (k : String) (rows : List QuietRow) (r : QuietRow)
    → select quiet_key k rows ≡ some r
    → r.key ≡ k
unfolding select
select_key k [] r h = absurd cc
select_key k (x ∷ xs) r h = step (select_key k xs r) (str_eq x.key k) refl h
  where
    key_or : Option QuietRow → String
    key_or none = r.key
    key_or (some y) = y.key

    step :
        (select quiet_key k xs ≡ some r → r.key ≡ k)
        → (b : Bool) → str_eq x.key k ≡ b
        → (if b then some x else select quiet_key k xs) ≡ some r
        → r.key ≡ k
    step rest true e found = sym (ap key_or found) ∙ (eq_iff x.key k).0 e
    step rest false e found = rest found

-- One hit more is counted under the key, and no other summary changes.
pub record IsCounted (key : String) (before_rows after_rows : List QuietRow) : Type 0 where
  pub one_more : hits_of key after_rows ≡ hits_of key before_rows +ℤ pos 1
  pub other_rows :
      (k : String) → str_eq key k ≡ false → hits_of k after_rows ≡ hits_of k before_rows

pub upsert-IsCounted :
    (key : String) (new : QuietRow) (rows : List QuietRow)
    → new.key ≡ key
    → new.total_count ≡ hits_of key rows +ℤ pos 1
    → IsCounted key rows (upsert quiet_key merge_quiet new rows)
upsert-IsCounted key new rows same next = record {
  one_more =
      ap (λ k. hits_of k (upsert quiet_key merge_quiet new rows)) (sym same)
      ∙ hits_of-upsert_same new rows
      ∙ next;
  other_rows = λ k differs. hits_of-upsert_other k new rows (ap (λ y. str_eq y k) same ∙ differs);
}

pub select-All :
    (P : QuietRow → Type 0) (k : String) (rows : List QuietRow) (r : QuietRow)
    → All P rows
    → select quiet_key k rows ≡ some r
    → P r
unfolding select
select-All P k [] r h found = absurd cc
select-All P k (x ∷ xs) r (hx, h) found = step hx (select-All P k xs r h) (str_eq x.key k) found
  where
    P_or : Option QuietRow → Type 0
    P_or none = P x
    P_or (some y) = P y

    step :
        P x
        → (select quiet_key k xs ≡ some r → P r)
        → (b : Bool) → (if b then some x else select quiet_key k xs) ≡ some r
        → P r
    step here rest true e = subst P_or e here
    step here rest false e = rest e
