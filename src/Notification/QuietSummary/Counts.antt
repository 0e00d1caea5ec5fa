-- ===== src/Notification/QuietSummary/Counts.antt =====
-- No hit of the quiet hours is lost: the groups count every hit.
use dozzle_gaia_fork.Common.{
  ℕ, ◌+◌, ◌≤◌, ◌≡◌, refl, sym, subst, ◌∙◌, String, false, List, [], ◌∷◌, leb, if◌then◌else◌, arith,
  Bool-cases, inl, inr,
}
use dozzle_gaia_fork.Common.Text.{str_eq, eq_iff, eq_refl}
use dozzle_gaia_fork.Notification.Engine.{QuietSummaryGroup}
use dozzle_gaia_fork.Notification.QuietSummary.{count_hit}
use dozzle_gaia_fork.Notification.Time.{Time}

-- A hit as the summary sees it.
pub record QuietHit : Type 0 where
  pub fingerprint : String
  pub example : String
  pub time : Time

-- The groups of a list of hits, the first hit first.
unfoldable pub count_all : List QuietHit → List QuietSummaryGroup → List QuietSummaryGroup
unfolding count_hit
count_all [] gs = gs
count_all (h ∷ hs) gs = count_all hs (count_hit h.fingerprint h.example h.time gs)

-- The hits that the groups count for a fingerprint, and how many groups it has.
unfoldable pub counted : String → List QuietSummaryGroup → ℕ
counted fp [] = 0
counted fp (g ∷ gs) = (if str_eq g.fingerprint fp then g.count else 0) + counted fp gs

unfoldable pub groups_for : String → List QuietSummaryGroup → ℕ
groups_for fp [] = 0
groups_for fp (g ∷ gs) = (if str_eq g.fingerprint fp then 1 else 0) + groups_for fp gs

unfoldable pub occurrences : String → List QuietHit → ℕ
occurrences fp [] = 0
occurrences fp (h ∷ hs) = (if str_eq h.fingerprint fp then 1 else 0) + occurrences fp hs

counted-count_hit :
    (fp k example : String) (now : Time) (gs : List QuietSummaryGroup)
    → counted fp (count_hit k example now gs) ≡ (if str_eq k fp then 1 else 0) + counted fp gs
unfolding counted count_hit
counted-count_hit fp k example now [] = refl
counted-count_hit fp k example now (g ∷ gs) = elim (Bool-cases (str_eq g.fingerprint k)) [
  | inl same ↦ rw (same, (eq_iff g.fingerprint k).0 same) (ground arith)
  | inr other ↦ rw (other, counted-count_hit fp k example now gs) (ground arith)
]

-- A hit of another fingerprint changes no group of this one.
groups_for-count_hit_other :
    (fp k example : String) (now : Time) (gs : List QuietSummaryGroup)
    → str_eq k fp ≡ false
    → groups_for fp (count_hit k example now gs) ≡ groups_for fp gs
unfolding groups_for count_hit
groups_for-count_hit_other fp k example now [] h = rw h refl
groups_for-count_hit_other fp k example now (g ∷ gs) h =
    elim (Bool-cases (str_eq g.fingerprint k)) [
      | inl same ↦ rw same refl
      | inr other ↦ rw (other, groups_for-count_hit_other fp k example now gs h) refl
    ]

groups_for-count_hit :
    (k example : String) (now : Time) (gs : List QuietSummaryGroup)
    → groups_for k (count_hit k example now gs)
      ≡ (if leb 1 (groups_for k gs) then groups_for k gs else 1)
unfolding groups_for count_hit
groups_for-count_hit k example now [] = rw (eq_refl k) refl
groups_for-count_hit k example now (g ∷ gs) = elim (Bool-cases (str_eq g.fingerprint k)) [
  | inl same ↦ rw (same) (ground arith)
  | inr other ↦ rw (other, groups_for-count_hit k example now gs) (ground arith)
]

groups_for_bound :
    (fp k example : String) (now : Time) (gs : List QuietSummaryGroup)
    → groups_for fp gs ≤ 1
    → groups_for fp (count_hit k example now gs) ≤ 1
groups_for_bound fp k example now gs h = elim (Bool-cases (str_eq k fp)) [
  | inl same ↦
      subst (λ x. groups_for x (count_hit k example now gs) ≤ 1) ((eq_iff k fp).0 same)
        (let e = groups_for-count_hit k example now gs in
          let h' = subst (λ x. groups_for x gs ≤ 1) (sym ((eq_iff k fp).0 same)) h in ground arith)
  | inr other ↦ rw (groups_for-count_hit_other fp k example now gs other) h
]

counted-count_all :
    (fp : String) (hs : List QuietHit) (gs : List QuietSummaryGroup)
    → counted fp (count_all hs gs) ≡ occurrences fp hs + counted fp gs
unfolding count_all occurrences
counted-count_all fp [] gs = omega arith
counted-count_all fp (h ∷ hs) gs =
    counted-count_all fp hs (count_hit h.fingerprint h.example h.time gs)
    ∙ (let e = counted-count_hit fp h.fingerprint h.example h.time gs in ground arith)

groups_for-count_all :
    (fp : String) (hs : List QuietHit) (gs : List QuietSummaryGroup)
    → groups_for fp gs ≤ 1
    → groups_for fp (count_all hs gs) ≤ 1
unfolding count_all
groups_for-count_all fp [] gs h = h
groups_for-count_all fp (x ∷ hs) gs h =
    groups_for-count_all fp hs (count_hit x.fingerprint x.example x.time gs)
      (groups_for_bound fp x.fingerprint x.example x.time gs h)

-- After any hits, each fingerprint has one group at most, which counts as many hits as had the
-- fingerprint.
pub count_all-counted :
    (hs : List QuietHit) (fp : String)
    → (counted fp (count_all hs []) ≡ occurrences fp hs) × (groups_for fp (count_all hs []) ≤ 1)
unfolding counted groups_for
count_all-counted hs fp =
    (counted-count_all fp hs [] ∙ omega arith, groups_for-count_all fp hs [] (omega arith))
