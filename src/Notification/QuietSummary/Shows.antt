-- ===== src/Notification/QuietSummary/Shows.antt =====
-- What a summary shows of its groups, and what it only counts, add up.
use dozzle_gaia_fork.Common.{
  ◌<◌, ◌⊎◌, take, get_elem?, some, ℕ, suc, ◌+◌, ◌≤◌, ◌≡◌, refl, sym, ap, subst, ◌∙◌, String, List,
  [], ◌∷◌, leb, length, arith, Bool-cases, inl, inr,
}
use dozzle_gaia_fork.Common.Text.{concat}
use dozzle_gaia_fork.Notification.Engine.{QuietSummaryGroup}
use dozzle_gaia_fork.Notification.Platform.{Platform}
use dozzle_gaia_fork.Notification.QuietSummary.Render.{
  Shown, show_groups, sort_groups, insert_group, ranks_before, with_section, section, is_too_long,
}
use dozzle_gaia_fork.Notification.Types.{Values}

unfoldable pub total : List QuietSummaryGroup → ℕ
total [] = 0
total (g ∷ gs) = g.count + total gs

total-insert_group :
    (g : QuietSummaryGroup) (gs : List QuietSummaryGroup)
    → total (insert_group g gs) ≡ g.count + total gs
unfolding total insert_group
total-insert_group g [] = refl
total-insert_group g (h ∷ hs) = elim (Bool-cases (ranks_before h g)) [
  | inl later ↦ rw (later, total-insert_group g hs) (omega arith)
  | inr here ↦ rw here refl
]

total-sort_groups : (gs : List QuietSummaryGroup) → total (sort_groups gs) ≡ total gs
unfolding total sort_groups
total-sort_groups [] = refl
total-sort_groups (g ∷ gs) =
    total-insert_group g (sort_groups gs) ∙ ap (λ n. g.count + n) (total-sort_groups gs)

length-insert_group :
    (g : QuietSummaryGroup) (gs : List QuietSummaryGroup)
    → length (insert_group g gs) ≡ suc (length gs)
unfolding insert_group
length-insert_group g [] = refl
length-insert_group g (h ∷ hs) = elim (Bool-cases (ranks_before h g)) [
  | inl later ↦ rw (later, length-insert_group g hs) refl
  | inr here ↦ rw here refl
]

length-sort_groups : (gs : List QuietSummaryGroup) → length (sort_groups gs) ≡ length gs
unfolding sort_groups
length-sort_groups [] = refl
length-sort_groups (g ∷ gs) =
    length-insert_group g (sort_groups gs) ∙ ap suc (length-sort_groups gs)

module _ {V : Values} (P : Platform V) where
  -- The text with one section for each group, numbered from `n` on.
  abbrev pub with_sections : P.Location → ℕ → String → List QuietSummaryGroup → String
  with_sections loc n body [] = body
  with_sections loc n body (g ∷ gs) =
      with_sections loc (n + 1) (concat (body ∷ section P loc n g ∷ [])) gs

  -- The next group has no room in the text.
  abbrev pub HasNoRoom : P.Location → List QuietSummaryGroup → ℕ → Shown → Type 0
  HasNoRoom loc gs n sh =
      (g : QuietSummaryGroup) × (get_elem? gs n ≡ some g)
      × (12000 < P.byte_length sh.body + P.byte_length (section P loc sh.groups g))

-- What the loop shows of the groups: the first ones, as many as there is room for.
pub record IsShown {V : Values} (P : Platform V) (loc : P.Location) (max : ℕ)
    (gs : List QuietSummaryGroup) (before_loop after_loop : Shown) : Type 0 where
  pub shown : ℕ
  pub groups : after_loop.groups ≡ before_loop.groups + shown
  pub within : shown ≤ length gs
  pub hits : after_loop.hits ≡ before_loop.hits + total (take shown gs)
  pub body :
      after_loop.body ≡ with_sections P loc before_loop.groups before_loop.body (take shown gs)
  pub groups_bound : after_loop.groups ≤ max
  pub body_bound : P.byte_length after_loop.body ≤ 12000
  pub ends : (shown ≡ length gs) ⊎ ((after_loop.groups ≡ max) ⊎ HasNoRoom P loc gs shown after_loop)

module _ {V : Values} (P : Platform V)
    (appended : (a b : String)
      → P.byte_length (concat (a ∷ b ∷ [])) ≡ P.byte_length a + P.byte_length b) where
  stops_here :
      (loc : P.Location) (max : ℕ) (gs : List QuietSummaryGroup) (sh : Shown)
      → sh.groups ≤ max
      → P.byte_length sh.body ≤ 12000
      → (0 ≡ length gs) ⊎ ((sh.groups ≡ max) ⊎ HasNoRoom P loc gs 0 sh)
      → IsShown P loc max gs sh sh
  unfolding total
  stops_here loc max gs sh few short why = record {
    shown = 0;
    groups = omega arith;
    within = omega arith;
    hits = omega arith;
    body = refl;
    groups_bound = few;
    body_bound = short;
    ends = why;
  }

  one_more :
      (loc : P.Location) (max : ℕ) (g : QuietSummaryGroup) (gs : List QuietSummaryGroup)
      (sh after_loop : Shown)
      → IsShown P loc max gs (with_section P loc g sh) after_loop
      → IsShown P loc max (g ∷ gs) sh after_loop
  unfolding total
  one_more loc max g gs sh after_loop rest = record {
    shown = suc rest.shown;
    groups = rest.groups ∙ omega arith;
    within = omega (arith, rest.within);
    hits = rest.hits ∙ omega arith;
    body = rest.body;
    groups_bound = rest.groups_bound;
    body_bound = rest.body_bound;
    ends = elim rest.ends [ inl all ↦ inl (ap suc all) | inr why ↦ inr why ];
  }

  show_groups-IsShown :
      (loc : P.Location) (max : ℕ) (gs : List QuietSummaryGroup) (sh : Shown)
      → sh.groups ≤ max
      → P.byte_length sh.body ≤ 12000
      → IsShown P loc max gs sh (show_groups P loc max gs sh)
  unfolding show_groups
  show_groups-IsShown loc max [] sh few short = stops_here loc max [] sh few short (inl refl)
  show_groups-IsShown loc max (g ∷ gs) sh few short = elim (Bool-cases (leb max sh.groups)) [
    | inl full ↦ rw full (stops_here loc max (g ∷ gs) sh few short (inr (inl (ground arith))))
    | inr room ↦ elim (Bool-cases (is_too_long P loc g sh)) [
      | inl long ↦
          rw (room, long)
            (stops_here loc max (g ∷ gs) sh few short (inr (inr (g, refl, ground arith))))
      | inr fits ↦
          let rest = show_groups-IsShown loc max gs (with_section P loc g sh) (ground arith) (
            subst (λ n. n ≤ 12000) (sym (appended sh.body (section P loc sh.groups g)))
              (ground arith)) in
          rw (room, fits)
            (one_more loc max g gs sh (show_groups P loc max gs (with_section P loc g sh)) rest)
    ]
  ]

  -- Where lengths in bytes add up and the heading has at most 12000 bytes: the loop shows the first
  -- groups of the summary in the order of `sort_groups`, each in a section of the text, and counts
  -- exactly their hits. There are at most as many as given, and the text has at most 12000 bytes
  -- before the line for the others. The loop ends only where all groups are shown, as many as given
  -- are, or the next section has no room. Sorting loses no group and no hit.
  pub show_groups-sort_groups :
      (loc : P.Location) (max : ℕ) (gs : List QuietSummaryGroup) (heading : String)
      → P.byte_length heading ≤ 12000
      → IsShown P loc max
          (sort_groups gs)
          (record { body = heading; groups = 0; hits = 0 })
          (show_groups P loc max (sort_groups gs) (record { body = heading; groups = 0; hits = 0 }))
        × (length (sort_groups gs) ≡ length gs)
        × (total (sort_groups gs) ≡ total gs)
  show_groups-sort_groups loc max gs heading short = (
    show_groups-IsShown loc max (sort_groups gs) (record { body = heading; groups = 0; hits = 0 })
        (omega arith) short,
    length-sort_groups gs,
    total-sort_groups gs,
  )
