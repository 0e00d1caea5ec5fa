-- ===== src/Notification/QuietSummary/Render.antt =====
-- internal/notification/quiet_summary.go: `renderQuietSummary`, the notification that a summary
-- becomes; and manager.go: `flushQuietSummaries` and `flushQueue`, which queue and deliver it.
use dozzle_gaia_fork.Common.{
  ℕ, ◌+◌, ◌-◌, ◌==◌, String, Bool, not, none, some, List, [], ◌∷◌, ltb, leb, length, if◌then◌else◌,
}
use dozzle_gaia_fork.Common.Int.{ℤ, pos, ◌-ℤ◌, pos_part, ltb_ℤ}
use dozzle_gaia_fork.Common.Text.{str_eq, concat}
use dozzle_gaia_fork.Notification.Engine.{QuietSummaryGroup, Engine}
use dozzle_gaia_fork.Notification.Platform.{Platform}
use dozzle_gaia_fork.Notification.Queue.Quiet.{QuietSummary}
use dozzle_gaia_fork.Notification.Rule.{Expr}
use dozzle_gaia_fork.Notification.Time.{before}
use dozzle_gaia_fork.Notification.Types.{Values, Notification}

abbrev pub max_quiet_summary_length : ℕ
max_quiet_summary_length = 12000

-- The order of the groups: the most hits first, then the first seen.
abbrev pub ranks_before : QuietSummaryGroup → QuietSummaryGroup → Bool
ranks_before a b =
    if a.count == b.count then before a.first_seen b.first_seen else ltb b.count a.count

-- `sort.SliceStable`
unfoldable pub insert_group : QuietSummaryGroup → List QuietSummaryGroup → List QuietSummaryGroup
insert_group g [] = g ∷ []
insert_group g (h ∷ hs) =
    let rest = insert_group g hs in if ranks_before h g then h ∷ rest else g ∷ h ∷ hs

unfoldable pub sort_groups : List QuietSummaryGroup → List QuietSummaryGroup
unfolding insert_group
sort_groups [] = []
sort_groups (g ∷ gs) = insert_group g (sort_groups gs)

-- The text so far, how many groups it shows, and their hits.
pub record Shown : Type 0 where
  pub body : String
  pub groups : ℕ
  pub hits : ℕ

-- The bounds on the number of groups.
unfoldable pub clamp_groups : ℤ → ℕ
clamp_groups n = if ltb_ℤ n (pos 1) then 10 else if ltb_ℤ (pos 50) n then 50 else pos_part n

module _ {V : Values} (P : Platform V) where
  abbrev pub section : P.Location → ℕ → QuietSummaryGroup → String
  section loc n g = concat (
      "\n"
      ∷ P.decimal (pos (n + 1))
      ∷ ". "
      ∷ P.decimal (pos g.count)
      ∷ "x ("
      ∷ P.format loc g.first_seen "15:04:05"
      ∷ "-"
      ∷ P.format loc g.last_seen "15:04:05"
      ∷ ")\nFirst: "
      ∷ g.first_example
      ∷ "\n"
      ∷ (if str_eq g.last_example g.first_example
          then ""
          else concat ("Last: " ∷ g.last_example ∷ "\n" ∷ []))
      ∷ [])

  abbrev pub with_section : P.Location → QuietSummaryGroup → Shown → Shown
  with_section loc g sh = record {
    body = concat (sh.body ∷ section loc sh.groups g ∷ []);
    groups = sh.groups + 1;
    hits = sh.hits + g.count;
  }

  -- `b.Len()+section.Len() > maxQuietSummaryLength`
  abbrev pub is_too_long : P.Location → QuietSummaryGroup → Shown → Bool
  is_too_long loc g sh =
      ltb max_quiet_summary_length (P.byte_length sh.body + P.byte_length (section loc sh.groups g))

  -- The loop over the groups.
  unfoldable pub show_groups : P.Location → ℕ → List QuietSummaryGroup → Shown → Shown
  show_groups loc max [] sh = sh
  show_groups loc max (g ∷ gs) sh =
      let rest = show_groups loc max gs (with_section loc g sh) in
      if leb max sh.groups then sh else if is_too_long loc g sh then sh else rest

module _ {V : Values} {E : Expr V} (e : Engine E) where
  abbrev summary_zone : String → e.platform.Location
  summary_zone zone = elim (e.platform.load_location zone) [
    | none ↦ e.platform.local_zone
    | some loc ↦ loc
  ]

  abbrev summary_header : QuietSummary V → e.platform.Location → String
  summary_header s loc = concat (
      "Quiet-hours summary: "
      ∷ e.platform.decimal s.total_count
      ∷ " hits\nPeriod: "
      ∷ e.platform.format loc s.period_start "2006-01-02 15:04"
      ∷ "-"
      ∷ e.platform.format loc s.period_end "2006-01-02 15:04"
      ∷ "\n"
      ∷ [])

  -- The line for the groups that are not shown.
  abbrev others : QuietSummary V → List QuietSummaryGroup → Shown → String
  others s groups sh =
      if not (ltb sh.groups (length groups))
      then sh.body
      else concat (
          sh.body
          ∷ "\nOther: "
          ∷ e.platform.decimal (pos (length groups - sh.groups))
          ∷ " message groups, "
          ∷ e.platform.decimal (s.total_count -ℤ pos sh.hits)
          ∷ " hits"
          ∷ [])

  abbrev pub shown_groups : QuietSummary V → ℤ → Shown
  shown_groups s max =
      let loc = summary_zone s.timezone in
      show_groups e.platform loc (clamp_groups max)
        (sort_groups (e.group_codec.unmarshal s.groups_json))
        (record { body = summary_header s loc; groups = 0; hits = 0 })

  unfoldable pub render_quiet_summary : QuietSummary V → ℤ → Notification V
  unfolding show_groups sort_groups clamp_groups
  render_quiet_summary s max = record s.notification {
    id = concat ("quiet-summary-" ∷ s.key ∷ []);
    detail =
        e.platform.trim_space
          (others s (e.group_codec.unmarshal s.groups_json) (shown_groups s max));
    log = none;
    stat = none;
    event = none;
    timestamp = s.period_end;
    context = [];
  }
