-- ===== src/Container/LogEvent.antt =====
-- internal/container/types.go: log events. `O` stands for the ordered maps that structured lines
-- are decoded to.
use dozzle_gaia_fork.Common.{ℕ, String, Bool, true, false, not, ltb, List}
use dozzle_gaia_fork.Common.Int.{ℤ, dist_ℤ}
use dozzle_gaia_fork.Common.Text.{str_eq}

pub data LogType : Type 0 where
  single group complex : LogType

-- `Message any`: a line, the `LogFragment`s of a group, or a structured message.
pub data Message (O : Type 0) : Type 0 where
  text : String → Message O
  fragments : List String → Message O
  object : O → Message O

pub record LogEvent (O : Type 0) : Type 0 where
  pub kind : LogType
  pub message : Message O
  pub raw_message : String
  pub timestamp : ℤ
  pub id : ℕ
  pub level : String
  pub stream : String
  pub container_id : String

abbrev pub max_group_time_delta : ℕ
max_group_time_delta = 50

abbrev pub is_simple_type : LogType → Bool
is_simple_type single = true
is_simple_type group = true
is_simple_type complex = false

module _ {O : Type 0} where
  abbrev pub has_level : LogEvent O → Bool
  has_level e = not (str_eq e.level "unknown")

  abbrev pub is_simple : LogEvent O → Bool
  is_simple e = is_simple_type e.kind

  -- The times are milliseconds of dates, so neither their difference nor its float is rounded
  -- where it is below the bound.
  abbrev pub is_close_to_time : LogEvent O → LogEvent O → Bool
  is_close_to_time e other = ltb (dist_ℤ e.timestamp other.timestamp) max_group_time_delta
