-- ===== src/Tests/Engines.antt =====
-- A small engine: plain days, texts that stand for themselves, and one dispatcher.
use dozzle_gaia_fork.Common.{ℕ, ◌*◌, ◌+◌, ◌-◌, ◌%◌, true, false, none, some, [], if◌then◌else◌}
use dozzle_gaia_fork.Common.Int.{pos, negsuc, ◌+ℤ◌, ◌-ℤ◌, pos_part}
use dozzle_gaia_fork.Common.Text.{str_eq}
use dozzle_gaia_fork.Notification.Drain.{Manager}
use dozzle_gaia_fork.Notification.Engine.{Engine}
use dozzle_gaia_fork.Notification.Platform.{Platform}
use dozzle_gaia_fork.Notification.QuietHours.{QuietHoursConfig, a_day}
use dozzle_gaia_fork.Notification.Time.{Time, second, scale}
use dozzle_gaia_fork.Tests.Queues.{notice, never}
use dozzle_gaia_fork.Tests.Samples.{values, expr, rule}

abbrev pub clock : Time → ℕ
clock (pos n) = n % a_day
clock (negsuc n) = a_day - 1 - n % a_day

abbrev midnight : Time → Time
midnight t = t -ℤ pos (clock t)

abbrev pub platform : Platform values
platform = record {
  Location = Unit {0};
  local_zone = tt;
  utc = tt;
  load_location = λ zone. some tt;
  location_name = λ loc. "UTC";
  date_on =
      λ loc t h m. midnight t +ℤ pos (pos_part h * (3600 * second) + pos_part m * (60 * second));
  add_days = λ loc t n. t +ℤ scale n a_day;
  scan_hhmm = λ s. if str_eq s "22:00" then (pos 22, pos 0) else (pos 7, pos 0);
  format = λ loc t layout. "then";
  decimal = λ n. "7";
  unix_decimal = λ t. "0";
  unix_nano_decimal = λ t. "0";
  duration_string = λ d. "1s";
  trim_space = λ s. s;
  single_spaced = λ s. s;
  byte_length = λ s. 0;
  byte_prefix = λ n s. s;
  sha256_hex = λ s. s;
  without_values = λ s. s;
  one_decimal = λ x. "0.0";
  is_at_most_zero = λ x. false;
  float_of = λ n. pos_part n;
  divide = λ x y. x;
  percent = λ a b. a;
  strip_ansi = λ s. s;
  contains = λ s t. false;
  as_map = λ o. o;
  message_json = λ o. "{}";
}

abbrev pub nightly : QuietHoursConfig
nightly = record {
  enabled = true;
  start = "22:00";
  finish = "07:00";
  timezone = "";
  group_notifications = some false;
  summary_max_groups = pos 5;
  stack_threshold = pos 0;
  stack_window = pos 0;
  stacked_priority = pos 0;
  quiet_topic = "";
  stacked_uses_quiet_topic = false;
}

abbrev pub manager : Manager expr ℕ
manager = record {
  cloud_dispatcher = none;
  dispatchers = λ id. some 2;
  subscriptions = λ id. some rule;
  weekday = λ zone now. 1;
  send = λ d n. true;
}

abbrev pub engine : Engine expr
engine = record {
  platform = platform;
  codec = record { marshal = λ n. some n.detail; unmarshal = λ s. some (notice s) };
  group_codec = record { marshal = λ gs. "[]"; unmarshal = λ s. [] };
  fails = never;
  quiet_hours = nightly;
  manager = manager;
}
