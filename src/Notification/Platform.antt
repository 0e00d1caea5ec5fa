-- ===== src/Notification/Platform.antt =====
-- What internal/notification takes from Go's library: zones and the formatting of times (time),
-- numbers and floats in text (fmt, strconv), trimming and cutting (strings), digests (crypto/sha256),
-- and the regular expressions of fingerprint.go and quiet_summary.go.
use dozzle_gaia_fork.Common.{ℕ, String, Bool, Option, none, some, if◌then◌else◌}
use dozzle_gaia_fork.Common.Int.{ℤ}
use dozzle_gaia_fork.Common.Text.{is_empty}
use dozzle_gaia_fork.Notification.Time.{Time, Duration}
use dozzle_gaia_fork.Notification.Types.{Values, Message}

pub record Platform (V : Values) : Type 1 where
  pub Location : Type 0
  -- `time.Local` and `time.UTC`
  pub local_zone : Location
  pub utc : Location
  pub load_location : String → Option Location
  pub location_name : Location → String
  -- `time.Date` with this hour and minute, on the day of a time in a zone
  pub date_on : Location → Time → ℤ → ℤ → Time
  -- `t.AddDate(0, 0, n)` in a zone
  pub add_days : Location → Time → ℤ → Time
  -- the two numbers that `fmt.Sscanf(s, "%d:%d", …)` sets, 0 where it sets none
  pub scan_hhmm : String → ℤ × ℤ
  -- `t.In(loc).Format(layout)`
  pub format : Location → Time → String → String
  -- `%d` of a number, of `t.Unix()` and of `t.UnixNano()`
  pub decimal : ℤ → String
  pub unix_decimal : Time → String
  pub unix_nano_decimal : Time → String
  -- `d.String()` of a duration
  pub duration_string : Duration → String
  -- `strings.TrimSpace`, and white space with `multiSpace` replaced by one space
  pub trim_space : String → String
  pub single_spaced : String → String
  -- `len(s)` and `s[:n]`, in bytes
  pub byte_length : String → ℕ
  pub byte_prefix : ℕ → String → String
  -- `hex.EncodeToString` of `sha256.Sum256`
  pub sha256_hex : String → String
  -- the replacements that `normalizeQuietSummaryText` makes before it trims
  pub without_values : String → String
  -- `%.1f`, and the float operations of the stat handler: `x <= 0`, `float64(n)`, `x / y`, and
  -- `float64(a) / float64(b) * 100`
  pub one_decimal : V.Float → String
  pub is_at_most_zero : V.Float → Bool
  pub float_of : ℤ → V.Float
  pub divide : V.Float → V.Float → V.Float
  pub percent : ℕ → ℕ → V.Float
  -- `container.StripANSI`, a regular expression; `strings.Contains`; an ordered map as a map
  pub strip_ansi : String → String
  pub contains : String → String → Bool
  pub as_map : V.Object → V.Object
  -- `json.Marshal` of a message, `%v` where that fails
  pub message_json : V.Object → String

module _ {V : Values} (P : Platform V) where
  unfoldable pub resolve_location : String → P.Location
  resolve_location zone =
      if is_empty zone
      then P.local_zone
      else elim (P.load_location zone) [ none ↦ P.local_zone | some loc ↦ loc ]

  unfoldable pub format_log_message : Message V → String
  format_log_message (Message.text s) = s
  format_log_message (Message.object o) = P.message_json o
