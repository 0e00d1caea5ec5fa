-- ===== src/Notification/Types.antt =====
-- types/notification.go: what a notification carries, and the values that a rule's expressions
-- are run on. `Values` stands for what the program takes from elsewhere: floats, and the decoded
-- objects of a structured log line, and the dispatchers that a notification is sent by.
use dozzle_gaia_fork.Common.{ℕ, String, Bool, Option, List, ◌∷◌, [], ◌++◌, if◌then◌else◌}
use dozzle_gaia_fork.Common.Int.{ℤ}
use dozzle_gaia_fork.Common.Text.{is_empty, elem}
use dozzle_gaia_fork.Notification.Time.{Time}

pub record Values : Type 1 where
  pub Float : Type 0
  pub Object : Type 0
  pub Dispatcher : Type 0

pub data NotificationType : Type 0 where
  log metric event : NotificationType

pub record NotificationContext : Type 0 where
  pub label : String
  pub value : String

pub record NotificationContainer : Type 0 where
  pub id : String
  pub name : String
  pub image : String
  pub state : String
  pub health : String
  pub host_id : String
  pub host_name : String
  pub host_group : String
  pub labels : List (String × String)

-- `Message any`: a text for a simple or grouped line, an object for a structured one.
pub data Message (V : Values) : Type 0 where
  text : String → Message V
  object : V.Object → Message V

pub record NotificationLog (V : Values) : Type 0 where
  pub id : ℕ
  pub message : Message V
  pub timestamp : ℤ
  pub level : String
  pub stream : String
  pub kind : String

pub record NotificationMount (V : Values) : Type 0 where
  pub destination : String
  pub total_bytes : ℕ
  pub free_bytes : ℕ
  pub used_bytes : ℕ
  pub used_percent : V.Float
  pub available_bytes : ℕ

pub record NotificationStat (V : Values) : Type 0 where
  pub cpu_percent : V.Float
  pub memory_percent : V.Float
  pub memory_usage : V.Float
  pub mounts : List (NotificationMount V)

pub record NotificationEvent : Type 0 where
  pub name : String
  pub actor_id : String
  pub attributes : List (String × String)
  pub timestamp : Time

-- The rule's fields that the handlers copy into a notification.
pub record SubscriptionConfig : Type 0 where
  pub id : ℤ
  pub name : String
  pub enabled : Bool
  pub dispatcher_id : ℤ
  pub log_expression : String
  pub container_expression : String
  pub metric_expression : String
  pub event_expression : String
  pub cooldown : ℤ
  pub sample_window : ℤ
  pub ntfy_topic : String
  pub ntfy_priority : ℤ
  pub ntfy_tags : List String
  pub bypass_quiet_hours : Bool
  pub restart_loop_enabled : Bool
  pub restart_loop_state_window : ℤ
  pub restart_loop_event_count : ℤ
  pub restart_loop_event_window : ℤ
  pub restart_loop_cooldown : ℤ
  pub restart_loop_trigger_message : String

-- The fields `log`, `stat` and `event` are the source's pointers, nil where they are `none`.
pub record Notification (V : Values) : Type 0 where
  pub id : String
  pub kind : NotificationType
  pub detail : String
  pub container : NotificationContainer
  pub log : Option (NotificationLog V)
  pub stat : Option (NotificationStat V)
  pub event : Option NotificationEvent
  pub subscription : SubscriptionConfig
  pub timestamp : Time
  pub ntfy_topic : String
  pub ntfy_priority : ℤ
  pub ntfy_tags : List String
  pub context : List NotificationContext

-- internal/notification/processing.go
unfoldable pub append_unique_tag : List String → String → List String
append_unique_tag tags tag = if elem tag tags then tags else tags ++ (tag ∷ [])

-- internal/notification/modifiers.go
unfoldable pub add_context : {V : Values} → Notification V → String → String → Notification V
add_context n label value =
    if is_empty value
    then n
    else record n { context = n.context ++ (record { label = label; value = value } ∷ []) }

unfoldable pub add_modifier_tag : {V : Values} → Notification V → String → Notification V
add_modifier_tag n tag = record n { ntfy_tags = append_unique_tag n.ntfy_tags tag }
