-- ===== src/Notification/Sources.antt =====
-- internal/notification/types.go: what the handlers are given, and how it becomes what a rule's
-- expressions are run on. The structs keep the fields that are read here.
use dozzle_gaia_fork.Common.{
  ℕ, ◌-◌, ◌==◌, String, Bool, not, ◌&&◌, ◌||◌, List, [], ◌∷◌, map, leb, if◌then◌else◌,
}
use dozzle_gaia_fork.Common.Int.{ℤ, pos}
use dozzle_gaia_fork.Common.Text.{join}
use dozzle_gaia_fork.Container.LogEvent
use dozzle_gaia_fork.Notification.Platform.{Platform}
use dozzle_gaia_fork.Notification.Time.{Time}
use dozzle_gaia_fork.Notification.Types.{
  Values, Message, NotificationContainer, NotificationLog, NotificationStat, NotificationMount,
  NotificationEvent,
}

-- internal/container/types.go and host.go
pub record MountStat : Type 0 where
  pub destination : String
  pub total : ℕ
  pub free : ℕ
  pub used : ℕ
  pub available : Bool

-- `mount_stats` in the order in which the map is visited.
pub record Container (V : Values) : Type 0 where
  pub id : String
  pub name : String
  pub image : String
  pub state : String
  pub health : String
  pub labels : List (String × String)
  pub cpu_limit : V.Float
  pub mount_stats : List MountStat

pub record Host : Type 0 where
  pub id : String
  pub name : String
  pub group : String
  pub n_cpu : ℤ

pub record ContainerStat (V : Values) : Type 0 where
  pub id : String
  pub cpu_percent : V.Float
  pub memory_percent : V.Float
  pub memory_usage : V.Float

pub record ContainerEvent : Type 0 where
  pub name : String
  pub actor_id : String
  pub actor_attributes : List (String × String)
  pub time : Time

unfoldable pub from_container_model : {V : Values} → Container V → Host → NotificationContainer
from_container_model c host = record {
  id = c.id;
  name = c.name;
  image = c.image;
  state = c.state;
  health = c.health;
  host_id = host.id;
  host_name = host.name;
  host_group = host.group;
  labels = c.labels;
}

abbrev kind_text : LogEvent.LogType → String
kind_text LogEvent.LogType.single = "single"
kind_text LogEvent.LogType.group = "group"
kind_text LogEvent.LogType.complex = "complex"

unfoldable pub from_container_event : ContainerEvent → NotificationEvent
from_container_event ev = record {
  name = ev.name;
  actor_id = ev.actor_id;
  attributes = ev.actor_attributes;
  timestamp = ev.time;
}

module _ {V : Values} (P : Platform V) where
  unfoldable pub is_dozzle_container : Container V → Bool
  is_dozzle_container c = P.contains c.image "amir20/dozzle"

  -- One mount of the loop: its bytes in use are computed where the statistics report none.
  abbrev notification_mount : MountStat → NotificationMount V
  notification_mount ms =
      let used = if ms.used == 0 && leb ms.free ms.total then ms.total - ms.free else ms.used in
      record {
        destination = ms.destination;
        total_bytes = ms.total;
        free_bytes = ms.free;
        used_bytes = used;
        used_percent = P.percent used ms.total;
        available_bytes = ms.free;
      }

  unfoldable pub from_mounts : List MountStat → List (NotificationMount V)
  from_mounts [] = []
  from_mounts (ms ∷ rest) =
      let others = from_mounts rest in
      if not ms.available || ms.total == 0 then others else notification_mount ms ∷ others

  unfoldable pub from_container_mounts : Container V → List (NotificationMount V)
  unfolding from_mounts
  from_container_mounts c = from_mounts c.mount_stats

  unfoldable pub extract_message : LogEvent.LogEvent V.Object → Message V
  extract_message l = elim l.message [
    | LogEvent.Message.text s ↦ Message.text (P.strip_ansi s)
    | LogEvent.Message.fragments fs ↦ Message.text (join "\n" (map P.strip_ansi fs))
    | LogEvent.Message.object o ↦ Message.object (P.as_map o)
  ]

  unfoldable pub from_log_event : LogEvent.LogEvent V.Object → NotificationLog V
  unfolding extract_message
  from_log_event l = record {
    id = l.id;
    message = extract_message l;
    timestamp = l.timestamp;
    level = l.level;
    stream = l.stream;
    kind = kind_text l.kind;
  }

  -- The CPU of all cores together.
  unfoldable pub notification_stat : Container V → Host → ContainerStat V → NotificationStat V
  unfolding from_container_mounts
  notification_stat c host stat =
      let counted = P.float_of host.n_cpu in
      let known = if P.is_at_most_zero counted then P.float_of (pos 1) else counted in
      let cores = if P.is_at_most_zero c.cpu_limit then known else c.cpu_limit in
      record {
        cpu_percent = P.divide stat.cpu_percent cores;
        memory_percent = stat.memory_percent;
        memory_usage = stat.memory_usage;
        mounts = from_container_mounts c;
      }
