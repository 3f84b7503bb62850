-- ===== src/Domain/Sensors.antt =====
-- The standalone sensors of GatewayState, domain/gateway-state.ts. The fields `motionDetected` to
-- `babyActivityDetected`, which the class reads and writes by the computed name `kindDetected`, are the
-- function `detected`; an absent field is `none`. A clear timer is its deadline.
pub mod Gates
mod Runs
use Prim.Native.String.{String}
use native.Mathlib.Omega.{arith}
use mathlib.Core.Path.{◌≡◌}
use mathlib.Core.Logic.{◌↔◌}
use mathlib.Core.Bool.{decide, decide_iff}
use eufy_mega_security.Prelude.{
  Eq, Eq_String, ℕ, ◌+◌, Bool, true, false, ◌&&◌, ◌==◌, Option, none, some, List, [], ◌∷◌, any,
  if◌then◌else◌, beq-cases,
}
use eufy_mega_security.Prelude.Int.{ℤ}
use eufy_mega_security.Prelude.JsMap.{JsMap, get, has, put, remove}

pub data SensorKind : Type 0 where
  motion crying sound pet baby_left baby_entered : SensorKind
  temperature_high temperature_low care_area_left care_area_entered baby_activity : SensorKind

SensorKind-discrete : Discrete SensorKind
SensorKind-discrete = hlevel

pub same_sensor_kind : SensorKind → SensorKind → Bool
unfolding decide SensorKind-discrete
same_sensor_kind k j = decide (SensorKind-discrete k j)

pub same_sensor_kind_iff : (k j : SensorKind) → (same_sensor_kind k j ≡ true) ↔ (k ≡ j)
unfolding same_sensor_kind
same_sensor_kind_iff k j = decide_iff (SensorKind-discrete k j)

instance abbrev pub Eq_SensorKind : Eq SensorKind
Eq_SensorKind = record { same = same_sensor_kind; same_iff = same_sensor_kind_iff }

-- The key `serial:kind`; no kind holds a colon.
pub record SensorKey : Type 0 where
  pub serial : String
  pub kind : SensorKind

pub same_sensor_key : SensorKey → SensorKey → Bool
same_sensor_key a b = a.serial == b.serial && (a.kind == b.kind)

pub same_sensor_key_iff : (a b : SensorKey) → (same_sensor_key a b ≡ true) ↔ (a ≡ b)
unfolding same_sensor_key
same_sensor_key_iff a b = ground (arith, beq-cases a.serial b.serial, beq-cases a.kind b.kind)

instance abbrev pub Eq_SensorKey : Eq SensorKey
Eq_SensorKey = record { same = same_sensor_key; same_iff = same_sensor_key_iff }

-- The capabilities that are detection kinds, and the others.
pub data Capability : Type 0 where
  detects : SensorKind → Capability
  battery contact last_seen rssi room_temperature care_diagnostics : Capability

pub record E21CareSettings : Type 0 where
  pub room_temperature_celsius : Option ℤ
  pub high_temperature_celsius : Option ℤ
  pub low_temperature_celsius : Option ℤ
  pub temperature_monitoring_enabled : Option Bool
  pub white_noise_volume : Option ℕ
  pub white_noise_timer_raw : Option ℕ
  pub rtsp_publication_enabled : Option Bool

pub record Sensor : Type 0 where
  pub serial : String
  pub name : String
  pub model : String
  pub device_type : ℕ
  pub available : Bool
  pub capabilities : List Capability
  pub battery_level : Option ℕ
  pub contact_open : Option Bool
  pub last_seen : Option String
  pub detected : SensorKind → Option Bool
  pub care_settings : Option E21CareSettings
  pub signal : Option ℤ

pub record Sensors : Type 0 where
  pub hold : ℕ
  pub sensors : JsMap String Sensor
  pub motion_timers : JsMap String ℕ
  pub detection_timers : JsMap SensorKey ℕ

-- What an operation emits: the sensor updated.
abbrev pub Updated : Type 0
Updated = Sensors × List Sensor

unfoldable pub is_kind : SensorKind → Capability → Bool
is_kind k (detects j) = k == j
is_kind k _ = false

unfoldable pub is_contact : Capability → Bool
is_contact contact = true
is_contact _ = false

unfoldable pub can_detect : SensorKind → Sensor → Bool
unfolding is_kind
can_detect k s = any (is_kind k) s.capabilities

abbrev pub e21_detection_kinds : List SensorKind
e21_detection_kinds =
    motion ∷ crying ∷ sound ∷ pet ∷ baby_left ∷ baby_entered ∷ temperature_high ∷ temperature_low
    ∷ care_area_left ∷ care_area_entered ∷ baby_activity ∷ []

-- A kind that the sensor has no longer loses its clear timer.
unfoldable pub drop_timers : Sensor → List SensorKind → JsMap SensorKey ℕ → JsMap SensorKey ℕ
unfolding can_detect
drop_timers s [] m = m
drop_timers s (k ∷ ks) m =
    let rest = drop_timers s ks in
    rest (if can_detect k s then m else remove (record { serial = s.serial; kind = k }) m)

-- `existing?.[field] ?? sensor[field] ?? false`
unfoldable pub first_flag : Option Bool → Option Bool → Bool
first_flag (some b) o = b
first_flag none (some b) = b
first_flag none none = false

unfoldable pub flag_of : Option Sensor → SensorKind → Option Bool
flag_of none k = none
flag_of (some s) k = s.detected k

-- Without the capability the motion flag is down, and another flag is absent.
unfoldable pub absent_flag : SensorKind → Option Bool
absent_flag k = if k == motion then some false else none

unfoldable pub notification : Option Sensor → Sensor → SensorKind → Option Bool
unfolding can_detect first_flag flag_of absent_flag
notification existing s k =
    if can_detect k s then some (first_flag (flag_of existing k) (s.detected k)) else absent_flag k

unfoldable pub register_sensor : Sensor → Sensors → Updated
unfolding drop_timers notification
register_sensor s g =
    let snapshot : Sensor = record s { detected = notification (get s.serial g.sensors) s } in
    (
      record g {
        sensors = put s.serial snapshot g.sensors;
        detection_timers = drop_timers s e21_detection_kinds g.detection_timers;
      },
      snapshot ∷ [],
    )

unfoldable pub set_flag : SensorKind → Bool → Sensor → Sensor
set_flag k b s = record s { detected = λ j. if j == k then some b else s.detected j }

unfoldable pub change_contact : Bool → Sensors → Option Sensor → Updated
unfolding register_sensor is_contact
change_contact is_open g none = (g, [])
change_contact is_open g (some s) =
    if any is_contact s.capabilities
    then register_sensor (record s { contact_open = some is_open }) g
    else (g, [])

unfoldable pub update_sensor_contact : String → Bool → Sensors → Updated
unfolding change_contact
update_sensor_contact serial is_open g = change_contact is_open g (get serial g.sensors)

unfoldable pub change_motion : String → Bool → ℕ → Sensors → Option Sensor → Updated
unfolding can_detect set_flag
change_motion serial b now g none = (g, [])
change_motion serial b now g (some s) =
    let rest = remove serial g.motion_timers in
    if can_detect motion s
    then (
      record g {
        sensors = put serial (set_flag motion b s) g.sensors;
        motion_timers = (if b then put serial (now + g.hold) rest else rest);
      },
      set_flag motion b s ∷ [],
    )
    else (g, [])

unfoldable pub record_sensor_motion : String → Bool → ℕ → Sensors → Updated
unfolding change_motion
record_sensor_motion serial b now g = change_motion serial b now g (get serial g.sensors)

unfoldable pub change_detection : SensorKey → Bool → ℕ → Sensors → Option Sensor → Updated
unfolding can_detect set_flag
change_detection key b now g none = (g, [])
change_detection key b now g (some s) =
    let rest = remove key g.detection_timers in
    if can_detect key.kind s
    then (
      record g {
        sensors = put key.serial (set_flag key.kind b s) g.sensors;
        detection_timers = (if b then put key (now + g.hold) rest else rest);
      },
      set_flag key.kind b s ∷ [],
    )
    else (g, [])

unfoldable pub record_sensor_detection : SensorKey → Bool → ℕ → Sensors → Updated
unfolding change_detection
record_sensor_detection key b now g = change_detection key b now g (get key.serial g.sensors)

-- The callbacks of the clear timers, which delete their entry first.
unfoldable pub elapse_sensor_motion : String → ℕ → Sensors → Updated
unfolding record_sensor_motion
elapse_sensor_motion serial now g =
    record_sensor_motion serial false now
      (record g { motion_timers = remove serial g.motion_timers })

unfoldable pub elapse_sensor_detection : SensorKey → ℕ → Sensors → Updated
unfolding record_sensor_detection
elapse_sensor_detection key now g =
    record_sensor_detection key false now
      (record g { detection_timers = remove key g.detection_timers })

unfoldable pub no_sensors : ℕ → Sensors
no_sensors hold = record { hold = hold; sensors = []; motion_timers = []; detection_timers = [] }

unfoldable pub has_sensor : String → Sensors → Bool
has_sensor serial g = has serial g.sensors
