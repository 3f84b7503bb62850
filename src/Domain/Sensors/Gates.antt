-- ===== src/Domain/Sensors/Gates.antt =====
-- The flags of a sensor and its capabilities.
use Prim.Native.String.{String}
use eufy_mega_security.Prelude.{
  Eq_String, ℕ, Bool, true, false, Option, none, some, List, [], ◌∷◌, ◌≡◌, ◌≢◌, refl, sym, ap, ◌∙◌,
  any, beq-cases, Bool-cases, inl, inr, arith, ◌==◌,
}
use eufy_mega_security.Prelude.JsMap.{get, put, remove, AllValues, get-AllValues, put-AllValues}
use eufy_mega_security.Domain.Sensors.{
  SensorKind, motion, SensorKey, Eq_SensorKind, Eq_SensorKey, Sensor, Sensors, Updated, can_detect,
  absent_flag, notification, register_sensor, set_flag, change_contact, update_sensor_contact,
  change_motion, record_sensor_motion, change_detection, record_sensor_detection,
  elapse_sensor_motion, elapse_sensor_detection, no_sensors, is_contact,
}

-- No flag is up of a kind that is no capability of the sensor.
pub Gated : Sensor → Type 0
Gated s = (k : SensorKind) → can_detect k s ≡ false → s.detected k ≢ some true

pub AllGated : Sensors → Type 0
AllGated g = AllValues Gated g.sensors

absent-down : (k : SensorKind) → absent_flag k ≢ some true
unfolding absent_flag
absent-down k h = elim (Bool-cases (k == motion)) [
  | inl yes_motion ↦
      let e : some false ≡ some true = sym (rw yes_motion refl) ∙ h in absurd (ground arith)
  | inr another ↦ let e : none ≡ some true = sym (rw another refl) ∙ h in absurd (ground arith)
]

notification-Gated :
    (existing : Option Sensor) (s : Sensor)
    → Gated (record s { detected = notification existing s })
unfolding Gated notification can_detect
notification-Gated existing s k h = rw h (absent-down k)

set_flag-Gated :
    (k : SensorKind) (b : Bool) (s : Sensor)
    → can_detect k s ≡ true
    → Gated s
    → Gated (set_flag k b s)
unfolding Gated set_flag can_detect
set_flag-Gated k b s can h j gone = elim (beq-cases j k) [
  | inl equal ↦
      let e : false ≡ true = sym gone ∙ ap (λ i. can_detect i s) equal.1 ∙ can in
      absurd (ground arith)
  | inr other ↦ rw other.0 (h j gone)
]

module _ (g : Sensors) (h : AllGated g) where
  register-AllGated : (s : Sensor) → AllGated (register_sensor s g).0
  unfolding register_sensor AllGated
  register-AllGated s =
      put-AllValues Gated s.serial _ g.sensors h (notification-Gated (get s.serial g.sensors) s)

  put-AllGated :
      (serial : String) (k : SensorKind) (b : Bool) (s : Sensor)
      → get serial g.sensors ≡ some s
      → can_detect k s ≡ true
      → AllValues Gated (put serial (set_flag k b s) g.sensors)
  unfolding AllGated
  put-AllGated serial k b s e can =
      put-AllValues Gated serial (set_flag k b s) g.sensors h
        (set_flag-Gated k b s can (get-AllValues Gated serial s g.sensors h e))

  contact-AllGated : (is_open : Bool) (o : Option Sensor) → AllGated (change_contact is_open g o).0
  unfolding change_contact
  contact-AllGated is_open none = h
  contact-AllGated is_open (some s) = elim (Bool-cases (any is_contact s.capabilities)) [
    | inl can ↦ rw can (register-AllGated (record s { contact_open = some is_open }))
    | inr cannot ↦ rw cannot h
  ]

-- The timers that an operation finds do not matter to the flags.
motion-AllGated :
    (serial : String) (b : Bool) (now : ℕ) (g : Sensors) (o : Option Sensor)
    → AllGated g
    → get serial g.sensors ≡ o
    → AllGated (change_motion serial b now g o).0
unfolding change_motion AllGated
motion-AllGated serial b now g none h e = h
motion-AllGated serial b now g (some s) h e = elim (Bool-cases (can_detect motion s)) [
  | inl can ↦ rw can (put-AllGated g h serial motion b s e can)
  | inr cannot ↦ rw cannot h
]

detection-AllGated :
    (key : SensorKey) (b : Bool) (now : ℕ) (g : Sensors) (o : Option Sensor)
    → AllGated g
    → get key.serial g.sensors ≡ o
    → AllGated (change_detection key b now g o).0
unfolding change_detection AllGated
detection-AllGated key b now g none h e = h
detection-AllGated key b now g (some s) h e = elim (Bool-cases (can_detect key.kind s)) [
  | inl can ↦ rw can (put-AllGated g h key.serial key.kind b s e can)
  | inr cannot ↦ rw cannot h
]

-- What can happen to the sensors before the state is closed.
pub data Call : Type 0 where
  register : Sensor → Call
  change : String → Bool → Call
  moves : String → Bool → ℕ → Call
  detects_kind : SensorKey → Bool → ℕ → Call
  motion_elapsed : String → ℕ → Call
  detection_elapsed : SensorKey → ℕ → Call

unfoldable pub perform : Call → Sensors → Updated
unfolding register_sensor update_sensor_contact record_sensor_motion record_sensor_detection
    elapse_sensor_motion elapse_sensor_detection
perform (register s) g = register_sensor s g
perform (change serial is_open) g = update_sensor_contact serial is_open g
perform (moves serial b now) g = record_sensor_motion serial b now g
perform (motion_elapsed serial now) g = elapse_sensor_motion serial now g
perform (detects_kind key b now) g = record_sensor_detection key b now g
perform (detection_elapsed key now) g = elapse_sensor_detection key now g

unfoldable pub run : List Call → Sensors → Sensors
unfolding perform
run [] g = g
run (c ∷ cs) g = run cs (perform c g).0

perform-AllGated : (c : Call) (g : Sensors) → AllGated g → AllGated (perform c g).0
unfolding perform AllGated
perform-AllGated (register s) g h = register-AllGated g h s
perform-AllGated (change serial is_open) g h = contact-AllGated g h is_open (get serial g.sensors)
perform-AllGated (moves serial b now) g h =
    motion-AllGated serial b now g (get serial g.sensors) h refl
perform-AllGated (motion_elapsed serial now) g h =
    motion-AllGated serial false now (record g { motion_timers = remove serial g.motion_timers })
      (get serial g.sensors) h refl
perform-AllGated (detects_kind key b now) g h =
    detection-AllGated key b now g (get key.serial g.sensors) h refl
perform-AllGated (detection_elapsed key now) g h =
    detection-AllGated key false now (record g { detection_timers = remove key g.detection_timers })
      (get key.serial g.sensors) h refl

run-AllGated : (cs : List Call) (g : Sensors) → AllGated g → AllGated (run cs g)
unfolding run
run-AllGated [] g h = h
run-AllGated (c ∷ cs) g h = run-AllGated cs (perform c g).0 (perform-AllGated c g h)

-- Whatever is registered and reported of the sensors, and whenever their clear timers run: no sensor
-- shows a detection of a kind that is not among its capabilities, also after a registration took the
-- capability away while the detection was held.
pub run-gated :
    (cs : List Call) (hold : ℕ) (serial : String) (s : Sensor) (k : SensorKind)
    → get serial (run cs (no_sensors hold)).sensors ≡ some s
    → can_detect k s ≡ false
    → s.detected k ≢ some true
unfolding Gated AllGated no_sensors
run-gated cs hold serial s k e h =
    get-AllValues Gated serial s (run cs (no_sensors hold)).sensors
      (run-AllGated cs (no_sensors hold) tt) e k h
