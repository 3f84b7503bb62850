-- ===== src/Domain/Sensors/Runs.antt =====
-- A sensor that hears a cry, and is registered again without that capability.
use eufy_mega_security.Prelude.{Eq_String, true, false, none, some, List, [], ◌∷◌, ◌≡◌, ◌≢◌, refl}
use eufy_mega_security.Prelude.JsMap.{get}
use eufy_mega_security.Domain.Sensors.{
  motion, crying, detects, battery, Sensor, no_sensors, can_detect, notification, same_sensor_kind,
}
use eufy_mega_security.Domain.Sensors.Gates.{Call, register, detects_kind, run, run-gated}

abbrev monitor : Sensor
monitor = record {
  serial = "room";
  name = "Room";
  model = "T8354";
  device_type = 86;
  available = true;
  capabilities = detects motion ∷ detects crying ∷ [];
  battery_level = none;
  contact_open = none;
  last_seen = none;
  detected = λ k. none;
  care_settings = none;
  signal = none;
}

abbrev deaf : Sensor
deaf = record monitor { capabilities = battery ∷ [] }

abbrev calls : List Call
calls =
    register monitor
    ∷ detects_kind (record { serial = "room"; kind = crying }) true 1000
    ∷ register deaf
    ∷ []

abbrev shown : Sensor
shown = record deaf {
  detected =
      notification
        (get "room"
          (run
            (register monitor
              ∷ detects_kind (record { serial = "room"; kind = crying }) true 1000
              ∷ [])
            (no_sensors 10000)).sensors)
        deaf;
}

shown-last : get "room" (run calls (no_sensors 10000)).sensors ≡ some shown
unfolding run no_sensors same_sensor_kind
shown-last = refl

deaf-crying : can_detect crying shown ≡ false
unfolding can_detect
deaf-crying = refl

run-gated_example : shown.detected crying ≢ some true
run-gated_example = run-gated calls 10000 "room" shown crying shown-last deaf-crying
