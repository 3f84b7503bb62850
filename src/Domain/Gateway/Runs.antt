-- ===== src/Domain/Gateway/Runs.antt =====
-- One camera: a person is seen, then named, and the motion timer comes due.
use Prim.Native.String.{String}
use eufy_mega_security.Prelude.{
  inr, Eq_String, true, false, none, some, List, [], ◌∷◌, ◌≡◌, ◌≢◌, refl, ◌⊎◌, is_some,
}
use mathlib.Core.List.{cons≢nil}
use eufy_mega_security.Prelude.JsMap.{Distinct, get, put}
use eufy_mega_security.Domain.Kinds.{OtherKind, person, doorbell, Eq_TimerKey}
use eufy_mega_security.Domain.Names.{Text, is_space, normalize_person_name}
use eufy_mega_security.Domain.Records.{CameraIdentity, Detection}
use eufy_mega_security.Domain.Gateway.{Camera, Gateway, initial, aggregate_motion, camera_state}
use eufy_mega_security.Domain.Gateway.Event.{camera_updated}
use eufy_mega_security.Domain.Gateway.Cameras.{new_camera, named_detection}
use eufy_mega_security.Domain.Gateway.Updates.{owner_of, named, enrich_name}
use eufy_mega_security.Domain.Gateway.Calls.{Call, Moment, elapse_doorbell, run}
use eufy_mega_security.Domain.Gateway.Calls.Call.{register, motion_elapsed}
use eufy_mega_security.Domain.Gateway.Holds.Reached.{run-flags}
use eufy_mega_security.Domain.Gateway.Doorbell.{elapse_doorbell_unsupported}
use native.Mathlib.Omega.{arith}
use eufy_mega_security.Domain.Gateway.Enrichment.{enrich_name-result, enrich_name-once}

abbrev front : CameraIdentity
front = record {
  firmware_sub_version = none;
  firmware_update_available = none;
  firmware = none;
  hardware_version = none;
  rssi = none;
  audio_settings = none;
  audio_recording_control_supported = none;
  streaming_quality_control_supported = none;
  preference_controls = none;
  care_preferences = none;
  preference_ranges = none;
  supported_detections = none;
  care_monitor = none;
  motion_sensitivity_control_supported = none;
  motion_sensitivity_steps = none;
  homebase_chime_control_supported = none;
  light_brightness_control_supported = none;
  manual_floodlight_control_supported = none;
  streaming_quality_modes = none;
  nvr_pan_control_supported = none;
  directional_pan_control_supported = none;
  nvr_optical_zoom_control_supported = none;
  nvr_view_options = none;
  nvr_selected_view = none;
  nvr_live_controls_supported = none;
  reported_settings = none;
  serial = "front";
  name = "Front door";
  model = "T8210";
  catalogue_status = none;
  station_serial = "base";
  stream_supported = true;
  startup_snapshot_supported = none;
  stored_recordings_supported = none;
  live_audio_supported = none;
  talkback_supported = none;
  doorbell_supported = true;
  enabled = none;
  enable_control_supported = none;
  motion_detection_enabled = none;
  motion_detection_control_supported = none;
  guard_mode = none;
  guard_mode_control_supported = none;
  guard_mode_refresh_supported = none;
  night_vision_mode = none;
  night_vision_modes = none;
  night_vision_control_supported = none;
  auto_night_vision_enabled = none;
  auto_night_vision_control_supported = none;
  camera_light_control_supported = none;
  timed_light_control_supported = none;
  camera_siren_control_supported = none;
  preset_position_control_supported = none;
  ai_tracking_control_supported = none;
  ai_tracking_enabled = none;
  auto_cruise_control_supported = none;
  battery = none;
}

abbrev seen : List Moment
seen =
    record { call = register front; id = ""; now = 1000 }
    ∷ record { call = Call.person "front" true none 2000 (some "e1"); id = "d1"; now = 2000 }
    ∷ record { call = motion_elapsed "front"; id = ""; now = 2500 }
    ∷ []

abbrev shown : Camera
shown = record (new_camera front) {
  motion_detected = true;
  person_detected = true;
  person_event_identity = some "e1";
  last_detection = some (named_detection "d1" person 2000 none);
}

abbrev reached : Gateway
reached = (run seen (initial 10000)).0

reached-shown : get "front" reached.cameras ≡ some shown
unfolding run initial
reached-shown = refl

run-flags_example :
    (shown.motion_detected ≡ aggregate_motion shown)
    × ((shown.raw_motion_detected ≡ is_some (get "front" reached.motion_timers))
        × ((shown.person_detected ≡ is_some (get "front" reached.person_timers))
            × ((k : OtherKind)
                → shown.detected k
                  ≡ is_some
                      (get (record { serial = "front"; kind = k }) reached.detection_timers))))
run-flags_example = run-flags 10000 seen "front" shown reached-shown

abbrev source : String
source = "e1"

-- "Ann"
abbrev ann : Text
ann = 65 ∷ 110 ∷ 110 ∷ []

enrich_name-result_example :
    (enrich_name "front" "e1" ann person reached ≡ some (reached, []))
    ⊎ ((text : Text) × ((d : Detection) × ((normalize_person_name (some ann) ≡ some text)
            × ((shown.last_detection ≡ some d)
                × ((d.kind ≡ person)
                    × ((d.recognized ≡ false)
                        × ((owner_of person shown ≡ some "e1")
                            × ((source ≢ "")
                                × (enrich_name "front" "e1" ann person reached
                                    ≡ some (
                                      record reached {
                                        cameras =
                                            put "front"
                                              (record shown {
                                                last_detection = some (named text d);
                                              })
                                              reached.cameras;
                                      },
                                      camera_updated (
                                            camera_state (record shown {
                                              last_detection = some (named text d);
                                            }))
                                          ∷ [],
                                    ))))))))))
enrich_name-result_example = enrich_name-result "front" "e1" ann person reached shown reached-shown

abbrev named_camera : Camera
named_camera = record shown {
  last_detection = some (named ann (named_detection "d1" person 2000 none));
}

abbrev named_gateway : Gateway
named_gateway = record reached { cameras = put "front" named_camera reached.cameras }

reached-named :
    enrich_name "front" "e1" ann person reached
    ≡ some (named_gateway, camera_updated (camera_state named_camera) ∷ [])
unfolding run initial enrich_name is_space
reached-named = refl

enrich_name-once_example :
    enrich_name "front" "e2" (66 ∷ []) person named_gateway ≡ some (named_gateway, [])
enrich_name-once_example =
    enrich_name-once "front" "e1" "e2" ann (66 ∷ []) person reached named_gateway
      (camera_updated (camera_state named_camera) ∷ []) reached-named (inr cons≢nil)

-- A press at 1000, and an inventory without the doorbell at 2000.
abbrev bare : CameraIdentity
bare = record front { doorbell_supported = false }

abbrev pressed_moments : List Moment
pressed_moments =
    record { call = register front; id = ""; now = 500 }
    ∷ record { call = Call.doorbell "front" true 1000 none none; id = "d2"; now = 1000 }
    ∷ record { call = register bare; id = ""; now = 2000 }
    ∷ []

abbrev pressed : Gateway
pressed = (run pressed_moments (initial 10000)).0

abbrev pressed_camera : Camera
pressed_camera = record (new_camera bare) {
  doorbell_pressed = true;
  last_detection = some (named_detection "d2" doorbell 1000 none);
}

pressed-shown : get "front" pressed.cameras ≡ some pressed_camera
unfolding run initial
pressed-shown = refl

pressed-timer : get "front" pressed.doorbell_timers ≡ some 11000
unfolding run initial
pressed-timer = refl

pressed-Distinct : Distinct pressed.doorbell_timers
unfolding run initial
pressed-Distinct = (refl, tt)

elapse_doorbell_unsupported_example :
    (later : Gateway) × ((elapse_doorbell "front" "" 12000 pressed ≡ some (later, []))
      × ((get "front" later.cameras ≡ some pressed_camera)
          × (get "front" later.doorbell_timers ≡ none)))
unfolding new_camera
elapse_doorbell_unsupported_example =
    elapse_doorbell_unsupported "front" "" 12000 11000 pressed pressed_camera pressed-shown refl
      pressed-Distinct pressed-timer (omega arith)
