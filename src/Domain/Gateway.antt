-- ===== src/Domain/Gateway.antt =====
-- GatewayState of domain/gateway-state.ts, its cameras: the state, what a caller is shown of one
-- camera, and what the operations share. A thrown "Unknown camera" is `none`; the value of an
-- operation is the new state with the events emitted, in order. A clear timer is its deadline.
pub mod Cameras
pub mod Updates
pub mod Calls
pub mod Holds
pub mod Enrichment
pub mod Doorbell
mod Runs
use Prim.Native.String.{String}
use eufy_mega_security.Prelude.{
  Eq, Eq_String, ◌++◌, ℕ, Bool, false, ◌||◌, Option, none, some, List, [], ◌∷◌, if◌then◌else◌,
}
use eufy_mega_security.Prelude.JsMap.{JsMap, get, put, remove}
use eufy_mega_security.Domain.Kinds.{
  OtherKind, stranger, pet, vehicle, dog, crying, sound, package_delivered, package_taken,
  package_stranded, TimerKey, Eq_TimerKey,
}
use eufy_mega_security.Domain.Records.{
  CameraIdentity, CameraState, ConnectionState, Detection, SnapshotInfo, StreamState,
}

-- The fields `strangerDetected` to `packageStrandedDetected`, which recordDetection writes by the
-- computed name `kindDetected`, are the function `detected`.
pub record Camera : Type 0 where
  pub identity : CameraIdentity
  pub raw_motion_detected : Bool
  pub motion_detected : Bool
  pub person_detected : Bool
  pub detected : OtherKind → Bool
  pub doorbell_pressed : Bool
  pub last_detection : Option Detection
  pub person_event_identity : Option String
  pub doorbell_event_identity : Option String
  pub snapshot : Option SnapshotInfo
  pub event_image : Option SnapshotInfo
  pub stream_state : StreamState
  pub stream_viewers : ℕ
  pub stream_started_at : Option ℕ
  pub stream_last_error : Option String

pub record Gateway : Type 0 where
  pub hold : ℕ
  pub cameras : JsMap String Camera
  pub motion_timers : JsMap String ℕ
  pub person_timers : JsMap String ℕ
  pub doorbell_timers : JsMap String ℕ
  pub detection_timers : JsMap TimerKey ℕ
  pub connection_state : ConnectionState
  pub connection_detail : Option String

pub data Event : Type 0 where
  camera_updated : CameraState → Event
  detection : String → Detection → Event
  snapshot_updated event_image_updated : String → SnapshotInfo → Event
  connection_updated : ConnectionState → Option String → Event

abbrev pub Outcome : Type 0
Outcome = Option (Gateway × List Event)

unfoldable pub unwrap_or {ℓ} : {A : Type ℓ} → A → Option A → A
unwrap_or a none = a
unwrap_or a (some b) = b

-- What getCamera shows of a camera.
unfoldable pub camera_state : Camera → CameraState
unfolding unwrap_or
camera_state c = record {
  serial = c.identity.serial;
  name = c.identity.name;
  model = c.identity.model;
  firmware = c.identity.firmware;
  hardware_version = c.identity.hardware_version;
  firmware_sub_version = c.identity.firmware_sub_version;
  firmware_update_available = c.identity.firmware_update_available;
  rssi = c.identity.rssi;
  audio_settings = c.identity.audio_settings;
  streaming_quality_control_supported =
      unwrap_or false c.identity.streaming_quality_control_supported;
  streaming_quality_modes =
      (if unwrap_or false c.identity.streaming_quality_control_supported
        then unwrap_or [] c.identity.streaming_quality_modes
        else []);
  nvr_pan_control_supported = unwrap_or false c.identity.nvr_pan_control_supported;
  nvr_optical_zoom_control_supported =
      unwrap_or false c.identity.nvr_optical_zoom_control_supported;
  nvr_view_options = unwrap_or [] c.identity.nvr_view_options;
  nvr_selected_view = c.identity.nvr_selected_view;
  nvr_live_controls_supported = unwrap_or false c.identity.nvr_live_controls_supported;
  preference_controls = unwrap_or [] c.identity.preference_controls;
  preference_ranges = unwrap_or [] c.identity.preference_ranges;
  care_preferences = unwrap_or [] c.identity.care_preferences;
  care_monitor = unwrap_or false c.identity.care_monitor;
  supported_detections = c.identity.supported_detections;
  motion_sensitivity_control_supported =
      unwrap_or false c.identity.motion_sensitivity_control_supported;
  motion_sensitivity_steps = c.identity.motion_sensitivity_steps;
  homebase_chime_control_supported = unwrap_or false c.identity.homebase_chime_control_supported;
  light_brightness_control_supported =
      unwrap_or false c.identity.light_brightness_control_supported;
  manual_floodlight_control_supported =
      unwrap_or false c.identity.manual_floodlight_control_supported;
  audio_recording_control_supported = unwrap_or false c.identity.audio_recording_control_supported;
  reported_settings = c.identity.reported_settings;
  catalogue_status = c.identity.catalogue_status;
  station_serial = c.identity.station_serial;
  stream_supported = c.identity.stream_supported;
  live_audio_supported = unwrap_or false c.identity.live_audio_supported;
  talkback_supported = unwrap_or false c.identity.talkback_supported;
  stored_recordings_supported = unwrap_or false c.identity.stored_recordings_supported;
  doorbell_supported = c.identity.doorbell_supported;
  enabled = c.identity.enabled;
  enable_control_supported = unwrap_or false c.identity.enable_control_supported;
  motion_detection_enabled = c.identity.motion_detection_enabled;
  motion_detection_control_supported =
      unwrap_or false c.identity.motion_detection_control_supported;
  guard_mode = c.identity.guard_mode;
  guard_mode_control_supported = unwrap_or false c.identity.guard_mode_control_supported;
  guard_mode_refresh_supported = unwrap_or false c.identity.guard_mode_refresh_supported;
  night_vision_mode = c.identity.night_vision_mode;
  night_vision_modes = unwrap_or [] c.identity.night_vision_modes;
  night_vision_control_supported = unwrap_or false c.identity.night_vision_control_supported;
  auto_night_vision_enabled = c.identity.auto_night_vision_enabled;
  auto_night_vision_control_supported =
      unwrap_or false c.identity.auto_night_vision_control_supported;
  camera_light_control_supported = unwrap_or false c.identity.camera_light_control_supported;
  directional_pan_control_supported = unwrap_or false c.identity.directional_pan_control_supported;
  timed_light_control_supported = unwrap_or false c.identity.timed_light_control_supported;
  camera_siren_control_supported = unwrap_or false c.identity.camera_siren_control_supported;
  preset_position_control_supported = unwrap_or false c.identity.preset_position_control_supported;
  ai_tracking_control_supported = unwrap_or false c.identity.ai_tracking_control_supported;
  ai_tracking_enabled = c.identity.ai_tracking_enabled;
  auto_cruise_control_supported = unwrap_or false c.identity.auto_cruise_control_supported;
  motion_detected = c.motion_detected;
  person_detected = c.person_detected;
  stranger_detected = c.detected stranger;
  pet_detected = c.detected pet;
  vehicle_detected = c.detected vehicle;
  dog_detected = c.detected dog;
  crying_detected = c.detected crying;
  sound_detected = c.detected sound;
  package_delivered_detected = c.detected package_delivered;
  package_taken_detected = c.detected package_taken;
  package_stranded_detected = c.detected package_stranded;
  doorbell_pressed = c.doorbell_pressed;
  battery = c.identity.battery;
  last_detection = c.last_detection;
  snapshot = c.snapshot;
  event_image = c.event_image;
  stream = record {
    state = c.stream_state;
    viewers = c.stream_viewers;
    started_at = c.stream_started_at;
    last_error = c.stream_last_error;
  };
}

unfoldable pub get_camera : String → Gateway → Option CameraState
unfolding camera_state
get_camera serial g = elim (get serial g.cameras) [ none ↦ none | some c ↦ some (camera_state c) ]

-- The mutated camera keeps its place in the map, and is emitted.
unfoldable pub emit_camera : String → Camera → List Event → Gateway → Gateway × List Event
unfolding camera_state
emit_camera serial c before g = (
  record g { cameras = put serial c g.cameras },
  before ++ (camera_updated (camera_state c) ∷ []),
)

-- What raises the general motion flag.
unfoldable pub aggregate_motion : Camera → Bool
aggregate_motion c =
    c.raw_motion_detected
    || c.person_detected
    || c.detected stranger
    || c.detected pet
    || c.detected vehicle
    || c.detected dog
    || c.detected package_delivered
    || c.detected package_taken
    || c.detected package_stranded

unfoldable pub refresh_aggregate_motion : Camera → Camera
unfolding aggregate_motion
refresh_aggregate_motion c = record c { motion_detected = aggregate_motion c }

-- The old timer goes, and a detection sets a new one.
unfoldable pub schedule {ℓ} : {K : Type ℓ} ⦃e : Eq K⦄ → K → Bool → ℕ → JsMap K ℕ → JsMap K ℕ
schedule key detected deadline timers =
    let rest = remove key timers in if detected then put key deadline rest else rest

unfoldable pub initial : ℕ → Gateway
initial hold = record {
  hold = hold;
  cameras = [];
  motion_timers = [];
  person_timers = [];
  doorbell_timers = [];
  detection_timers = [];
  connection_state = ConnectionState.starting;
  connection_detail = none;
}
