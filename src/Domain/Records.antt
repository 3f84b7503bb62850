-- ===== src/Domain/Records.antt =====
-- The interfaces of domain/types.ts that GatewayState keeps and passes on. An optional or a nullable
-- member is an Option. The closed sets of texts that the gateway only carries are String, and the
-- numbers that it only carries are whole. A time is its milliseconds, which toISOString prints and
-- Date.parse reads.
use Prim.Native.String.{String}
use eufy_mega_security.Prelude.{ℕ, Bool, Option, List}
use eufy_mega_security.Prelude.Int.{ℤ}
use eufy_mega_security.Domain.Kinds.{DetectionKind}
use eufy_mega_security.Domain.Names.{Text}

pub data ConnectionState : Type 0 where
  starting connected disconnected authentication_required error : ConnectionState

pub data EventReceiverState : Type 0 where
  starting connected activation_unconfirmed disconnected stopped degraded : EventReceiverState

pub data StreamState : Type 0 where
  idle starting streaming stopping error : StreamState

pub data CatalogueStatus : Type 0 where
  supported ready_to_test recognised : CatalogueStatus

pub data SnapshotSource : Type 0 where
  event live : SnapshotSource

pub data DeliveryAge : Type 0 where
  no_delivery under_one_minute one_to_five_minutes five_to_thirty_minutes over_thirty_minutes :
      DeliveryAge

pub record Detection : Type 0 where
  pub id : String
  pub kind : DetectionKind
  pub occurred_at : ℕ
  pub person_name : Option Text
  pub recognized : Bool

pub record SnapshotInfo : Type 0 where
  pub captured_at : String
  pub content_type : String
  pub source : SnapshotSource
  pub revision : ℕ

pub record CameraAudioSettings : Type 0 where
  pub microphone_enabled : Option Bool
  pub speaker_enabled : Option Bool
  pub recording_enabled : Option Bool
  pub speaker_volume : Option ℕ

pub record CameraReportedSettings : Type 0 where
  pub manual_floodlight_enabled : Option Bool
  pub pre_recording_enabled : Option Bool
  pub ringtone_volume : Option ℕ
  pub sound_detection_sensitivity : Option ℕ
  pub sound_detection_type : Option ℕ
  pub sound_round_look_enabled : Option Bool
  pub enhance_lighting_enabled : Option Bool
  pub light_brightness : Option ℕ
  pub notification_interval_minutes : Option ℕ
  pub rtsp_publication_enabled : Option Bool
  pub continuous_recording_enabled : Option Bool
  pub streaming_quality_tier : Option ℕ
  pub recording_quality_tier : Option ℕ
  pub solar_intensity : Option ℕ
  pub solar_connected24h : Option Bool
  pub notification_style : Option ℕ
  pub watermark_mode : Option ℕ
  pub anti_theft_detection_enabled : Option Bool
  pub spotlight_enabled : Option Bool
  pub motion_sensitivity_raw : Option ℕ
  pub motion_sensitivity_step : Option ℕ
  pub image_flipped : Option Bool
  pub status_led_enabled : Option Bool
  pub sound_detection_enabled : Option Bool
  pub homebase_chime_enabled : Option Bool
  pub mechanical_chime_enabled : Option Bool
  pub wide_dynamic_range_enabled : Option Bool
  pub chime_volume : Option ℕ
  pub doorbell_video_quality : Option ℕ
  pub high_compression_encoding : Option Bool
  pub working_mode : Option String
  pub recording_duration_seconds : Option ℕ
  pub recording_interval_seconds : Option ℕ
  pub recording_auto_stop : Option Bool

pub record NightVisionMode : Type 0 where
  pub value : ℕ
  pub name : String

pub record CameraStreamingQualityMode : Type 0 where
  pub value : ℕ
  pub name : String

pub record BatteryState : Type 0 where
  pub supported : List String
  pub level : Option ℕ
  pub charging : Option Bool
  pub health : Option ℕ
  pub temperature : Option ℤ
  pub last_charging_days : Option ℕ
  pub backup_level : Option ℕ

-- The bounds of one admitted preference in `preferenceRanges`.
pub record PreferenceRange : Type 0 where
  pub minimum : ℕ
  pub maximum : ℕ

pub record CameraIdentity : Type 0 where
  pub firmware_sub_version : Option String
  pub firmware_update_available : Option Bool
  pub firmware : Option String
  pub hardware_version : Option String
  pub rssi : Option ℤ
  pub audio_settings : Option CameraAudioSettings
  pub audio_recording_control_supported : Option Bool
  pub streaming_quality_control_supported : Option Bool
  pub preference_controls : Option (List String)
  pub care_preferences : Option (List (String × ℕ))
  pub preference_ranges : Option (List (String × PreferenceRange))
  pub supported_detections : Option (List DetectionKind)
  pub care_monitor : Option Bool
  pub motion_sensitivity_control_supported : Option Bool
  pub motion_sensitivity_steps : Option ℕ
  pub homebase_chime_control_supported : Option Bool
  pub light_brightness_control_supported : Option Bool
  pub manual_floodlight_control_supported : Option Bool
  pub streaming_quality_modes : Option (List CameraStreamingQualityMode)
  pub nvr_pan_control_supported : Option Bool
  pub directional_pan_control_supported : Option Bool
  pub nvr_optical_zoom_control_supported : Option Bool
  pub nvr_view_options : Option (List String)
  pub nvr_selected_view : Option ℕ
  pub nvr_live_controls_supported : Option Bool
  pub reported_settings : Option CameraReportedSettings
  pub serial : String
  pub name : String
  pub model : String
  pub catalogue_status : Option CatalogueStatus
  pub station_serial : String
  pub stream_supported : Bool
  pub startup_snapshot_supported : Option Bool
  pub stored_recordings_supported : Option Bool
  pub live_audio_supported : Option Bool
  pub talkback_supported : Option Bool
  pub doorbell_supported : Bool
  pub enabled : Option Bool
  pub enable_control_supported : Option Bool
  pub motion_detection_enabled : Option Bool
  pub motion_detection_control_supported : Option Bool
  pub guard_mode : Option ℕ
  pub guard_mode_control_supported : Option Bool
  pub guard_mode_refresh_supported : Option Bool
  pub night_vision_mode : Option ℕ
  pub night_vision_modes : Option (List NightVisionMode)
  pub night_vision_control_supported : Option Bool
  pub auto_night_vision_enabled : Option Bool
  pub auto_night_vision_control_supported : Option Bool
  pub camera_light_control_supported : Option Bool
  pub timed_light_control_supported : Option Bool
  pub camera_siren_control_supported : Option Bool
  pub preset_position_control_supported : Option Bool
  pub ai_tracking_control_supported : Option Bool
  pub ai_tracking_enabled : Option Bool
  pub auto_cruise_control_supported : Option Bool
  pub battery : Option BatteryState

pub record StreamSummary : Type 0 where
  pub state : StreamState
  pub viewers : ℕ
  pub started_at : Option ℕ
  pub last_error : Option String

-- The members that getCamera always fills are not optional here.
pub record CameraState : Type 0 where
  pub firmware_sub_version : Option String
  pub firmware_update_available : Option Bool
  pub firmware : Option String
  pub hardware_version : Option String
  pub rssi : Option ℤ
  pub audio_settings : Option CameraAudioSettings
  pub audio_recording_control_supported : Bool
  pub streaming_quality_control_supported : Bool
  pub preference_controls : List String
  pub care_preferences : List (String × ℕ)
  pub preference_ranges : List (String × PreferenceRange)
  pub supported_detections : Option (List DetectionKind)
  pub care_monitor : Bool
  pub motion_sensitivity_control_supported : Bool
  pub motion_sensitivity_steps : Option ℕ
  pub homebase_chime_control_supported : Bool
  pub light_brightness_control_supported : Bool
  pub manual_floodlight_control_supported : Bool
  pub streaming_quality_modes : List CameraStreamingQualityMode
  pub nvr_pan_control_supported : Bool
  pub directional_pan_control_supported : Bool
  pub nvr_optical_zoom_control_supported : Bool
  pub nvr_view_options : List String
  pub nvr_selected_view : Option ℕ
  pub nvr_live_controls_supported : Bool
  pub reported_settings : Option CameraReportedSettings
  pub serial : String
  pub name : String
  pub model : String
  pub catalogue_status : Option CatalogueStatus
  pub station_serial : String
  pub stream_supported : Bool
  pub live_audio_supported : Bool
  pub talkback_supported : Bool
  pub stored_recordings_supported : Bool
  pub doorbell_supported : Bool
  pub enabled : Option Bool
  pub enable_control_supported : Bool
  pub motion_detection_enabled : Option Bool
  pub motion_detection_control_supported : Bool
  pub guard_mode : Option ℕ
  pub guard_mode_control_supported : Bool
  pub guard_mode_refresh_supported : Bool
  pub night_vision_mode : Option ℕ
  pub night_vision_modes : List NightVisionMode
  pub night_vision_control_supported : Bool
  pub auto_night_vision_enabled : Option Bool
  pub auto_night_vision_control_supported : Bool
  pub camera_light_control_supported : Bool
  pub timed_light_control_supported : Bool
  pub camera_siren_control_supported : Bool
  pub preset_position_control_supported : Bool
  pub ai_tracking_control_supported : Bool
  pub ai_tracking_enabled : Option Bool
  pub auto_cruise_control_supported : Bool
  pub motion_detected : Bool
  pub person_detected : Bool
  pub stranger_detected : Bool
  pub pet_detected : Bool
  pub vehicle_detected : Bool
  pub dog_detected : Bool
  pub crying_detected : Bool
  pub sound_detected : Bool
  pub package_delivered_detected : Bool
  pub package_taken_detected : Bool
  pub package_stranded_detected : Bool
  pub doorbell_pressed : Bool
  pub battery : Option BatteryState
  pub last_detection : Option Detection
  pub snapshot : Option SnapshotInfo
  pub event_image : Option SnapshotInfo
  pub stream : StreamSummary
