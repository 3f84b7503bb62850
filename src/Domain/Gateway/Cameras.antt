-- ===== src/Domain/Gateway/Cameras.antt =====
-- The operations of GatewayState on one camera. `id` is what randomUUID returns, `now` the clock's
-- reading, and the times are milliseconds.
use Prim.Native.String.{String}
use eufy_mega_security.Prelude.{
  Eq_String, ℕ, ◌+◌, ◌-◌, Bool, false, not, ◌&&◌, ◌||◌, ◌==◌, Option, none, some, List, [], ◌∷◌,
  if◌then◌else◌, is_some, leb,
}
use eufy_mega_security.Prelude.JsMap.{get}
use eufy_mega_security.Domain.Kinds.{
  DetectionKind, OtherKind, crying, sound, motion, person, doorbell, other, TimerKey, Eq_TimerKey,
  Eq_OtherKind,
}
use eufy_mega_security.Domain.Names.{Text, normalize_person_name}
use eufy_mega_security.Domain.Records.{CameraIdentity, Detection, StreamState}
use eufy_mega_security.Domain.Gateway.{
  Camera, Gateway, Event, Outcome, emit_camera, refresh_aggregate_motion, aggregate_motion,
  schedule,
}
use eufy_mega_security.Domain.Gateway.Event.{detection}

-- `#requireCamera`, with what the operation does to the camera it finds.
unfoldable pub on_found : Option Camera → (Camera → Gateway × List Event) → Outcome
on_found none body = none
on_found (some c) body = some (body c)

unfoldable pub with_camera : String → Gateway → (Camera → Gateway × List Event) → Outcome
unfolding on_found
with_camera serial g body = on_found (get serial g.cameras) body

unfoldable pub new_camera : CameraIdentity → Camera
new_camera identity = record {
  identity = identity;
  raw_motion_detected = false;
  motion_detected = false;
  person_detected = false;
  detected = λ k. false;
  doorbell_pressed = false;
  last_detection = none;
  person_event_identity = none;
  doorbell_event_identity = none;
  snapshot = none;
  event_image = none;
  stream_state = StreamState.idle;
  stream_viewers = 0;
  stream_started_at = none;
  stream_last_error = none;
}

-- A changed binding drops the ownership of a later name.
unfoldable pub is_rebound : CameraIdentity → CameraIdentity → Bool
is_rebound old new = not (old.station_serial == new.station_serial) || not (old.model == new.model)

unfoldable pub rebind : CameraIdentity → Camera → Camera
unfolding is_rebound
rebind identity c = record c {
  identity = identity;
  person_event_identity =
      (if is_rebound c.identity identity then none else c.person_event_identity);
  doorbell_event_identity =
      (if is_rebound c.identity identity then none else c.doorbell_event_identity);
}

unfoldable pub registered : CameraIdentity → Option Camera → Camera
unfolding new_camera rebind
registered identity none = new_camera identity
registered identity (some c) = rebind identity c

unfoldable pub register_camera : CameraIdentity → Gateway → Gateway × List Event
unfolding registered emit_camera
register_camera identity g =
    emit_camera identity.serial (registered identity (get identity.serial g.cameras)) [] g

unfoldable pub is_recent_person_detection : Option Detection → ℕ → Bool
is_recent_person_detection none at = false
is_recent_person_detection (some d) at = elim d.kind [
  | person ↦ leb d.occurred_at at && leb (at - d.occurred_at) 10000
  | _ ↦ false
]

unfoldable pub plain_detection : String → DetectionKind → ℕ → Detection
plain_detection id kind at = record {
  id = id;
  kind = kind;
  occurred_at = at;
  person_name = none;
  recognized = false;
}

unfoldable pub named_detection : String → DetectionKind → ℕ → Option Text → Detection
named_detection id kind at name = record {
  id = id;
  kind = kind;
  occurred_at = at;
  person_name = name;
  recognized = is_some name;
}

unfoldable pub keep_motion : Detection → Camera → Camera
unfolding is_recent_person_detection
keep_motion d c = record c {
  last_detection =
      (if is_recent_person_detection c.last_detection d.occurred_at
        then c.last_detection
        else some d);
}

unfoldable pub record_motion : String → Bool → ℕ → String → ℕ → Gateway → Outcome
unfolding with_camera refresh_aggregate_motion schedule plain_detection keep_motion emit_camera
record_motion serial detected at id now g = with_camera serial g (λ found.
    let c : Camera = refresh_aggregate_motion (record found { raw_motion_detected = detected }) in
    let timed : Gateway = record g {
      motion_timers = schedule serial detected (now + g.hold) g.motion_timers;
    } in
    let d : Detection = plain_detection id motion at in
    if detected
    then emit_camera serial (keep_motion d c) (detection serial d ∷ []) timed
    else emit_camera serial c [] timed)

unfoldable pub own_person : Detection → Option String → Camera → Camera
own_person d event_identity c = record c {
  person_event_identity = event_identity;
  last_detection = some d;
}

unfoldable pub record_person :
    String → Bool → Option Text → ℕ → Option String → String → ℕ → Gateway → Outcome
unfolding with_camera refresh_aggregate_motion schedule named_detection own_person emit_camera
    normalize_person_name
record_person serial detected name at event_identity id now g = with_camera serial g (λ found.
    let c : Camera = refresh_aggregate_motion (record found { person_detected = detected }) in
    let timed : Gateway = record g {
      person_timers = schedule serial detected (now + g.hold) g.person_timers;
    } in
    let d : Detection = named_detection id person at (normalize_person_name name) in
    if detected
    then emit_camera serial (own_person d event_identity c) (detection serial d ∷ []) timed
    else emit_camera serial c [] timed)

unfoldable pub set_detected : OtherKind → Bool → Camera → Camera
set_detected kind b c = record c { detected = λ j. if j == kind then b else c.detected j }

-- crying and sound are no visual detections.
unfoldable pub is_visual : OtherKind → Bool
is_visual kind = not (kind == crying) && not (kind == sound)

unfoldable pub refresh_for : OtherKind → Camera → Camera
unfolding is_visual aggregate_motion
refresh_for kind c = record c {
  motion_detected = (if is_visual kind then aggregate_motion c else c.motion_detected);
}

unfoldable pub record_detection : String → OtherKind → Bool → ℕ → String → ℕ → Gateway → Outcome
unfolding with_camera set_detected refresh_for schedule plain_detection emit_camera
record_detection serial kind detected at id now g = with_camera serial g (λ found.
    let c : Camera = refresh_for kind (set_detected kind detected found) in
    let key : TimerKey = record { serial = serial; kind = kind } in
    let timed : Gateway = record g {
      detection_timers = schedule key detected (now + g.hold) g.detection_timers;
    } in
    let d : Detection = plain_detection id (other kind) at in
    if detected
    then emit_camera serial (record c { last_detection = some d }) (detection serial d ∷ []) timed
    else emit_camera serial c [] timed)

-- A press without a source and without a name does not replace a recognised detection.
unfoldable pub keeps_recognized : Option String → Detection → Option Detection → Bool
keeps_recognized event_identity d none = false
keeps_recognized event_identity d (some last) =
    not (is_some event_identity) && not (is_some d.person_name) && last.recognized

unfoldable pub own_press : Detection → Option String → Camera → Camera
unfolding keeps_recognized
own_press d event_identity c = record c {
  doorbell_event_identity = event_identity;
  last_detection =
      (if keeps_recognized event_identity d c.last_detection then c.last_detection else some d);
}

unfoldable pub record_doorbell :
    String → Bool → ℕ → Option Text → Option String → String → ℕ → Gateway → Outcome
unfolding with_camera schedule named_detection own_press emit_camera normalize_person_name
record_doorbell serial pressed at name event_identity id now g = with_camera serial g (λ found.
    let c : Camera = record found { doorbell_pressed = pressed } in
    let timed : Gateway = record g {
      doorbell_timers = schedule serial pressed (now + g.hold) g.doorbell_timers;
    } in
    let d : Detection = named_detection id doorbell at (normalize_person_name name) in
    if not found.identity.doorbell_supported
    then (g, [])
    else if pressed
    then emit_camera serial (own_press d event_identity c) (detection serial d ∷ []) timed
    else emit_camera serial c [] timed)
