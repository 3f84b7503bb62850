-- ===== src/Domain/Gateway/Calls.antt =====
-- What can happen to a GatewayState before it is closed, one after another: the calls of its methods
-- on a camera, and the callbacks of its clear timers. JavaScript runs each to its end before the next.
use Prim.Native.String.{String}
use eufy_mega_security.Prelude.{
  Eq_String, ℕ, Bool, false, Option, none, some, List, [], ◌∷◌, ◌++◌, if◌then◌else◌, leb,
}
use eufy_mega_security.Prelude.JsMap.{get, remove}
use eufy_mega_security.Domain.Kinds.{OtherKind, TimerKey, Eq_TimerKey}
use eufy_mega_security.Domain.Names.{Text}
use eufy_mega_security.Domain.Records.{CameraIdentity, SnapshotInfo, StreamState, ConnectionState}
use eufy_mega_security.Domain.Gateway.{Gateway, Event, Outcome}
use eufy_mega_security.Domain.Gateway.Cameras.{
  register_camera, record_motion, record_person, record_detection, record_doorbell,
}
use eufy_mega_security.Domain.Gateway.Updates.{
  enrich_person_name, enrich_doorbell_name, restore_snapshot, restore_event_image, update_snapshot,
  update_event_image, update_stream, update_connection,
}

pub data Call : Type 0 where
  register : CameraIdentity → Call
  motion : String → Bool → ℕ → Call
  person : String → Bool → Option Text → ℕ → Option String → Call
  detect : String → OtherKind → Bool → ℕ → Call
  doorbell : String → Bool → ℕ → Option Text → Option String → Call
  person_name doorbell_name : String → String → Text → Call
  snapshot_restored image_restored snapshot_new image_new : String → SnapshotInfo → Call
  stream : String → StreamState → ℕ → Option String → Call
  connection : ConnectionState → Option String → Call
  motion_elapsed person_elapsed doorbell_elapsed : String → Call
  detection_elapsed : String → OtherKind → Call

-- A callback runs when its timer is set and its deadline has come.
unfoldable pub is_due : Option ℕ → ℕ → Bool
is_due none now = false
is_due (some deadline) now = leb deadline now

unfoldable pub elapse_motion : String → String → ℕ → Gateway → Outcome
unfolding is_due record_motion
elapse_motion serial id now g =
    if is_due (get serial g.motion_timers) now
    then record_motion serial false now id now
        (record g { motion_timers = remove serial g.motion_timers })
    else some (g, [])

unfoldable pub elapse_person : String → String → ℕ → Gateway → Outcome
unfolding is_due record_person
elapse_person serial id now g =
    if is_due (get serial g.person_timers) now
    then record_person serial false none now none id now
        (record g { person_timers = remove serial g.person_timers })
    else some (g, [])

unfoldable pub elapse_doorbell : String → String → ℕ → Gateway → Outcome
unfolding is_due record_doorbell
elapse_doorbell serial id now g =
    if is_due (get serial g.doorbell_timers) now
    then record_doorbell serial false now none none id now
        (record g { doorbell_timers = remove serial g.doorbell_timers })
    else some (g, [])

unfoldable pub elapse_detection : TimerKey → String → ℕ → Gateway → Outcome
unfolding is_due record_detection
elapse_detection key id now g =
    if is_due (get key g.detection_timers) now
    then record_detection key.serial key.kind false now id now
        (record g { detection_timers = remove key g.detection_timers })
    else some (g, [])

-- One call, with the identifier that randomUUID makes for it and the clock's reading.
unfoldable pub perform : Call → String → ℕ → Gateway → Outcome
unfolding register_camera record_motion record_person record_detection record_doorbell
    enrich_person_name enrich_doorbell_name restore_snapshot restore_event_image update_snapshot
    update_event_image update_stream update_connection elapse_motion elapse_person elapse_doorbell
    elapse_detection
perform (register identity) id now g = some (register_camera identity g)
perform (motion serial detected at) id now g = record_motion serial detected at id now g
perform (person serial detected name at source) id now g =
    record_person serial detected name at source id now g
perform (detect serial kind detected at) id now g =
    record_detection serial kind detected at id now g
perform (doorbell serial pressed at name source) id now g =
    record_doorbell serial pressed at name source id now g
perform (person_name serial source name) id now g = enrich_person_name serial source name g
perform (doorbell_name serial source name) id now g = enrich_doorbell_name serial source name g
perform (snapshot_restored serial info) id now g = restore_snapshot serial info g
perform (image_restored serial info) id now g = restore_event_image serial info g
perform (snapshot_new serial info) id now g = update_snapshot serial info g
perform (image_new serial info) id now g = update_event_image serial info g
perform (stream serial state viewers error) id now g =
    update_stream serial state viewers error now g
perform (connection state detail) id now g = some (update_connection state detail g)
perform (motion_elapsed serial) id now g = elapse_motion serial id now g
perform (person_elapsed serial) id now g = elapse_person serial id now g
perform (doorbell_elapsed serial) id now g = elapse_doorbell serial id now g
perform (detection_elapsed serial kind) id now g =
    elapse_detection (record { serial = serial; kind = kind }) id now g

pub record Moment : Type 0 where
  pub call : Call
  pub id : String
  pub now : ℕ

-- A call that throws leaves the state: each of them looks its camera up before it changes anything.
unfoldable pub settle : Gateway → Outcome → Gateway × List Event
settle g none = (g, [])
settle g (some result) = result

unfoldable pub step : Moment → Gateway → Gateway × List Event
unfolding perform settle
step m g = settle g (perform m.call m.id m.now g)

unfoldable pub run : List Moment → Gateway → Gateway × List Event
unfolding step
run [] g = (g, [])
run (m ∷ moments) g =
    let first = step m g in let rest = run moments first.0 in (rest.0, first.1 ++ rest.1)
