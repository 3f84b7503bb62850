-- ===== src/Domain/Gateway/Updates.antt =====
-- The rest of GatewayState on a camera: the later name, the images, the stream and the connection.
use Prim.Native.String.{String}
use eufy_mega_security.Prelude.{
  Eq_String, ℕ, Bool, true, false, not, ◌||◌, ◌==◌, Option, none, some, List, [], ◌∷◌,
  if◌then◌else◌,
}
use eufy_mega_security.Domain.Kinds.{
  DetectionKind, motion, person, doorbell, other, Eq_TimerKey, Eq_OtherKind,
}
use eufy_mega_security.Domain.Names.{Text, normalize_person_name}
use eufy_mega_security.Domain.Records.{Detection, SnapshotInfo, StreamState, ConnectionState}
use eufy_mega_security.Domain.Gateway.{Camera, Gateway, Event, Outcome, emit_camera}
use eufy_mega_security.Domain.Gateway.Cameras.{with_camera}
use eufy_mega_security.Domain.Gateway.Event.{
  snapshot_updated, event_image_updated, connection_updated,
}

unfoldable pub owner_of : DetectionKind → Camera → Option String
owner_of person c = c.person_event_identity
owner_of doorbell c = c.doorbell_event_identity
owner_of _ c = none

unfoldable pub same_kind : DetectionKind → DetectionKind → Bool
same_kind motion motion = true
same_kind person person = true
same_kind doorbell doorbell = true
same_kind (other k) (other j) = k == j
same_kind _ _ = false

unfoldable pub owned : String → Option String → Bool
owned event_identity none = false
owned event_identity (some owner) = owner == event_identity

-- The detection that a name may still join: of this kind, unnamed, and owned by the identity.
unfoldable pub admits : String → Option String → DetectionKind → Option Detection → Option Detection
unfolding owned same_kind
admits event_identity owner kind none = none
admits event_identity owner kind (some previous) =
    if (event_identity == "")
      || not (owned event_identity owner)
      || not (same_kind previous.kind kind)
      || previous.recognized
    then none
    else some previous

unfoldable pub enrichable : String → DetectionKind → Camera → Option Detection
unfolding owner_of admits
enrichable event_identity kind c = admits event_identity (owner_of kind c) kind c.last_detection

unfoldable pub named : Text → Detection → Detection
named name d = record d { person_name = some name; recognized = true }

-- Both a usable name and a detection that may take it.
unfoldable pub join_name :
    String → Camera → Gateway → Option Text → Option Detection → Gateway × List Event
unfolding named emit_camera
join_name serial c g none previous = (g, [])
join_name serial c g (some name) none = (g, [])
join_name serial c g (some name) (some previous) =
    emit_camera serial (record c { last_detection = some (named name previous) }) [] g

unfoldable pub enrich_name : String → String → Text → DetectionKind → Gateway → Outcome
unfolding with_camera enrichable normalize_person_name join_name
enrich_name serial event_identity name kind g = with_camera serial g (λ c.
    join_name serial c g (normalize_person_name (some name)) (enrichable event_identity kind c))

unfoldable pub enrich_person_name : String → String → Text → Gateway → Outcome
unfolding enrich_name
enrich_person_name serial event_identity name g = enrich_name serial event_identity name person g

unfoldable pub enrich_doorbell_name : String → String → Text → Gateway → Outcome
unfolding enrich_name
enrich_doorbell_name serial event_identity name g =
    enrich_name serial event_identity name doorbell g

unfoldable pub restore_snapshot : String → SnapshotInfo → Gateway → Outcome
unfolding with_camera emit_camera
restore_snapshot serial info g =
    with_camera serial g (λ c. emit_camera serial (record c { snapshot = some info }) [] g)

unfoldable pub restore_event_image : String → SnapshotInfo → Gateway → Outcome
unfolding with_camera emit_camera
restore_event_image serial info g =
    with_camera serial g (λ c. emit_camera serial (record c { event_image = some info }) [] g)

unfoldable pub update_snapshot : String → SnapshotInfo → Gateway → Outcome
unfolding with_camera emit_camera
update_snapshot serial info g = with_camera serial g (λ c.
    emit_camera serial (record c { snapshot = some info }) (snapshot_updated serial info ∷ []) g)

unfoldable pub update_event_image : String → SnapshotInfo → Gateway → Outcome
unfolding with_camera emit_camera
update_event_image serial info g = with_camera serial g (λ c.
    emit_camera serial (record c { event_image = some info }) (event_image_updated serial info ∷ [])
      g)

-- The start is kept while the stream runs, and dropped when it ends.
unfoldable pub stream_start : StreamState → ℕ → Option ℕ → Option ℕ
stream_start StreamState.streaming now none = some now
stream_start StreamState.streaming now (some at) = some at
stream_start StreamState.idle now at = none
stream_start StreamState.error now at = none
stream_start _ now at = at

unfoldable pub update_stream : String → StreamState → ℕ → Option String → ℕ → Gateway → Outcome
unfolding with_camera stream_start emit_camera
update_stream serial state viewers error now g = with_camera serial g (λ c.
    emit_camera serial
      (record c {
        stream_state = state;
        stream_viewers = viewers;
        stream_last_error = error;
        stream_started_at = stream_start state now c.stream_started_at;
      })
      [] g)

unfoldable pub update_connection : ConnectionState → Option String → Gateway → Gateway × List Event
update_connection state detail g = (
  record g { connection_state = state; connection_detail = detail },
  connection_updated state detail ∷ [],
)

-- The clear timers of the cameras are cancelled.
unfoldable pub close : Gateway → Gateway
close g = record g {
  motion_timers = [];
  person_timers = [];
  doorbell_timers = [];
  detection_timers = [];
}
