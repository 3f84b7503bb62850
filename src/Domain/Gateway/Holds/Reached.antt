-- ===== src/Domain/Gateway/Holds/Reached.antt =====
-- The states that a new GatewayState reaches.
use Prim.Native.String.{String}
use eufy_mega_security.Prelude.{
  Eq_String, ℕ, Bool, true, false, Option, none, some, List, [], ◌∷◌, ◌≡◌, refl, if◌then◌else◌,
  is_some,
}
use eufy_mega_security.Prelude.JsMap.{get, remove, get-remove_ne}
use eufy_mega_security.Domain.Kinds.{OtherKind, Eq_TimerKey}
use eufy_mega_security.Domain.Names.{Text}
use eufy_mega_security.Domain.Records.{Detection}
use eufy_mega_security.Domain.Gateway.{
  Camera, Gateway, Outcome, initial, emit_camera, aggregate_motion,
}
use eufy_mega_security.Domain.Gateway.Updates.{
  join_name, enrich_name, enrich_person_name, enrich_doorbell_name, restore_snapshot,
  restore_event_image, update_snapshot, update_event_image, update_stream, update_connection,
}
use eufy_mega_security.Domain.Gateway.Calls.{
  Call, elapse_motion, elapse_person, elapse_doorbell, elapse_detection, is_due, perform, Moment,
  settle, step, run,
}
use eufy_mega_security.Domain.Gateway.Calls.Call.{
  register, motion, person, detect, doorbell, person_name, doorbell_name, snapshot_restored,
  image_restored, snapshot_new, image_new, stream, connection, motion_elapsed, person_elapsed,
  doorbell_elapsed, detection_elapsed,
}
use eufy_mega_security.Domain.Gateway.Holds.{
  HeldBy, HeldAt, Held, Agree-same, AgreeKeys-same, Agree-remove, AgreeKeys-remove, key_of,
  key_of-kind_ne,
}
use eufy_mega_security.Domain.Gateway.Holds.Steps.{
  AllHeld, with_camera-AllHeld, found-HeldBy, same-Held, register_camera-Held,
  record_motion-AllHeld, record_person-AllHeld, record_doorbell-AllHeld, record_detection-AllHeld,
}

initial-Held : (hold : ℕ) → Held (initial hold)
unfolding Held HeldAt HeldBy initial
initial-Held hold = (tt, (tt, (tt, λ serial. (refl, (refl, λ k. refl)))))

if-AllHeld : (b : Bool) (x y : Outcome) → AllHeld x → AllHeld y → AllHeld (if b then x else y)
if-AllHeld true x y hx hy = hx
if-AllHeld false x y hx hy = hy

module _ (id : String) (now : ℕ) (g : Gateway) (h : Held g) where
  elapse_motion-AllHeld : (serial : String) → AllHeld (elapse_motion serial id now g)
  unfolding elapse_motion Held AllHeld
  elapse_motion-AllHeld serial =
      if-AllHeld (is_due (get serial g.motion_timers) now) _ _
        (record_motion-AllHeld serial now id now g false (remove serial g.motion_timers) h
          (Agree-remove serial g.motion_timers h.0))
        h

  elapse_person-AllHeld : (serial : String) → AllHeld (elapse_person serial id now g)
  unfolding elapse_person Held AllHeld
  elapse_person-AllHeld serial =
      if-AllHeld (is_due (get serial g.person_timers) now) _ _
        (record_person-AllHeld serial none now none id now g false (remove serial g.person_timers) h
          (Agree-remove serial g.person_timers h.1.0))
        h

  elapse_doorbell-AllHeld : (serial : String) → AllHeld (elapse_doorbell serial id now g)
  unfolding elapse_doorbell AllHeld
  elapse_doorbell-AllHeld serial =
      if-AllHeld (is_due (get serial g.doorbell_timers) now) _ _
        (record_doorbell-AllHeld serial none now none id now g false
          (remove serial g.doorbell_timers) h)
        h

  elapse_detection-AllHeld :
      (serial : String) (kind : OtherKind)
      → AllHeld (elapse_detection (key_of serial kind) id now g)
  unfolding elapse_detection Held AllHeld key_of
  elapse_detection-AllHeld serial kind =
      if-AllHeld (is_due (get (key_of serial kind) g.detection_timers) now) _ _
        (record_detection-AllHeld serial kind now id now g false
          (remove (key_of serial kind) g.detection_timers) h
          (AgreeKeys-remove serial kind g.detection_timers h.1.1.0)
          (λ i ne.
            get-remove_ne (key_of serial i) (key_of serial kind) g.detection_timers
              (key_of-kind_ne serial i kind ne)))
        h

  join_name-Held :
      (serial : String) (c : Camera) (name : Option Text) (previous : Option Detection)
      → get serial g.cameras ≡ some c
      → Held (join_name serial c g name previous).0
  unfolding join_name emit_camera Held HeldBy
  join_name-Held serial c none previous e = h
  join_name-Held serial c (some name) none e = h
  join_name-Held serial c (some name) (some previous) e =
      same-Held g serial _ h (found-HeldBy g serial c h e)

  perform-AllHeld : (call : Call) → AllHeld (perform call id now g)
  unfolding perform AllHeld Held HeldBy enrich_name enrich_person_name enrich_doorbell_name
      restore_snapshot restore_event_image update_snapshot update_event_image update_stream
      update_connection emit_camera key_of
  perform-AllHeld (register identity) = register_camera-Held identity g h
  perform-AllHeld (motion serial b at) =
      record_motion-AllHeld serial at id now g b g.motion_timers h
        (Agree-same serial g.motion_timers h.0)
  perform-AllHeld (person serial b name at source) =
      record_person-AllHeld serial name at source id now g b g.person_timers h
        (Agree-same serial g.person_timers h.1.0)
  perform-AllHeld (detect serial kind b at) =
      record_detection-AllHeld serial kind at id now g b g.detection_timers h
        (AgreeKeys-same serial g.detection_timers h.1.1.0) (λ i ne. refl)
  perform-AllHeld (doorbell serial b at name source) =
      record_doorbell-AllHeld serial name at source id now g b g.doorbell_timers h
  perform-AllHeld (person_name serial source name) =
      with_camera-AllHeld serial g _ (λ c e. join_name-Held serial c _ _ e)
  perform-AllHeld (doorbell_name serial source name) =
      with_camera-AllHeld serial g _ (λ c e. join_name-Held serial c _ _ e)
  perform-AllHeld (snapshot_restored serial info) =
      with_camera-AllHeld serial g _ (λ c e. same-Held g serial _ h (found-HeldBy g serial c h e))
  perform-AllHeld (image_restored serial info) =
      with_camera-AllHeld serial g _ (λ c e. same-Held g serial _ h (found-HeldBy g serial c h e))
  perform-AllHeld (snapshot_new serial info) =
      with_camera-AllHeld serial g _ (λ c e. same-Held g serial _ h (found-HeldBy g serial c h e))
  perform-AllHeld (image_new serial info) =
      with_camera-AllHeld serial g _ (λ c e. same-Held g serial _ h (found-HeldBy g serial c h e))
  perform-AllHeld (stream serial state viewers error) =
      with_camera-AllHeld serial g _ (λ c e. same-Held g serial _ h (found-HeldBy g serial c h e))
  perform-AllHeld (connection state detail) = h
  perform-AllHeld (motion_elapsed serial) = elapse_motion-AllHeld serial
  perform-AllHeld (person_elapsed serial) = elapse_person-AllHeld serial
  perform-AllHeld (doorbell_elapsed serial) = elapse_doorbell-AllHeld serial
  perform-AllHeld (detection_elapsed serial kind) = elapse_detection-AllHeld serial kind

settle-Held : (g : Gateway) (o : Outcome) → Held g → AllHeld o → Held (settle g o).0
unfolding settle AllHeld
settle-Held g none h all = h
settle-Held g (some r) h all = all

run-Held_from : (moments : List Moment) (g : Gateway) → Held g → Held (run moments g).0
unfolding run step
run-Held_from [] g h = h
run-Held_from (m ∷ moments) g h =
    run-Held_from moments (step m g).0
      (settle-Held g (perform m.call m.id m.now g) h (perform-AllHeld m.id m.now g h m.call))

-- In every state that a new GatewayState reaches by calls other than `close` and by timer callbacks, in
-- any order and at any times, and for every registered camera: the general motion flag is up exactly
-- while one of the motion, person and visual detections is; the motion flag behind it is up exactly while
-- the motion timer of the camera is set, the person flag exactly while its person timer is, and each
-- other detection exactly while the timer of its kind is.
pub run-flags :
    (hold : ℕ) (moments : List Moment) (serial : String) (c : Camera)
    → get serial (run moments (initial hold)).0.cameras ≡ some c
    → (c.motion_detected ≡ aggregate_motion c)
      × ((c.raw_motion_detected ≡ is_some (get serial (run moments (initial hold)).0.motion_timers))
          × ((c.person_detected ≡ is_some (get serial (run moments (initial hold)).0.person_timers))
              × ((k : OtherKind)
                  → c.detected k
                    ≡ is_some (
                        get
                          (record { serial = serial; kind = k })
                          (run moments (initial hold)).0.detection_timers))))
unfolding HeldBy key_of
run-flags hold moments serial c e =
    found-HeldBy (run moments (initial hold)).0 serial c
      (run-Held_from moments (initial hold) (initial-Held hold)) e
