-- ===== src/Domain/Gateway/Holds/Steps.antt =====
-- The flags and the clear timers under each operation of GatewayState.
use Prim.Native.String.{String}
use eufy_mega_security.Prelude.{
  Eq_String, ℕ, ◌+◌, Bool, true, false, not, Option, none, some, List, ◌≡◌, ◌≢◌, refl, sym, ap,
  subst, ◌∙◌, if◌then◌else◌, is_some, beq-cases, ◌⊎◌, inl, inr,
}
use eufy_mega_security.Prelude.JsMap.{JsMap, get, put}
use eufy_mega_security.Domain.Kinds.{
  OtherKind, Apart, crying-Apart, sound-Apart, crying, sound, TimerKey, Eq_TimerKey, Eq_OtherKind,
}
use eufy_mega_security.Domain.Names.{Text}
use eufy_mega_security.Domain.Records.{CameraIdentity, Detection}
use eufy_mega_security.Domain.Gateway.{
  Camera, Gateway, Event, Outcome, aggregate_motion, refresh_aggregate_motion, emit_camera,
  schedule,
}
use eufy_mega_security.Domain.Gateway.Cameras.{
  on_found, with_camera, register_camera, registered, new_camera, rebind, record_motion,
  record_person, record_detection, record_doorbell, set_detected, refresh_for, is_visual,
  keep_motion, own_person, own_press,
}
use eufy_mega_security.Domain.Gateway.Holds.{
  HeldBy, HeldAt, Held, Agree, AgreeKeys, Agree-same, AgreeKeys-same, Agree-schedule,
  AgreeKeys-schedule, rebuilt, rebuilt-Held, key_of, key_of-kind_ne, get-schedule_self,
  get-schedule_ne,
}

unfoldable pub AllHeld : Outcome → Type 0
AllHeld none = Unit
AllHeld (some r) = Held r.0

on_found-AllHeld :
    (o : Option Camera) (body : Camera → Gateway × List Event)
    → ((c : Camera) → o ≡ some c → Held (body c).0)
    → AllHeld (on_found o body)
unfolding on_found AllHeld
on_found-AllHeld none body h = tt
on_found-AllHeld (some c) body h = h c refl

pub with_camera-AllHeld :
    (serial : String) (g : Gateway) (body : Camera → Gateway × List Event)
    → ((c : Camera) → get serial g.cameras ≡ some c → Held (body c).0)
    → AllHeld (with_camera serial g body)
unfolding with_camera
with_camera-AllHeld serial g body h = on_found-AllHeld (get serial g.cameras) body h

-- What the invariant says of a camera that is found.
pub found-HeldBy :
    (g : Gateway) (serial : String) (c : Camera)
    → Held g
    → get serial g.cameras ≡ some c
    → HeldBy
        (some c)
        (get serial g.motion_timers)
        (get serial g.person_timers)
        (λ k. get (key_of serial k) g.detection_timers)
unfolding Held HeldAt
found-HeldBy g serial c h e =
    subst
      (λ o.
        HeldBy o (get serial g.motion_timers) (get serial g.person_timers)
          (λ k. get (key_of serial k) g.detection_timers))
      e (h.1.1.1 serial)

-- A camera whose flags are those of the one it replaces.
pub same-Held :
    (g : Gateway) (serial : String) (c : Camera)
    → Held g
    → HeldBy
        (some c)
        (get serial g.motion_timers)
        (get serial g.person_timers)
        (λ k. get (key_of serial k) g.detection_timers)
    → Held (record g { cameras = put serial c g.cameras })
unfolding rebuilt Held
same-Held g serial c h own =
    rebuilt-Held g serial c g.motion_timers g.person_timers g.detection_timers h
      (Agree-same serial g.motion_timers h.0) (Agree-same serial g.person_timers h.1.0)
      (AgreeKeys-same serial g.detection_timers h.1.1.0) own

registered-HeldBy :
    (identity : CameraIdentity) (o : Option Camera) (m p : Option ℕ) (d : OtherKind → Option ℕ)
    → HeldBy o m p d
    → HeldBy (some (registered identity o)) m p d
unfolding HeldBy registered new_camera rebind
registered-HeldBy identity none m p d h =
    (refl, (sym (ap is_some h.0), (sym (ap is_some h.1.0), λ k. sym (ap is_some (h.1.1 k)))))
registered-HeldBy identity (some c) m p d h = h

pub register_camera-Held :
    (identity : CameraIdentity) (g : Gateway) → Held g → Held (register_camera identity g).0
unfolding register_camera Held HeldAt
register_camera-Held identity g h =
    same-Held g identity.serial (registered identity (get identity.serial g.cameras)) h (
      registered-HeldBy identity (get identity.serial g.cameras)
        (get identity.serial g.motion_timers) (get identity.serial g.person_timers)
        (λ k. get (key_of identity.serial k) g.detection_timers) (h.1.1.1 identity.serial))

module _ (serial : String) (at : ℕ) (id : String) (now : ℕ) (g : Gateway) where
  motion-own :
      (b : Bool) (c : Camera) (last : Option Detection) (m : JsMap String ℕ)
      → Held g
      → Agree serial g.motion_timers m
      → get serial g.cameras ≡ some c
      → Held (
          rebuilt g serial
            (record (refresh_aggregate_motion (record c { raw_motion_detected = b })) {
              last_detection = last;
            })
            (schedule serial b (now + g.hold) m)
            g.person_timers
            g.detection_timers)
  unfolding HeldBy Held Agree refresh_aggregate_motion
  motion-own b c last m h a e =
      let own = found-HeldBy g serial c h e in
      rebuilt-Held g serial _ (schedule serial b (now + g.hold) m) g.person_timers
        g.detection_timers h (Agree-schedule serial b (now + g.hold) g.motion_timers m a)
        (Agree-same serial g.person_timers h.1.0) (AgreeKeys-same serial g.detection_timers h.1.1.0)
        (refl, (sym (get-schedule_self serial b (now + g.hold) m a.0), (own.1.1.0, own.1.1.1)))

  -- The timers may have lost the entry of the serial, which a callback deletes first.
  pub record_motion-AllHeld :
      (b : Bool) (m : JsMap String ℕ)
      → Held g
      → Agree serial g.motion_timers m
      → AllHeld (record_motion serial b at id now (record g { motion_timers = m }))
  unfolding record_motion keep_motion emit_camera rebuilt
  record_motion-AllHeld true m h a =
      with_camera-AllHeld serial (record g { motion_timers = m }) _
        (λ c e. motion-own true c _ m h a e)
  record_motion-AllHeld false m h a =
      with_camera-AllHeld serial (record g { motion_timers = m }) _
        (λ c e. motion-own false c _ m h a e)

module _ (serial : String) (name : Option Text) (at : ℕ) (source : Option String) (id : String)
    (now : ℕ) (g : Gateway) where
  person-own :
      (b : Bool) (c : Camera) (last : Option Detection) (owner : Option String) (p : JsMap String ℕ)
      → Held g
      → Agree serial g.person_timers p
      → get serial g.cameras ≡ some c
      → Held (
          rebuilt g serial
            (record (refresh_aggregate_motion (record c { person_detected = b })) {
              person_event_identity = owner;
              last_detection = last;
            })
            g.motion_timers
            (schedule serial b (now + g.hold) p)
            g.detection_timers)
  unfolding HeldBy Held Agree refresh_aggregate_motion
  person-own b c last owner p h a e =
      let own = found-HeldBy g serial c h e in
      rebuilt-Held g serial _ g.motion_timers (schedule serial b (now + g.hold) p)
        g.detection_timers h (Agree-same serial g.motion_timers h.0)
        (Agree-schedule serial b (now + g.hold) g.person_timers p a)
        (AgreeKeys-same serial g.detection_timers h.1.1.0)
        (refl, (own.1.0, (sym (get-schedule_self serial b (now + g.hold) p a.0), own.1.1.1)))

  pub record_person-AllHeld :
      (b : Bool) (p : JsMap String ℕ)
      → Held g
      → Agree serial g.person_timers p
      → AllHeld (record_person serial b name at source id now (record g { person_timers = p }))
  unfolding record_person own_person emit_camera rebuilt
  record_person-AllHeld true p h a =
      with_camera-AllHeld serial (record g { person_timers = p }) _
        (λ c e. person-own true c _ _ p h a e)
  record_person-AllHeld false p h a =
      with_camera-AllHeld serial (record g { person_timers = p }) _
        (λ c e. person-own false c _ _ p h a e)

  both-Held :
      (b : Bool) (x y : Gateway × List Event) → Held x.0 → Held y.0 → Held (if b then x else y).0
  both-Held true x y hx hy = hx
  both-Held false x y hx hy = hy

  -- A press moves no flag that a motion, a person or another kind holds.
  pub record_doorbell-AllHeld :
      (b : Bool) (d : JsMap String ℕ)
      → Held g
      → AllHeld (record_doorbell serial b at name source id now (record g { doorbell_timers = d }))
  unfolding record_doorbell own_press emit_camera Held HeldBy HeldAt
  record_doorbell-AllHeld true d h =
      with_camera-AllHeld serial (record g { doorbell_timers = d }) _
        (λ c e.
          both-Held (not c.identity.doorbell_supported) _ _ h
            (same-Held g serial _ h (found-HeldBy g serial c h e)))
  record_doorbell-AllHeld false d h =
      with_camera-AllHeld serial (record g { doorbell_timers = d }) _
        (λ c e.
          both-Held (not c.identity.doorbell_supported) _ _ h
            (same-Held g serial _ h (found-HeldBy g serial c h e)))

Apart-cases : (k : OtherKind) → Apart k ⊎ (is_visual k ≡ true)
unfolding is_visual
Apart-cases k = elim (beq-cases k crying) [
  | inl same ↦ inl (subst Apart (sym same.1) crying-Apart)
  | inr loud ↦ elim (beq-cases k sound) [
    | inl same ↦ inl (subst Apart (sym same.1) sound-Apart)
    | inr other ↦ inr (rw (loud.0, other.0) refl)
  ]
]

aggregate-Apart :
    (j : OtherKind) (b : Bool) (c : Camera)
    → Apart j
    → aggregate_motion (set_detected j b c) ≡ aggregate_motion c
unfolding aggregate_motion set_detected
aggregate-Apart j b c a =
    rw (a.0, a.1.0, a.1.1.0, a.1.1.1.0, a.1.1.1.1.0, a.1.1.1.1.1.0, a.1.1.1.1.1.1) refl

pick-same : (b x y : Bool) → x ≡ y → y ≡ (if b then y else x)
pick-same true x y e = refl
pick-same false x y e = sym e

refresh_for-aggregate :
    (k : OtherKind) (b : Bool) (c : Camera)
    → c.motion_detected ≡ aggregate_motion c
    → (if is_visual k then aggregate_motion (set_detected k b c) else c.motion_detected)
      ≡ aggregate_motion (set_detected k b c)
refresh_for-aggregate k b c h = elim (Apart-cases k) [
  | inl a ↦ sym (
      pick-same (is_visual k) c.motion_detected (aggregate_motion (set_detected k b c))
        (h ∙ sym (aggregate-Apart k b c a)))
  | inr visual ↦ rw visual refl
]

module _ (serial : String) (kind : OtherKind) (at : ℕ) (id : String) (now : ℕ) (g : Gateway) where
  detected-own :
      (b : Bool) (c : Camera) (d : JsMap TimerKey ℕ) (j : OtherKind)
      → AgreeKeys serial g.detection_timers d
      → ((i : OtherKind)
          → i ≢ kind
          → get (key_of serial i) d ≡ get (key_of serial i) g.detection_timers)
      → c.detected j ≡ is_some (get (key_of serial j) g.detection_timers)
      → (set_detected kind b c).detected j
        ≡ is_some (get (key_of serial j) (schedule (key_of serial kind) b (now + g.hold) d))
  unfolding set_detected AgreeKeys
  detected-own b c d j a rest h = elim (beq-cases j kind) [
    | inl same ↦
        rw (same.0, same.1) (sym (get-schedule_self (key_of serial kind) b (now + g.hold) d a.0))
    | inr other ↦ rw other.0 (
        h
        ∙ ap is_some (
            sym (
              get-schedule_ne (key_of serial j) (key_of serial kind) b (now + g.hold) d
                (key_of-kind_ne serial j kind other.1)
              ∙ rest j other.1)))
  ]

  detection-own :
      (b : Bool) (c : Camera) (last : Option Detection) (d : JsMap TimerKey ℕ)
      → Held g
      → AgreeKeys serial g.detection_timers d
      → ((i : OtherKind)
          → i ≢ kind
          → get (key_of serial i) d ≡ get (key_of serial i) g.detection_timers)
      → get serial g.cameras ≡ some c
      → Held (
          rebuilt g serial
            (record (refresh_for kind (set_detected kind b c)) { last_detection = last })
            g.motion_timers
            g.person_timers
            (schedule (key_of serial kind) b (now + g.hold) d))
  unfolding HeldBy Held AgreeKeys refresh_for rebuilt set_detected
  detection-own b c last d h a rest e =
      let own = found-HeldBy g serial c h e in
      rebuilt-Held g serial _ g.motion_timers g.person_timers
        (schedule (key_of serial kind) b (now + g.hold) d) h (Agree-same serial g.motion_timers h.0)
        (Agree-same serial g.person_timers h.1.0)
        (AgreeKeys-schedule serial kind b (now + g.hold) g.detection_timers d a)
        (
          refresh_for-aggregate kind b c own.0,
          (own.1.0, (own.1.1.0, λ j. detected-own b c d j a rest (own.1.1.1 j))),
        )

  pub record_detection-AllHeld :
      (b : Bool) (d : JsMap TimerKey ℕ)
      → Held g
      → AgreeKeys serial g.detection_timers d
      → ((i : OtherKind)
          → i ≢ kind
          → get (key_of serial i) d ≡ get (key_of serial i) g.detection_timers)
      → AllHeld (record_detection serial kind b at id now (record g { detection_timers = d }))
  unfolding record_detection emit_camera rebuilt key_of
  record_detection-AllHeld true d h a rest =
      with_camera-AllHeld serial (record g { detection_timers = d }) _
        (λ c e. detection-own true c _ d h a rest e)
  record_detection-AllHeld false d h a rest =
      with_camera-AllHeld serial (record g { detection_timers = d }) _
        (λ c e. detection-own false c _ d h a rest e)
