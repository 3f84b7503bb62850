-- ===== src/Domain/Gateway/Doorbell.antt =====
-- The clear timer of a button press, when the camera has lost its doorbell meanwhile.
use Prim.Native.String.{String}
use eufy_mega_security.Prelude.{
  Eq_String, ℕ, ◌≤◌, Bool, true, false, not, Option, none, some, List, [], ◌≡◌, refl, ap, ◌∙◌,
  if◌then◌else◌, le→leb,
}
use eufy_mega_security.Prelude.JsMap.{get, remove, Distinct, get-remove_self}
use eufy_mega_security.Domain.Gateway.{Camera, Gateway, Event}
use eufy_mega_security.Domain.Gateway.Cameras.{record_doorbell}
use eufy_mega_security.Domain.Gateway.Enrichment.{with_camera-some}
use eufy_mega_security.Domain.Gateway.Calls.{is_due, elapse_doorbell}

is_due-some :
    (o : Option ℕ) (deadline now : ℕ) → o ≡ some deadline → deadline ≤ now → is_due o now ≡ true
unfolding is_due
is_due-some o deadline now e h = rw (e, le→leb deadline now h) refl

pick-first : (b : Bool) (x y : Gateway × List Event) → b ≡ false → (if not b then x else y) ≡ x
pick-first b x y e = rw e refl

record_doorbell-ignored :
    (serial id : String) (pressed : Bool) (at now : ℕ) (g : Gateway) (c : Camera)
    → get serial g.cameras ≡ some c
    → c.identity.doorbell_supported ≡ false
    → record_doorbell serial pressed at none none id now g ≡ some (g, [])
unfolding record_doorbell
record_doorbell-ignored serial id pressed at now g c e h =
    with_camera-some serial g _ c e ∙ ap some (pick-first c.identity.doorbell_supported _ _ h)

-- When the camera was registered again without a doorbell after a press, the callback of its clear timer
-- leaves the camera as it is, the raised flag of the press included, publishes nothing, and no timer is
-- left to clear the flag.
pub elapse_doorbell_unsupported :
    (serial id : String) (now deadline : ℕ) (g : Gateway) (c : Camera)
    → get serial g.cameras ≡ some c
    → c.identity.doorbell_supported ≡ false
    → Distinct g.doorbell_timers
    → get serial g.doorbell_timers ≡ some deadline
    → deadline ≤ now
    → (after : Gateway) × ((elapse_doorbell serial id now g ≡ some (after, []))
        × ((get serial after.cameras ≡ some c) × (get serial after.doorbell_timers ≡ none)))
unfolding elapse_doorbell
elapse_doorbell_unsupported serial id now deadline g c e unsupported distinct timer due = (
  record g { doorbell_timers = remove serial g.doorbell_timers },
  (
    (rw (is_due-some (get serial g.doorbell_timers) deadline now timer due) (
        record_doorbell-ignored serial id false now now
          (record g { doorbell_timers = remove serial g.doorbell_timers }) c e unsupported)),
    (e, get-remove_self serial g.doorbell_timers distinct),
  ),
)
