-- ===== src/Push/Deduplicator/Runs.antt =====
-- Deliveries of two events within a minute, and the theorems at concrete inputs.
use Prim.Native.String.{String}
use eufy_mega_security.Prelude.{
  Eq_String, ℕ, ◌-◌, ◌≤◌, ◌≡◌, refl, arith, Bool, true, false, some, List, [], ◌∷◌, All,
}
use eufy_mega_security.Push.Deduplicator.{Delivery, Recent, identity, key_of, observe}
use eufy_mega_security.Push.Deduplicator.Window.{
  handled, pictures, one_if, concerned, pictured, observe_once, observe_bounded,
}

abbrev delivery : String → Bool → ℕ → Delivery
delivery id has_picture now = record {
  camera_serial = "cam";
  event_id = some id;
  event_type = "3101";
  has_picture = has_picture;
  now = now;
}

abbrev deliveries : List Delivery
deliveries =
    delivery "e1" false 10
    ∷ delivery "e2" true 15
    ∷ delivery "e1" true 20
    ∷ delivery "e1" true 30
    ∷ []

handled_once : handled 60000 (key_of "cam" "e1" "3101") deliveries [] ≡ 1
unfolding observe
handled_once = refl

kept_once : pictures 60000 (key_of "cam" "e1" "3101") deliveries [] ≡ 1
unfolding observe
kept_once = refl

observe_once_example :
    (handled 60000 "cam:e1:3101" deliveries [] ≡ one_if (concerned "cam:e1:3101" deliveries))
    × (pictures 60000 "cam:e1:3101" deliveries [] ≡ one_if (pictured "cam:e1:3101" deliveries))
observe_once_example = observe_once 60000 10 "cam:e1:3101" deliveries (
  (omega arith, omega arith),
  ((omega arith, omega arith), ((omega arith, omega arith), ((omega arith, omega arith), tt))),
)

abbrev old_cache : Recent
old_cache = ("cam:e0:3101", record { observed_at = 5; picture_seen = false }) ∷ []

observe_bounded_example :
    All
      (λ e. 70000 - e.1.observed_at ≤ 60000)
      (observe 60000 (delivery "e1" true 70000) old_cache).0
observe_bounded_example =
    observe_bounded 60000 (delivery "e1" true 70000) "e1" old_cache (unfold identity in refl)
