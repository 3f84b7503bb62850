-- ===== src/Push/Deduplicator.antt =====
-- PushEventDeduplicator of provider/push-event-deduplicator.ts. Time is the argument `now`, in
-- milliseconds; the event type stands as the text that the key template prints for it.
pub mod Window
mod Runs
use Prim.Native.String.{String, ◌++◌}
use eufy_mega_security.Prelude.{
  Eq_String, ℕ, ◌-◌, ◌==◌, Bool, true, false, not, ◌&&◌, ◌||◌, Option, none, some, [], ◌∷◌, ltb,
  if◌then◌else◌, is_some,
}
use eufy_mega_security.Prelude.JsMap.{JsMap, get, put}

pub record Observation : Type 0 where
  pub observed_at : ℕ
  pub picture_seen : Bool

pub record Decision : Type 0 where
  pub handle_state : Bool
  pub retain_picture : Bool

abbrev pub Recent : Type 0
Recent = JsMap String Observation

-- The loop that deletes what is older than the window. A time before `observed_at` is not older.
pub expire : ℕ → ℕ → Recent → Recent
expire window now [] = []
expire window now ((key, o) ∷ m) =
    let rest = expire window now m in
    if ltb window (now - o.observed_at) then rest else (key, o) ∷ rest

pub record Delivery : Type 0 where
  pub camera_serial : String
  pub event_id : Option String
  pub event_type : String
  pub has_picture : Bool
  pub now : ℕ

-- `!eventId` holds of null and of the empty text.
pub identity : Option String → Option String
identity none = none
identity (some id) = if id == "" then none else some id

pub key_of : String → String → String → String
key_of camera id kind = camera ++ ":" ++ id ++ ":" ++ kind

pub was_seen : Option Observation → Bool
was_seen none = false
was_seen (some o) = o.picture_seen

-- The part of `observe` behind the check of the identity.
pub classify : ℕ → String → Bool → ℕ → Recent → Recent × Decision
unfolding expire was_seen
classify window key has_picture now m =
    let live = expire window now m in
    let previous = get key live in
    (
      put key (record { observed_at = now; picture_seen = has_picture || was_seen previous }) live,
      record {
        handle_state = not (is_some previous);
        retain_picture = has_picture && not (was_seen previous);
      },
    )

pub observe : ℕ → Delivery → Recent → Recent × Decision
unfolding identity classify key_of
observe window d m = elim (identity d.event_id) [
  | none ↦ (m, record { handle_state = true; retain_picture = d.has_picture })
  | some id ↦ classify window (key_of d.camera_serial id d.event_type) d.has_picture d.now m
]
