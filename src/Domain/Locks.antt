-- ===== src/Domain/Locks.antt =====
-- Smart locks: maskSmartLockState of domain/types.ts, and the lock list of GatewayState. A stamp is the
-- time that Date.parse reads from it, or unreadable.
pub mod Masking
mod Runs
use Prim.Native.String.{String}
use eufy_mega_security.Prelude.{
  Eq_String, ℕ, ◌-◌, Bool, true, false, ◌&&◌, Option, none, some, List, [], ◌∷◌, map, leb,
}
use eufy_mega_security.Prelude.JsMap.{JsMap, has, put}

abbrev pub smart_lock_state_ttl_ms : ℕ
smart_lock_state_ttl_ms = 360000

pub data Stamp : Type 0 where
  unreadable : Stamp
  at : ℕ → Stamp

pub data LockPosition : Type 0 where
  locked unlocked unknown : LockPosition

pub record SmartLockSettings : Type 0 where
  pub volume : Option ℕ
  pub auto_lock : Option Bool
  pub auto_lock_delay_seconds : Option ℕ
  pub notifications : Option Bool
  pub locked_notifications : Option Bool
  pub unlocked_notifications : Option Bool
  pub observed_at : Option Stamp
  pub notifications_observed_at : Option Stamp

pub record SmartLockState : Type 0 where
  pub serial : String
  pub name : String
  pub model : String
  pub read_only : Bool
  pub observation_source : Option String
  pub state : LockPosition
  pub available : Bool
  pub battery_percent : Option ℕ
  pub state_observed_at : Option Stamp
  pub settings : Option SmartLockSettings

-- An age below zero is not fresh.
unfoldable pub is_fresh : ℕ → Option Stamp → Bool
is_fresh now none = false
is_fresh now (some unreadable) = false
is_fresh now (some (at t)) = leb t now && leb (now - t) smart_lock_state_ttl_ms

unfoldable pub mask_device : Bool → SmartLockSettings → SmartLockSettings
mask_device true s = s
mask_device false s = record s {
  volume = none;
  auto_lock = none;
  auto_lock_delay_seconds = none;
  observed_at = none;
}

unfoldable pub mask_notifications : Bool → SmartLockSettings → SmartLockSettings
mask_notifications true s = s
mask_notifications false s = record s {
  notifications = none;
  locked_notifications = none;
  unlocked_notifications = none;
  notifications_observed_at = none;
}

unfoldable pub mask_settings : ℕ → Option SmartLockSettings → Option SmartLockSettings
unfolding is_fresh mask_device mask_notifications
mask_settings now none = none
mask_settings now (some s) = some (
    mask_notifications (is_fresh now s.notifications_observed_at)
      (mask_device (is_fresh now s.observed_at) s))

unfoldable pub mask_position : Bool → SmartLockState → SmartLockState
mask_position true s = s
mask_position false s = record s { state = unknown; available = false; battery_percent = none }

unfoldable pub mask_smart_lock_state : ℕ → SmartLockState → SmartLockState
unfolding is_fresh mask_settings mask_position
mask_smart_lock_state now s =
    mask_position (is_fresh now s.state_observed_at)
      (record s { settings = mask_settings now s.settings })

abbrev pub Locks : Type 0
Locks = JsMap String SmartLockState

unfoldable pub set_locks : List SmartLockState → Locks → Locks
set_locks [] m = m
set_locks (l ∷ ls) m = set_locks ls (put l.serial l m)

-- The map is cleared first.
unfoldable pub replace_locks : List SmartLockState → Locks → Locks
unfolding set_locks
replace_locks ls m = set_locks ls []

unfoldable pub list_locks : ℕ → Locks → List SmartLockState
unfolding mask_smart_lock_state
list_locks now m = map (λ (e : String × SmartLockState). mask_smart_lock_state now e.1) m

unfoldable pub has_lock : String → Locks → Bool
has_lock serial m = has serial m
