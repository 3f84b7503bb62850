-- ===== src/Domain/Locks/Runs.antt =====
-- A locked door whose settings are older than six minutes.
use eufy_mega_security.Prelude.{
  Eq_String, true, false, ◌==◌, none, some, [], ◌∷◌, ◌≡◌, ◌⊎◌, any, refl,
}
use eufy_mega_security.Domain.Locks.{
  at, locked, unknown, SmartLockSettings, SmartLockState, mask_smart_lock_state, replace_locks,
  has_lock,
}
use eufy_mega_security.Domain.Locks.Masking.{
  mask_smart_lock_state-position, mask_smart_lock_state-groups, Recent, DeviceGroup,
  NotificationGroup, has_lock-replace_locks,
}

abbrev old_settings : SmartLockSettings
old_settings = record {
  volume = some 2;
  auto_lock = some true;
  auto_lock_delay_seconds = some 30;
  notifications = some true;
  locked_notifications = none;
  unlocked_notifications = none;
  observed_at = some (at 1000);
  notifications_observed_at = some (at 400000);
}

abbrev door : SmartLockState
door = record {
  serial = "door";
  name = "Door";
  model = "T85F1";
  read_only = false;
  observation_source = none;
  state = locked;
  available = true;
  battery_percent = some 80;
  state_observed_at = some (at 300000);
  settings = some old_settings;
}

mask_smart_lock_state-position_example :
    (Recent 500000 door.state_observed_at
      × (((mask_smart_lock_state 500000 door).state ≡ door.state)
          × (((mask_smart_lock_state 500000 door).available ≡ door.available)
              × ((mask_smart_lock_state 500000 door).battery_percent ≡ door.battery_percent))))
    ⊎ ((¬ Recent 500000 door.state_observed_at)
        × (((mask_smart_lock_state 500000 door).state ≡ unknown)
            × (((mask_smart_lock_state 500000 door).available ≡ false)
                × ((mask_smart_lock_state 500000 door).battery_percent ≡ none))))
mask_smart_lock_state-position_example = mask_smart_lock_state-position 500000 door

mask_smart_lock_state-groups_example :
    (y : SmartLockSettings) × (((mask_smart_lock_state 500000 door).settings ≡ some y)
      × (DeviceGroup 500000 old_settings y × NotificationGroup 500000 old_settings y))
mask_smart_lock_state-groups_example = mask_smart_lock_state-groups 500000 door old_settings refl

-- The device settings are hidden, and the fresh notifications are shown.
stale_settings :
    (mask_smart_lock_state 500000 door).settings
    ≡ some (record old_settings {
      volume = none;
      auto_lock = none;
      auto_lock_delay_seconds = none;
      observed_at = none;
    })
unfolding mask_smart_lock_state
stale_settings = refl

has_lock-replace_locks_example :
    has_lock "gate" (replace_locks (door ∷ []) [])
    ≡ any (λ (l : SmartLockState). "gate" == l.serial) (door ∷ [])
has_lock-replace_locks_example = has_lock-replace_locks "gate" (door ∷ []) []
