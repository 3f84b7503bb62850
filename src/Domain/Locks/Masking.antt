-- ===== src/Domain/Locks/Masking.antt =====
-- What is shown of a lock, and which locks are known.
use Prim.Native.String.{String}
use eufy_mega_security.Prelude.{
  Eq_String, ℕ, ◌+◌, ◌≤◌, Bool, true, false, ◌||◌, ◌==◌, Option, none, some, List, [], ◌∷◌, ◌≡◌,
  refl, ap, ◌∙◌, ◌⊎◌, inl, inr, arith, any, Bool-cases, beq-cases,
}
use eufy_mega_security.Prelude.JsMap.{has, put, get-put_self, get-put_ne}
use eufy_mega_security.Domain.Locks.{
  Stamp, unreadable, at, unknown, SmartLockSettings, SmartLockState, is_fresh, mask_device,
  mask_notifications, mask_settings, mask_position, mask_smart_lock_state, Locks, set_locks,
  replace_locks, has_lock, smart_lock_state_ttl_ms,
}

-- Observed at most six minutes ago, and not in the future.
abbrev pub Recent : ℕ → Option Stamp → Type 0
Recent now o = (t : ℕ) × ((o ≡ some (at t)) × ((t ≤ now) × (now ≤ t + smart_lock_state_ttl_ms)))

is_fresh-Recent : (now : ℕ) (o : Option Stamp) → is_fresh now o ≡ true → Recent now o
unfolding is_fresh
is_fresh-Recent now none h = ground arith
is_fresh-Recent now (some unreadable) h = ground arith
is_fresh-Recent now (some (at t)) h = (t, (refl, (ground arith, ground arith)))

Recent-is_fresh : (now : ℕ) (o : Option Stamp) → Recent now o → is_fresh now o ≡ true
unfolding is_fresh
Recent-is_fresh now o (t, (e, (before, within))) = rw e (ground arith)

is_fresh-cases :
    (now : ℕ) (o : Option Stamp)
    → ((Recent now o × (is_fresh now o ≡ true)) ⊎ ((¬ Recent now o) × (is_fresh now o ≡ false)))
is_fresh-cases now o = elim (Bool-cases (is_fresh now o)) [
  | inl fresh ↦ inl (is_fresh-Recent now o fresh, fresh)
  | inr stale ↦ inr (λ r. absurd (let f = Recent-is_fresh now o r in cc), stale)
]

-- A lock's position, availability and battery are shown as they were observed when that was at most six
-- minutes ago and not in the future; otherwise the position is unknown, the lock
-- unavailable, and no battery is shown.
pub mask_smart_lock_state-position :
    (now : ℕ) (s : SmartLockState)
    → (Recent now s.state_observed_at
        × (((mask_smart_lock_state now s).state ≡ s.state)
            × (((mask_smart_lock_state now s).available ≡ s.available)
                × ((mask_smart_lock_state now s).battery_percent ≡ s.battery_percent))))
      ⊎ ((¬ Recent now s.state_observed_at)
          × (((mask_smart_lock_state now s).state ≡ unknown)
              × (((mask_smart_lock_state now s).available ≡ false)
                  × ((mask_smart_lock_state now s).battery_percent ≡ none))))
unfolding mask_smart_lock_state mask_position
mask_smart_lock_state-position now s = elim (is_fresh-cases now s.state_observed_at) [
  | inl (recent, fresh) ↦ inl (recent, (rw fresh refl, (rw fresh refl, rw fresh refl)))
  | inr (old, stale) ↦ inr (old, (rw stale refl, (rw stale refl, rw stale refl)))
]

-- What is shown of the settings `x` of the device as `y`, by the stamp of that group.
abbrev pub DeviceGroup : ℕ → SmartLockSettings → SmartLockSettings → Type 0
DeviceGroup now x y =
    (Recent now x.observed_at
      × ((y.volume ≡ x.volume)
          × ((y.auto_lock ≡ x.auto_lock)
              × ((y.auto_lock_delay_seconds ≡ x.auto_lock_delay_seconds)
                  × (y.observed_at ≡ x.observed_at)))))
    ⊎ ((¬ Recent now x.observed_at)
        × ((y.volume ≡ none)
            × ((y.auto_lock ≡ none)
                × ((y.auto_lock_delay_seconds ≡ none) × (y.observed_at ≡ none)))))

-- The same of the notification settings.
abbrev pub NotificationGroup : ℕ → SmartLockSettings → SmartLockSettings → Type 0
NotificationGroup now x y =
    (Recent now x.notifications_observed_at
      × ((y.notifications ≡ x.notifications)
          × ((y.locked_notifications ≡ x.locked_notifications)
              × ((y.unlocked_notifications ≡ x.unlocked_notifications)
                  × (y.notifications_observed_at ≡ x.notifications_observed_at)))))
    ⊎ ((¬ Recent now x.notifications_observed_at)
        × ((y.notifications ≡ none)
            × ((y.locked_notifications ≡ none)
                × ((y.unlocked_notifications ≡ none) × (y.notifications_observed_at ≡ none)))))

mask_groups :
    (now : ℕ) (x : SmartLockSettings)
    → DeviceGroup now x (
        mask_notifications
          (is_fresh now x.notifications_observed_at)
          (mask_device (is_fresh now x.observed_at) x))
      × NotificationGroup now x (
          mask_notifications
            (is_fresh now x.notifications_observed_at)
            (mask_device (is_fresh now x.observed_at) x))
unfolding mask_notifications mask_device
mask_groups now x = elim (is_fresh-cases now x.observed_at) [
  | inl (recent, fresh) ↦ elim (is_fresh-cases now x.notifications_observed_at) [
    | inl (r, f) ↦
        simp (fresh, f)
          (inl (recent, (refl, (refl, (refl, refl)))), inl (r, (refl, (refl, (refl, refl)))))
    | inr (r, f) ↦
        simp (fresh, f)
          (inl (recent, (refl, (refl, (refl, refl)))), inr (r, (refl, (refl, (refl, refl)))))
  ]
  | inr (old, stale) ↦ elim (is_fresh-cases now x.notifications_observed_at) [
    | inl (r, f) ↦
        simp (stale, f)
          (inr (old, (refl, (refl, (refl, refl)))), inl (r, (refl, (refl, (refl, refl)))))
    | inr (r, f) ↦
        simp (stale, f)
          (inr (old, (refl, (refl, (refl, refl)))), inr (r, (refl, (refl, (refl, refl)))))
  ]
]

settings-mask_position : (b : Bool) (s : SmartLockState) → (mask_position b s).settings ≡ s.settings
unfolding mask_position
settings-mask_position true s = refl
settings-mask_position false s = refl

-- The settings of a lock expire in two groups, each by its own stamp alone: a group is shown as it was
-- observed, its stamp with it, when that was at most six minutes ago and not in the future, and otherwise
-- none of the group is shown, however fresh the other group and the position are.
pub mask_smart_lock_state-groups :
    (now : ℕ) (s : SmartLockState) (x : SmartLockSettings)
    → s.settings ≡ some x
    → (y : SmartLockSettings) × (((mask_smart_lock_state now s).settings ≡ some y)
        × (DeviceGroup now x y × NotificationGroup now x y))
unfolding mask_smart_lock_state mask_settings
mask_smart_lock_state-groups now s x e =
    let y =
      mask_notifications (is_fresh now x.notifications_observed_at)
        (mask_device (is_fresh now x.observed_at) x) in
    (
      y,
      (
        settings-mask_position (is_fresh now s.state_observed_at)
              (record s { settings = mask_settings now s.settings })
            ∙ ap (mask_settings now) e,
        mask_groups now x,
      ),
    )

has-put :
    (k j : String) (l : SmartLockState) (m : Locks) → has k (put j l m) ≡ ((k == j) || has k m)
has-put k j l m = elim (beq-cases k j) [
  | inl equal ↦ rw (equal.0, equal.1, get-put_self j l m) refl
  | inr other ↦ rw (other.0, get-put_ne k j l m other.1) refl
]

or-exchange : (a b c : Bool) → (b || (a || c)) ≡ ((a || b) || c)
or-exchange true true c = refl
or-exchange true false c = refl
or-exchange false true c = refl
or-exchange false false c = refl

or-false : (a : Bool) → (a || false) ≡ a
or-false true = refl
or-false false = refl

has-set_locks :
    (k : String) (ls : List SmartLockState) (m : Locks)
    → has k (set_locks ls m) ≡ (any (λ (l : SmartLockState). k == l.serial) ls || has k m)
unfolding set_locks
has-set_locks k [] m = refl
has-set_locks k (l ∷ ls) m =
    has-set_locks k ls (put l.serial l m)
    ∙ ap (λ b. any (λ (x : SmartLockState). k == x.serial) ls || b) (has-put k l.serial l m)
    ∙ or-exchange (k == l.serial) (any (λ (x : SmartLockState). k == x.serial) ls) (has k m)

-- After an inventory of locks is set, exactly its locks are known, whatever was known before.
pub has_lock-replace_locks :
    (serial : String) (ls : List SmartLockState) (before : Locks)
    → has_lock serial (replace_locks ls before) ≡ any (λ l. serial == l.serial) ls
unfolding has_lock replace_locks
has_lock-replace_locks serial ls before =
    has-set_locks serial ls [] ∙ or-false (any (λ l. serial == l.serial) ls)
