-- ===== src/Lock/E30/Notifications.antt =====
-- The notification mode of provider/e30-lock-protocol.ts: buildE30NotificationCommand.
use eufy_mega_security.Prelude.{
  ℕ, ◌+◌, ◌-◌, ◌/◌, ◌%◌, ◌≤◌, ◌≡◌, ◌≢◌, Bool, true, false, ◌&&◌, Option, none, some, arith, leb,
  nat_eq, refl, le→leb, if◌then◌else◌,
}
use eufy_mega_security.Lock.E30.{LockIdentity, valid_identity, uint32}

pub data NotificationSetting : Type 0 where
  notifications locked_notifications unlocked_notifications : NotificationSetting

pub mask_of : NotificationSetting → ℕ
mask_of notifications = 1
mask_of unlocked_notifications = 2
mask_of locked_notifications = 4

-- `mode & mask` is not 0, for a mask of one bit.
pub mask_set : ℕ → ℕ → Bool
mask_set mask mode = nat_eq (mode / mask % 2) 1

-- `(enabled ? mode | mask : mode & ~mask) & 31`.
unfoldable pub with_mask : ℕ → Bool → ℕ → ℕ
unfolding mask_set
with_mask mask enabled mode =
    (if enabled
      then (if mask_set mask mode then mode else mode + mask)
      else (if mask_set mask mode then mode - mask else mode))
    % 32

pub record NotificationCommand : Type 0 where
  pub sequence : ℕ
  pub mode : ℕ

unfoldable pub build_notification_command :
    LockIdentity → NotificationSetting → Bool → ℕ → ℕ → Option NotificationCommand
unfolding valid_identity uint32 mask_of with_mask
build_notification_command i setting enabled current_mode sequence =
    if i.administrator && valid_identity i false && leb current_mode 31 && uint32 sequence
    then some
        (record { sequence = sequence; mode = with_mask (mask_of setting) enabled current_mode })
    else none

with_mask_small : (mask : ℕ) (enabled : Bool) (mode : ℕ) → with_mask mask enabled mode ≤ 31
unfolding with_mask
with_mask_small mask enabled mode = omega arith

with_mask_own :
    (setting : NotificationSetting) (enabled : Bool) (mode : ℕ)
    → mode ≤ 31
    → mask_set (mask_of setting) (with_mask (mask_of setting) enabled mode) ≡ enabled
unfolding with_mask mask_of
with_mask_own notifications true mode h = ground arith
with_mask_own notifications false mode h = ground arith
with_mask_own locked_notifications true mode h = ground arith
with_mask_own locked_notifications false mode h = ground arith
with_mask_own unlocked_notifications true mode h = ground arith
with_mask_own unlocked_notifications false mode h = ground arith

-- The five bits of a mode.
pub data ModeBit : Type 0 where
  bit_1 bit_2 bit_4 bit_8 bit_16 : ModeBit

unfoldable pub bit_mask : ModeBit → ℕ
bit_mask bit_1 = 1
bit_mask bit_2 = 2
bit_mask bit_4 = 4
bit_mask bit_8 = 8
bit_mask bit_16 = 16

with_mask_other :
    (setting : NotificationSetting) (enabled : Bool) (mode : ℕ) (b : ModeBit)
    → mode ≤ 31
    → bit_mask b ≢ mask_of setting
    → mask_set (bit_mask b) (with_mask (mask_of setting) enabled mode) ≡ mask_set (bit_mask b) mode
unfolding with_mask mask_of bit_mask
with_mask_other notifications enabled mode bit_1 h n = absurd (n refl)
with_mask_other notifications enabled mode bit_2 h n = ground arith
with_mask_other notifications enabled mode bit_4 h n = ground arith
with_mask_other notifications enabled mode bit_8 h n = ground arith
with_mask_other notifications enabled mode bit_16 h n = ground arith
with_mask_other locked_notifications enabled mode bit_1 h n = ground arith
with_mask_other locked_notifications enabled mode bit_2 h n = ground arith
with_mask_other locked_notifications enabled mode bit_4 h n = absurd (n refl)
with_mask_other locked_notifications enabled mode bit_8 h n = ground arith
with_mask_other locked_notifications enabled mode bit_16 h n = ground arith
with_mask_other unlocked_notifications enabled mode bit_1 h n = ground arith
with_mask_other unlocked_notifications enabled mode bit_2 h n = absurd (n refl)
with_mask_other unlocked_notifications enabled mode bit_4 h n = ground arith
with_mask_other unlocked_notifications enabled mode bit_8 h n = ground arith
with_mask_other unlocked_notifications enabled mode bit_16 h n = ground arith

-- A write that the builder admits keeps the mode in its five bits, sets or clears the bit of the setting as
-- asked, and leaves each of the other four bits as it was; and the builder admits every mode of five bits and
-- every sequence number of 32 for an administrator whose identity is well formed.
pub build_notification_command_bits :
    (i : LockIdentity) (setting : NotificationSetting) (enabled : Bool) (mode sequence : ℕ)
    → i.administrator ≡ true
    → valid_identity i false ≡ true
    → mode ≤ 31
    → sequence ≤ 4294967295
    → (command : NotificationCommand) × (build_notification_command i setting enabled mode sequence
        ≡ some command)
      × (command.sequence ≡ sequence)
      × (command.mode ≤ 31)
      × (mask_set (mask_of setting) command.mode ≡ enabled)
      × ((b : ModeBit)
          → bit_mask b ≢ mask_of setting
          → mask_set (bit_mask b) command.mode ≡ mask_set (bit_mask b) mode)
unfolding build_notification_command
build_notification_command_bits i setting enabled mode sequence admin valid small low = (
  record { sequence = sequence; mode = with_mask (mask_of setting) enabled mode },
  rw (admin, valid, le→leb mode 31 small, le→leb sequence 4294967295 low) refl,
  refl,
  with_mask_small (mask_of setting) enabled mode,
  with_mask_own setting enabled mode small,
  λ b. with_mask_other setting enabled mode b small,
)
