-- ===== src/Lock/E30/Settings.antt =====
-- The settings snapshot of provider/e30-lock-protocol.ts: E30SettingsObservation and
-- decodeE30SettingsReply. `performance.now()` is an argument, in milliseconds.
use eufy_mega_security.Prelude.{
  ℕ, ◌+◌, ◌-◌, Bool, true, false, not, ◌&&◌, ◌||◌, Option, none, some, List, [], ◌∷◌, ◌++◌, ltb,
  leb, nat_eq, Eq_ℕ, if◌then◌else◌, length, any,
}
use eufy_mega_security.Prelude.Bytes.{Bytes, byte_at, bytes_eq, read_u16, u16_bytes, u32_bytes}
use eufy_mega_security.Prelude.JsMap.{JsMap, get}
use eufy_mega_security.Lock.E30.{
  LockIdentity, Cipher, valid_identity, uint32, LockCommand, encode_command,
}
use eufy_mega_security.Lock.E30.Reply.{Envelope, decode_fields}

pub record SettingsObservation : Type 0 where
  pub volume : ℕ
  pub fields : JsMap ℕ Bytes
  pub device : Option Bytes
  pub owner : Option Bytes
  pub observed_at : ℕ

pub field_or_empty : Option Bytes → Bytes
field_or_empty none = []
field_or_empty (some value) = value

-- `this.#fields.get(tag)!`; every use stands behind the check that the tag is there.
pub field : ℕ → SettingsObservation → Bytes
unfolding field_or_empty
field tag s = field_or_empty (get tag s.fields)

pub has_length : Option Bytes → ℕ → Bool
has_length none n = false
has_length (some value) n = nat_eq (length value) n

pub clock_time : Bytes → Bool
clock_time value = leb (byte_at value 0) 23 && leb (byte_at value 1) 59

-- `#validAutoLock`.
unfoldable pub valid_auto_lock : SettingsObservation → Bool
unfolding field has_length clock_time
valid_auto_lock s =
    has_length (get 161 s.fields) 1
    && has_length (get 162 s.fields) 2
    && has_length (get 163 s.fields) 1
    && has_length (get 164 s.fields) 2
    && has_length (get 165 s.fields) 2
    && leb (byte_at (field 161 s) 0) 1
    && leb (byte_at (field 163 s) 0) 1
    && not (nat_eq (read_u16 (field 162 s) 0) 0)
    && (not (nat_eq (byte_at (field 163 s) 0) 1)
        || clock_time (field 164 s) && clock_time (field 165 s))

unfoldable pub auto_lock_enabled : SettingsObservation → Option Bool
unfolding valid_auto_lock
auto_lock_enabled s = if valid_auto_lock s then some (nat_eq (byte_at (field 161 s) 0) 1) else none

pub delay_in_range : ℕ → Option ℕ
delay_in_range seconds = if leb 1 seconds && leb seconds 3600 then some seconds else none

unfoldable pub auto_lock_delay_seconds : SettingsObservation → Option ℕ
unfolding valid_auto_lock delay_in_range
auto_lock_delay_seconds s =
    if valid_auto_lock s then delay_in_range (read_u16 (field 162 s) 0) else none

pub same_text : Option Bytes → Bytes → Bool
same_text none n = false
same_text (some m) n = bytes_eq m n

-- `#validateSettingsWrite`; false where it throws.
unfoldable pub admits_write : LockIdentity → ℕ → ℕ → ℕ → ℕ → SettingsObservation → Bool
unfolding valid_identity uint32 valid_auto_lock same_text
admits_write i unix_time key_time sequence now s =
    valid_identity i false
    && (uint32 unix_time
        && uint32 key_time
        && uint32 sequence
        && valid_auto_lock s
        && same_text s.device i.serial
        && same_text s.owner i.admin_user_id
        && not (ltb now s.observed_at)
        && leb (now - s.observed_at) 10000)

abbrev pub auto_lock_delays : List ℕ
auto_lock_delays = 30 ∷ 60 ∷ 90 ∷ 120 ∷ 150 ∷ 180 ∷ 300 ∷ []

pub some_number : Option ℕ → Bool
some_number none = false
some_number (some n) = true

-- The fields of a settings write with this enablement and this timer.
unfoldable pub settings_fields : LockIdentity → ℕ → Bytes → Bytes → SettingsObservation → List Bytes
unfolding field
settings_fields i unix_time enabled timer s =
    u32_bytes unix_time
    ∷ i.admin_user_id
    ∷ (0 ∷ [])
    ∷ enabled
    ∷ timer
    ∷ field 163 s
    ∷ field 164 s
    ∷ field 165 s
    ∷ []

unfoldable pub auto_lock_command :
    Cipher → LockIdentity → Bool → ℕ → ℕ → ℕ → ℕ → SettingsObservation → Option LockCommand
unfolding admits_write settings_fields encode_command
auto_lock_command c i enabled unix_time key_time sequence now s =
    if admits_write i unix_time key_time sequence now s
    then encode_command c i 52
        (settings_fields i unix_time ((if enabled then 1 else 0) ∷ []) (field 162 s) s) key_time
        sequence
    else none

unfoldable pub auto_lock_delay_command :
    Cipher → LockIdentity → ℕ → ℕ → ℕ → ℕ → ℕ → SettingsObservation → Option LockCommand
unfolding admits_write auto_lock_delay_seconds settings_fields encode_command some_number
auto_lock_delay_command c i seconds unix_time key_time sequence now s =
    if any (nat_eq seconds) auto_lock_delays
      && some_number (auto_lock_delay_seconds s)
      && admits_write i unix_time key_time sequence now s
    then encode_command c i 52 (settings_fields i unix_time (field 161 s) (u16_bytes seconds) s)
        key_time sequence
    else none

-- `buildE30Command` for the two actions that carry a snapshot. Both check the identity and the three
-- numbers once more.
pub data SettingsAction : Type 0 where
  auto_lock : Bool → SettingsAction
  auto_lock_delay : ℕ → SettingsAction

unfoldable pub build_settings_command :
    Cipher
    → LockIdentity
    → SettingsAction
    → ℕ
    → ℕ
    → ℕ
    → ℕ
    → SettingsObservation
    → Option LockCommand
unfolding auto_lock_command auto_lock_delay_command
build_settings_command c i (auto_lock enabled) unix_time key_time sequence now s =
    auto_lock_command c i enabled unix_time key_time sequence now s
build_settings_command c i (auto_lock_delay seconds) unix_time key_time sequence now s =
    auto_lock_delay_command c i seconds unix_time key_time sequence now s

pub plausible_time : Bytes → Bool
unfolding clock_time
plausible_time value = bytes_eq value (255 ∷ 255 ∷ []) || clock_time value

pub is_off : Option Bool → Bool
is_off none = false
is_off (some b) = not b

pub record Preflight : Type 0 where
  pub eligible : Bool
  pub delay_seconds : Option ℕ

unfoldable pub auto_lock_trial_preflight : SettingsObservation → Preflight
unfolding valid_auto_lock auto_lock_enabled is_off plausible_time field
auto_lock_trial_preflight s = record {
  eligible =
      valid_auto_lock s
      && is_off (auto_lock_enabled s)
      && nat_eq (byte_at (field 163 s) 0) 0
      && plausible_time (field 164 s)
      && plausible_time (field 165 s);
  delay_seconds = if valid_auto_lock s then some (read_u16 (field 162 s) 0) else none;
}

pub data Compared : Type 0 where
  sound auto_lock_state delay : Compared

-- The tag that the setting may change, and those whose change the comparison does not forgive.
pub own_tag : Compared → ℕ
own_tag sound = 171
own_tag delay = 162
own_tag auto_lock_state = 161

pub guards_tag : Compared → ℕ → Bool
guards_tag sound tag = false
guards_tag delay tag = true
guards_tag auto_lock_state tag = leb 162 tag && leb tag 165 || nat_eq tag 171

pub record Comparison : Type 0 where
  pub unchanged : Bool
  pub compared_fields : ℕ

pub same_field : Bytes → Option Bytes → Bool
same_field first none = false
same_field first (some after) = bytes_eq first after

pub compare_present : Compared → ℕ → Bytes → Bytes → Option Bytes → Comparison → Comparison
unfolding guards_tag same_field
compare_present setting tag first second after r =
    if bytes_eq first second
    then record r {
      unchanged = r.unchanged && same_field first after;
      compared_fields = r.compared_fields + 1;
    }
    else record r { unchanged = r.unchanged && not (guards_tag setting tag) }

pub compare_field :
    Compared → ℕ → Option Bytes → Option Bytes → Option Bytes → Comparison → Comparison
unfolding compare_present
compare_field setting tag (some first) (some second) after r =
    compare_present setting tag first second after r
compare_field setting tag (some first) none after r = record r { unchanged = false }
compare_field setting tag none second after r = record r { unchanged = false }

pub compare_tag :
    Compared
    → ℕ
    → SettingsObservation
    → SettingsObservation
    → SettingsObservation
    → Comparison
    → Comparison
unfolding own_tag compare_field
compare_tag setting tag s baseline latest r =
    if nat_eq tag (own_tag setting)
    then r
    else compare_field setting tag (get tag s.fields) (get tag baseline.fields)
        (get tag latest.fields) r

pub compare_tags :
    Compared
    → List ℕ
    → SettingsObservation
    → SettingsObservation
    → SettingsObservation
    → Comparison
    → Comparison
unfolding compare_tag
compare_tags setting [] s baseline latest r = r
compare_tags setting (tag ∷ tags) s baseline latest r =
    compare_tags setting tags s baseline latest (compare_tag setting tag s baseline latest r)

pub tags_of : JsMap ℕ Bytes → List ℕ
tags_of [] = []
tags_of ((tag, value) ∷ m) = tag ∷ tags_of m

-- `new Set` of the tags: the first of each.
pub distinct_tags : List ℕ → List ℕ → List ℕ
distinct_tags known [] = []
distinct_tags known (tag ∷ tags) =
    let rest = distinct_tags (tag ∷ known) tags in
    let rest_known = distinct_tags known tags in
    if any (nat_eq tag) known then rest_known else tag ∷ rest

-- `compareStableFields`.
unfoldable pub compare_stable_fields :
    Compared → SettingsObservation → SettingsObservation → SettingsObservation → Comparison
unfolding compare_tags tags_of distinct_tags
compare_stable_fields setting s baseline latest =
    let r =
      compare_tags setting
        (distinct_tags [] (tags_of s.fields ++ (tags_of baseline.fields ++ tags_of latest.fields)))
        s baseline latest (record { unchanged = true; compared_fields = 0 }) in
    record r { unchanged = r.unchanged && ltb 0 r.compared_fields }

-- A snapshot, if the volume is one byte of at most 3.
pub settings_with : LockIdentity → ℕ → JsMap ℕ Bytes → Option Bytes → Option SettingsObservation
settings_with i now fields none = none
settings_with i now fields (some value) =
    if nat_eq (length value) 1 && leb (byte_at value 0) 3
    then some (record {
      volume = byte_at value 0;
      fields = fields;
      device = some i.serial;
      owner = some i.admin_user_id;
      observed_at = now;
    })
    else none

pub settings_of : LockIdentity → ℕ → Option (JsMap ℕ Bytes) → Option SettingsObservation
unfolding settings_with
settings_of i now none = none
settings_of i now (some fields) = settings_with i now fields (get 171 fields)

-- `decodeE30SettingsReply`.
unfoldable pub decode_settings_reply :
    Cipher → LockIdentity → LockCommand → ℕ → Envelope → Option SettingsObservation
unfolding decode_fields settings_of
decode_settings_reply c i query now e =
    if nat_eq query.opcode 53 then settings_of i now (decode_fields c i query true e) else none
