-- ===== src/Lock/E30.antt =====
-- The commands of provider/e30-lock-protocol.ts: the identity checks, the fields, the frame and its
-- checksum. Texts are their bytes in UTF-8, which for the checked texts are their characters. AES-128-CBC
-- with its padding is node:crypto's, a parameter; a thrown E30LockError is `none`.
pub mod Notifications
pub mod Reply
pub mod Settings
mod Runs
use Prim.Native.Nat.{bit_xor}
use eufy_mega_security.Prelude.{
  ℕ, ◌+◌, ◌-◌, ◌*◌, ◌/◌, ◌%◌, ◌≡◌, Bool, true, false, not, ◌&&◌, ◌||◌, Option, none, some, List, [],
  ◌∷◌, ◌++◌, ltb, leb, nat_eq, if◌then◌else◌, length, take, drop, replicate, all,
}
use eufy_mega_security.Prelude.Bytes.{Bytes, u32_bytes}

pub record LockIdentity : Type 0 where
  pub serial : Bytes
  pub name : Bytes
  pub admin_user_id : Bytes
  pub short_user_id : Bytes
  pub user_name : Bytes
  pub administrator : Bool

-- What `createCipheriv` and `createDecipheriv` of "aes-128-cbc" do from key and initial vector; a
-- decipher that throws is `none`.
pub record Cipher : Type 0 where
  pub encrypt : Bytes → Bytes → Bytes → Bytes
  pub decrypt : Bytes → Bytes → Bytes → Option Bytes

-- The documented behaviour of that cipher with its automatic padding.
pub record IsCipher (c : Cipher) : Type 0 where
  pub inverse :
      ((key iv plain : Bytes)
        → length key ≡ 16
        → length iv ≡ 16
        → c.decrypt key iv (c.encrypt key iv plain) ≡ some plain)
  pub padded :
      ((key iv plain : Bytes)
        → length key ≡ 16
        → length iv ≡ 16
        → length (c.encrypt key iv plain) ≡ (length plain / 16 + 1) * 16)

pub is_digit : ℕ → Bool
is_digit c = leb 48 c && leb c 57

pub is_hex : ℕ → Bool
unfolding is_digit
is_hex c = is_digit c || leb 65 c && leb c 70 || leb 97 c && leb c 102

pub is_alphanumeric : ℕ → Bool
unfolding is_digit
is_alphanumeric c = is_digit c || leb 65 c && leb c 90 || leb 97 c && leb c 122

pub uint32 : ℕ → Bool
uint32 n = leb n 4294967295

pub valid_member : LockIdentity → Bool
unfolding is_hex
valid_member i =
    all is_hex i.short_user_id
    && nat_eq (length i.short_user_id) 4
    && ltb 0 (length i.user_name)
    && leb (length i.user_name) 255

-- `validateE30Identity`; false where it throws.
unfoldable pub valid_identity : LockIdentity → Bool → Bool
unfolding is_alphanumeric valid_member
valid_identity i writing =
    all is_alphanumeric i.serial
    && nat_eq (length i.serial) 16
    && all is_alphanumeric i.admin_user_id
    && leb 12 (length i.admin_user_id)
    && leb (length i.admin_user_id) 128
    && (not writing || valid_member i)

-- `Buffer.concat` of the fields, each behind its tag and length.
unfoldable pub tlv_from : ℕ → List Bytes → Bytes
tlv_from tag [] = []
tlv_from tag (field ∷ fields) =
    (tag % 256) ∷ (length field % 256) ∷ (field ++ tlv_from (tag + 1) fields)

-- The zero bytes up to a multiple of 16.
unfoldable pub align : Bytes → Bytes
align tlv = tlv ++ replicate ((length tlv + 15) / 16 * 16 - length tlv) 0

pub big_endian : ℕ → Bytes
big_endian n = (n / 16777216 % 256) ∷ (n / 65536 % 256) ∷ (n / 256 % 256) ∷ (n % 256) ∷ []

-- `cipherIdentity`: the key, which is refused unless it has 16 bytes, and the initial vector.
unfoldable pub cipher_key : LockIdentity → ℕ → Bytes
unfolding big_endian
cipher_key i key_time = drop (length i.admin_user_id - 12) i.admin_user_id ++ big_endian key_time

unfoldable pub cipher_iv : LockIdentity → Bytes
cipher_iv i = take 16 (i.serial ++ replicate 16 0)

unfoldable pub checksum_from : ℕ → Bytes → ℕ
checksum_from value [] = value
checksum_from value (byte ∷ bytes) = checksum_from (bit_xor value byte) bytes

unfoldable pub checksum : Bytes → ℕ
unfolding checksum_from
checksum bytes = checksum_from 0 bytes

-- The frame up to its checksum, around the encrypted bytes.
unfoldable pub frame_body : ℕ → Bytes → Bytes
frame_body code encrypted =
    255
    ∷ 9
    ∷ ((10 + length encrypted) % 256)
    ∷ ((10 + length encrypted) / 256 % 256)
    ∷ 3
    ∷ 0
    ∷ 2
    ∷ (code / 256 % 256)
    ∷ (code % 256)
    ∷ encrypted

unfoldable pub frame_of : ℕ → Bytes → Bytes
unfolding frame_body checksum
frame_of code encrypted = frame_body code encrypted ++ (checksum (frame_body code encrypted) ∷ [])

pub record LockCommand : Type 0 where
  pub key_time : ℕ
  pub sequence : ℕ
  pub opcode : ℕ
  pub api_command : ℕ
  pub lock_payload : Bytes

pub api_command_of : ℕ → ℕ
api_command_of opcode =
    if nat_eq opcode 34
    then 6012
    else if nat_eq opcode 53
    then 6016
    else if nat_eq opcode 52
    then 6015
    else 6018

-- `encodeE30Command`; `0x4000 | opcode` is the sum, as an opcode is below 0x4000.
unfoldable pub encode_command : Cipher → LockIdentity → ℕ → List Bytes → ℕ → ℕ → Option LockCommand
unfolding tlv_from align cipher_key cipher_iv frame_of api_command_of
encode_command c i opcode fields key_time sequence =
    if nat_eq (length (cipher_key i key_time)) 16
    then some (record {
      key_time = key_time;
      sequence = sequence;
      opcode = opcode;
      api_command = api_command_of opcode;
      lock_payload =
          frame_of (16384 + opcode)
            (c.encrypt (cipher_key i key_time) (cipher_iv i) (align (tlv_from 161 fields)));
    })
    else none

pub data Action : Type 0 where
  query settings : Action
  locks : Bool → Action
  sound_volume : ℕ → Action

pub hex_digit : ℕ → ℕ
hex_digit c = if leb c 57 then c - 48 else if leb c 70 then c - 55 else c - 87

-- `Buffer.from(shortUserId, "hex")`.
pub hex_bytes : Bytes → Bytes
unfolding hex_digit
hex_bytes [] = []
hex_bytes (a ∷ []) = []
hex_bytes (a ∷ b ∷ rest) = (16 * hex_digit a + hex_digit b) ∷ hex_bytes rest

pub action_opcode : Action → ℕ
action_opcode query = 34
action_opcode settings = 53
action_opcode (sound_volume v) = 52
action_opcode (locks on) = 35

pub action_writes : Action → Bool
action_writes (locks on) = true
action_writes a = false

pub action_allowed : Action → Bool
action_allowed (sound_volume v) = leb 1 v && leb v 3
action_allowed a = true

pub action_fields : LockIdentity → Action → List Bytes
unfolding hex_bytes
action_fields i query = (0 ∷ []) ∷ []
action_fields i settings = []
action_fields i (locks on) =
    ((if on then 0 else 1) ∷ []) ∷ i.user_name ∷ hex_bytes i.short_user_id ∷ []
action_fields i (sound_volume v) = (4 ∷ []) ∷ (v ∷ []) ∷ []

-- `buildE30Command` for the actions that carry no settings; those of a settings snapshot are in Settings.
unfoldable pub build_command : Cipher → LockIdentity → Action → ℕ → ℕ → ℕ → Option LockCommand
unfolding valid_identity uint32 action_opcode action_writes action_allowed action_fields
    encode_command
build_command c i action unix_time key_time sequence =
    if valid_identity i (action_writes action)
      && (uint32 unix_time && uint32 key_time && uint32 sequence)
      && action_allowed action
    then encode_command c i (action_opcode action)
        (u32_bytes unix_time ∷ i.admin_user_id ∷ action_fields i action) key_time sequence
    else none
