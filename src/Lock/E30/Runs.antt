-- ===== src/Lock/E30/Runs.antt =====
-- A query with its answer and a notification write of provider/e30-lock-protocol.ts, and the theorems at
-- concrete inputs.
use eufy_mega_security.Prelude.{
  ℕ, zero, suc, ◌+◌, ◌-◌, ◌*◌, ◌/◌, ◌%◌, ◌≤◌, ◌<◌, ◌≡◌, ◌≢◌, refl, ap, inl, true, false, Option,
  none, some, [], ◌∷◌, ◌++◌, arith, Eq_ℕ, length, take, replicate, length-append, length-replicate,
  take-length_append,
}
use eufy_mega_security.Prelude.Bytes.{Bytes, byte_at}
use eufy_mega_security.Prelude.JsMap.{JsMap}
use eufy_mega_security.Lock.E30.{
  LockIdentity, Cipher, IsCipher, LockCommand, cipher_key, valid_identity,
}
use eufy_mega_security.Lock.E30.Reply.{Envelope, decode_fields, correlated}
use eufy_mega_security.Lock.E30.Reply.RoundTrip.{answer, laid_out, decode_fields-answer}
use eufy_mega_security.Lock.E30.Notifications.{
  notifications, NotificationCommand, build_notification_command, mask_of, mask_set, ModeBit,
  bit_mask, build_notification_command_bits,
}

-- A cipher that only pads, as PKCS7 does.
padding : Bytes → ℕ
padding m = 16 - length m % 16

pad : Bytes → Bytes
unfolding padding
pad m = m ++ replicate (padding m) (padding m)

unpad : Bytes → Option Bytes
unpad sealed = some (take (length sealed - byte_at sealed (length sealed - 1)) sealed)

abbrev plain_cipher : Cipher
plain_cipher = record { encrypt = λ key iv m. pad m; decrypt = λ key iv m. unpad m }

byte_at-run :
    (xs : Bytes) (n i p : ℕ)
    → length xs ≤ i
    → i < length xs + n
    → byte_at (xs ++ replicate n p) i ≡ p
byte_at-run [] zero i p a b = absurd (omega arith)
byte_at-run [] (suc n) zero p a b = refl
byte_at-run [] (suc n) (suc i) p a b = byte_at-run [] n i p (omega arith) (omega arith)
byte_at-run (x ∷ xs) n zero p a b = absurd (omega arith)
byte_at-run (x ∷ xs) n (suc i) p a b = byte_at-run xs n i p (omega arith) (omega arith)

length-pad : (m : Bytes) → (length (pad m) ≡ length m + padding m) × (1 ≤ padding m)
unfolding pad padding
length-pad m = (
  omega (
    arith,
    length-append m (replicate (padding m) (padding m)),
    length-replicate {A = ℕ} (padding m) (padding m),
  ),
  omega arith,
)

last_byte :
    (m : Bytes) (i : ℕ) → length m ≤ i → i < length m + padding m → byte_at (pad m) i ≡ padding m
unfolding pad
last_byte m i a b = byte_at-run m (padding m) i (padding m) a b

padding_lem : (m : Bytes) → length m + padding m ≡ (length m / 16 + 1) * 16
unfolding padding
padding_lem m = omega arith

unpad-pad : (m : Bytes) → unpad (pad m) ≡ some m
unfolding unpad
unpad-pad m =
    let (size, some_pad) = length-pad m in
    let last =
      last_byte m (length (pad m) - 1) (omega (arith, size, some_pad))
        (omega (arith, size, some_pad)) in
    let kept : length (pad m) - byte_at (pad m) (length (pad m) - 1) ≡ length m =
      omega (arith, last, size) in
    rw kept (ap some (unfold pad in take-length_append m (replicate (padding m) (padding m))))

plain_cipher-IsCipher : IsCipher plain_cipher
plain_cipher-IsCipher = record {
  inverse = λ key iv plain a b. unpad-pad plain;
  padded = λ key iv plain a b. omega (arith, length-pad plain, padding_lem plain);
}

abbrev lock : LockIdentity
lock = record {
  serial = replicate 16 65;
  name = [];
  admin_user_id = replicate 12 97;
  short_user_id = replicate 4 48;
  user_name = 66 ∷ [];
  administrator = true;
}

abbrev status_query : LockCommand
status_query = record {
  key_time = 1000;
  sequence = 7;
  opcode = 34;
  api_command = 6012;
  lock_payload = [];
}

-- A full battery and the raw state 4.
abbrev status_fields : JsMap ℕ Bytes
status_fields = (161, 100 ∷ []) ∷ (162, 4 ∷ []) ∷ []

abbrev status_answer : Envelope
status_answer = record {
  cmd = 1940;
  time = some 1000;
  serial = none;
  sequence = some 7;
  frame = answer plain_cipher lock status_query status_fields;
}

key_length : length (cipher_key lock 1000) ≡ 16
unfolding cipher_key
key_length = refl

answer_correlated : correlated lock status_query false status_answer ≡ true
unfolding correlated
answer_correlated = refl

laid_out_small : length (laid_out status_fields) ≤ 4000
unfolding laid_out
laid_out_small = omega arith

lock_valid : valid_identity lock false ≡ true
unfolding valid_identity
lock_valid = refl

decode_fields-answer_example :
    decode_fields plain_cipher lock status_query false status_answer ≡ some status_fields
decode_fields-answer_example =
    decode_fields-answer plain_cipher lock status_query false status_answer status_fields
      plain_cipher-IsCipher (inl refl) key_length answer_correlated refl (omega arith)
      (refl, (refl, tt)) laid_out_small

build_notification_command_bits_example :
    (command : NotificationCommand) × (build_notification_command lock notifications true 22 3
      ≡ some command)
    × (command.sequence ≡ 3)
    × (command.mode ≤ 31)
    × (mask_set (mask_of notifications) command.mode ≡ true)
    × ((b : ModeBit)
        → bit_mask b ≢ mask_of notifications
        → mask_set (bit_mask b) command.mode ≡ mask_set (bit_mask b) 22)
build_notification_command_bits_example =
    build_notification_command_bits lock notifications true 22 3 refl lock_valid (omega arith)
      (omega arith)
