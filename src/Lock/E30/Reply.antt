-- ===== src/Lock/E30/Reply.antt =====
-- The replies of provider/e30-lock-protocol.ts: decodeReplyFields from the point where the JSON and
-- base64 layers are read, decodeE30QueryReply and the check of decodeE30SettingsReply.
pub mod RoundTrip
use eufy_mega_security.Prelude.{
  ℕ, zero, suc, ◌+◌, ◌-◌, ◌*◌, ◌%◌, Bool, true, false, not, ◌&&◌, ◌||◌, Option, none, some, [], ◌∷◌,
  ltb, leb, nat_eq, Eq_ℕ, if◌then◌else◌, length, take, drop, all,
}
use eufy_mega_security.Prelude.Bytes.{Bytes, byte_at, bytes_eq, read_u16, subarray}
use eufy_mega_security.Prelude.JsMap.{JsMap, get, has, put}
use eufy_mega_security.Lock.E30.{LockIdentity, Cipher, cipher_key, cipher_iv, checksum, LockCommand}

-- The parsed `row` with `inner.cmd`; the time is what `replyTime` reads from it.
pub record Envelope : Type 0 where
  pub cmd : ℕ
  pub time : Option ℕ
  pub serial : Option Bytes
  pub sequence : Option ℕ
  pub frame : Bytes

-- `value !== undefined && value !== expected` is false.
pub absent_or_number : Option ℕ → ℕ → Bool
absent_or_number none n = true
absent_or_number (some m) n = nat_eq m n

pub absent_or_text : Option Bytes → Bytes → Bool
absent_or_text none n = true
absent_or_text (some m) n = bytes_eq m n

pub present_text : Option Bytes → Bytes → Bool
present_text none n = false
present_text (some m) n = bytes_eq m n

pub present_number : Option ℕ → ℕ → Bool
present_number none n = false
present_number (some m) n = nat_eq m n

-- The mode "settings" asks for the device's serial, "status" admits its absence.
unfoldable pub correlated : LockIdentity → LockCommand → Bool → Envelope → Bool
unfolding absent_or_number absent_or_text present_text present_number
correlated i query for_settings e =
    nat_eq e.cmd 1940
    && present_number e.time query.key_time
    && (if for_settings then present_text e.serial i.serial else absent_or_text e.serial i.serial)
    && absent_or_number e.sequence query.sequence

pub framed : ℕ → Bytes → Bool
unfolding checksum
framed opcode f =
    leb 26 (length f)
    && leb (length f) 4096
    && nat_eq (byte_at f 0) 255
    && nat_eq (byte_at f 1) 9
    && nat_eq (read_u16 f 2) (length f)
    && nat_eq (byte_at f 4) 3
    && nat_eq (byte_at f 5) 0
    && nat_eq (byte_at f 6) 2
    && nat_eq (256 * byte_at f 7 + byte_at f 8) (18432 + opcode)
    && nat_eq ((length f - 10) % 16) 0
    && nat_eq (checksum (take (length f - 1) f)) (byte_at f (length f - 1))

pub is_zero : ℕ → Bool
is_zero byte = nat_eq byte 0

-- The end of the loop: at most 15 bytes, all of them 0.
pub end_fields : Bytes → JsMap ℕ Bytes → Option (JsMap ℕ Bytes)
unfolding is_zero
end_fields rest fields =
    if ltb 15 (length rest) || not (all is_zero rest) then none else some fields

pub bad_field : ℕ → ℕ → Bytes → JsMap ℕ Bytes → Bool
bad_field tag len rest fields =
    ltb tag 161 || nat_eq len 0 || ltb (length rest) len || has tag fields

-- The loop over the fields, from the bytes at `offset` on; each round takes at least three of them, so
-- their number is enough fuel.
unfoldable pub read_fields : ℕ → Bytes → JsMap ℕ Bytes → Option (JsMap ℕ Bytes)
unfolding end_fields bad_field
read_fields zero rest fields = end_fields rest fields
read_fields (suc fuel) [] fields = end_fields [] fields
read_fields (suc fuel) (tag ∷ []) fields =
    if nat_eq tag 0 then end_fields (tag ∷ []) fields else none
read_fields (suc fuel) (tag ∷ len ∷ rest) fields =
    let next = read_fields fuel (drop len rest) (put tag (take len rest) fields) in
    if nat_eq tag 0
    then end_fields (tag ∷ len ∷ rest) fields
    else if bad_field tag len rest fields
    then none
    else next

pub read_plain : Bytes → Option (JsMap ℕ Bytes)
unfolding read_fields
read_plain [] = none
read_plain (status ∷ rest) = if nat_eq status 0 then read_fields (length rest) rest [] else none

pub read_decrypted : Option Bytes → Option (JsMap ℕ Bytes)
unfolding read_plain
read_decrypted none = none
read_decrypted (some plain) = read_plain plain

unfoldable pub decode_fields :
    Cipher → LockIdentity → LockCommand → Bool → Envelope → Option (JsMap ℕ Bytes)
unfolding correlated framed read_decrypted cipher_key cipher_iv
decode_fields c i query for_settings e =
    if (nat_eq query.opcode 34 || nat_eq query.opcode 53)
      && correlated i query for_settings e
      && framed query.opcode e.frame
      && nat_eq (length (cipher_key i query.key_time)) 16
    then read_decrypted (
        c.decrypt (cipher_key i query.key_time) (cipher_iv i)
          (subarray e.frame 9 (length e.frame - 1)))
    else none

pub record LockObservation : Type 0 where
  pub raw_state : ℕ
  pub battery_percent : Option ℕ

pub observation : Option Bytes → Option Bytes → Option LockObservation
observation (some (battery ∷ [])) (some (state ∷ [])) =
    some (record {
      raw_state = state;
      battery_percent = if leb battery 100 then some battery else none;
    })
observation battery state = none

pub observe_fields : Option (JsMap ℕ Bytes) → Option LockObservation
unfolding observation
observe_fields none = none
observe_fields (some fields) = observation (get 161 fields) (get 162 fields)

-- `decodeE30QueryReply`.
unfoldable pub decode_query_reply :
    Cipher → LockIdentity → LockCommand → Envelope → Option LockObservation
unfolding decode_fields observe_fields
decode_query_reply c i query e =
    if nat_eq query.opcode 34 then observe_fields (decode_fields c i query false e) else none
