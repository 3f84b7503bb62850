-- ===== src/Nvr/Ptcs/Packet.antt =====
-- The packet checks at the head of `push`, in the source's order.
use eufy_mega_security.Prelude.{
  Eq_ℕ, ℕ, ◌+◌, ◌%◌, Bool, true, false, not, ◌&&◌, ◌||◌, [], ◌∷◌, ltb, leb, nat_eq, length as len,
}
use eufy_mega_security.Prelude.Bytes.{Bytes, byte_at, read_u16, read_u32, bit, subarray, bytes_eq}
use eufy_mega_security.Nvr.Ptcs.{
  packet_bytes, header_bytes, fragment_bytes, Limits, Rejection, packet_geometry, magic, type,
  flags, index, channel, frame_too_large, FrameKey,
}

-- A packet that passed every check, or the first check that it failed.
pub data Checked {ℓ} (A : Type ℓ) : Type ℓ where
  passes : A → Checked A
  fails : Rejection → Checked A

infixl 5 ◌>>=◌ ◌>>◌
abbrev pub ◌>>=◌ {ℓ κ} : {A : Type ℓ} {B : Type κ} → Checked A → (A → Checked B) → Checked B
passes a >>= f = f a
fails r >>= f = fails r

abbrev pub ◌>>◌ {ℓ} : {B : Type ℓ} → Checked (Unit {0}) → Checked B → Checked B
m >> k = m >>= λ _. k

-- `if (bad) return this.#reject(reason)`
abbrev pub reject_if : Bool → Rejection → Checked (Unit {0})
reject_if true reason = fails reason
reject_if false reason = passes tt

pub record Packet : Type 0 where
  pub key : FrameKey
  pub total : ℕ
  pub index : ℕ
  pub final : Bool
  pub compressed : Bool
  pub keyframe : Bool
  pub part : Bytes

abbrev pub ptcs_magic : Bytes
ptcs_magic = b'P' ∷ b'T' ∷ b'C' ∷ b'S' ∷ []

-- Bits 15 and 12 are outside the mask 0x6fff, and bit 14 is REQUIRED_FLAG.
abbrev pub bad_flags : ℕ → Bool
bad_flags f = bit 15 f || bit 12 f || not (bit 14 f)

abbrev pub declared : ℕ → ℕ
declared f = f % 1024

abbrev pub is_final : ℕ → Bool
is_final = bit 10

unfoldable pub packet_of : Bytes → Packet
packet_of p =
    let f = read_u16 p 18 in
    record {
      key = record { channel = byte_at p 5; sequence = read_u16 p 6; timestamp = read_u32 p 8 };
      total = read_u32 p 12;
      index = read_u16 p 16;
      final = is_final f;
      compressed = bit 11 f;
      keyframe = bit 13 f;
      part = subarray p header_bytes (header_bytes + declared f);
    }

-- A packet of the exact received size, as against one padded to 1028 bytes.
abbrev pub is_exact : Bytes → Bool
is_exact p = nat_eq (len p) (header_bytes + declared (read_u16 p 18))

unfoldable pub check_header : Bytes → Checked (Unit {0})
check_header p = do
  reject_if (ltb (len p) header_bytes || ltb packet_bytes (len p)) packet_geometry
  reject_if (not (bytes_eq (subarray p 0 4) ptcs_magic)) magic
  reject_if (not (nat_eq (byte_at p 4) 3)) type
  reject_if (ltb 5 (byte_at p 5)) channel
  reject_if (bad_flags (read_u16 p 18)) flags

unfoldable pub check_length : Bytes → Checked (Unit {0})
check_length p = do
  reject_if (ltb fragment_bytes (declared (read_u16 p 18))) Rejection.length
  reject_if (not (is_exact p) && not (nat_eq (len p) packet_bytes)) packet_geometry
  reject_if
      (not (is_exact p)
        && (not (is_final (read_u16 p 18))
            && not (nat_eq (declared (read_u16 p 18)) fragment_bytes)))
      Rejection.length
  reject_if
      (nat_eq (declared (read_u16 p 18)) 0
        && not (nat_eq (read_u32 p 12) 0 && (nat_eq (read_u16 p 16) 0 && is_final (read_u16 p 18))))
      Rejection.length

unfoldable pub check_limits : Limits → Bytes → Checked (Unit {0})
check_limits l p = do
  reject_if (ltb l.max_frame_bytes (read_u32 p 12)) frame_too_large
  reject_if (leb l.max_fragments_per_frame (read_u16 p 16)) index

unfoldable pub check : Limits → Bytes → Checked Packet
unfolding packet_of check_header check_length check_limits
check l p = do check_header p; check_length p; check_limits l p; passes (packet_of p)
