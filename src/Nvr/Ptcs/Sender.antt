-- ===== src/Nvr/Ptcs/Sender.antt =====
-- nvrPackets of stream/nvr-protocol.ts: an application frame in padded packets of 1028 bytes.
use eufy_mega_security.Prelude.{
  ℕ, zero, suc, ◌+◌, ◌-◌, ◌*◌, ◌/◌, ◌%◌, ◌^◌, Bool, ◌||◌, Option, none, some, List, [], ◌∷◌, ◌++◌,
  ltb, nat_eq, if◌then◌else◌, length, take, drop, replicate, max,
}
use eufy_mega_security.Prelude.Bytes.{Bytes, u16_bytes, u32_bytes}
use eufy_mega_security.Nvr.Ptcs.{fragment_bytes, max_safe}
use eufy_mega_security.Nvr.Ptcs.Packet.{ptcs_magic}

-- The bytes of one packet. `0x4000 | final | length` is a sum, as a length below 1024 has no other bit.
unfoldable pub encode : ℕ → ℕ → ℕ → ℕ → ℕ → Bool → Bytes → Bytes
encode channel sequence timestamp total index final part =
    ptcs_magic
    ++ (3
        ∷ channel
        ∷ (u16_bytes sequence
            ++ (u32_bytes (timestamp % 2 ^ 32)
                ++ (u32_bytes total
                    ++ (u16_bytes index
                        ++ (u16_bytes (16384 + (if final then 1024 else 0) + length part)
                            ++ (replicate 8 0
                                ++ (part ++ replicate (fragment_bytes - length part) 0))))))))

-- `frame.subarray(index * 1000, (index + 1) * 1000)`
abbrev pub part_of : Bytes → ℕ → Bytes
part_of frame index = take fragment_bytes (drop (fragment_bytes * index) frame)

-- `Math.max(1, Math.ceil(frame.length / 1000))`
abbrev pub packet_count : Bytes → ℕ
packet_count frame = max 1 ((length frame + 999) / fragment_bytes)

module _ (frame : Bytes) (sequence timestamp channel : ℕ) where
  -- The rounds of the loop that are left, and the index of the next one.
  unfoldable pub packets_from : ℕ → ℕ → List Bytes
  packets_from zero index = []
  packets_from (suc left) index =
      encode channel sequence timestamp (length frame) index (nat_eq left 0) (part_of frame index)
      ∷ packets_from left (index + 1)

  unfoldable pub refuses : Bool
  refuses =
      ltb (4 * 1024 * 1024 + 64) (length frame)
      || ltb 65535 sequence
      || ltb 5 channel
      || ltb max_safe timestamp

  -- `none` is the NvrTrialError.
  unfoldable pub packets : Option (List Bytes)
  packets = if refuses then none else some (packets_from (packet_count frame) 0)
