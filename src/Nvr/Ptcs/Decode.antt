-- ===== src/Nvr/Ptcs/Decode.antt =====
-- The receiver's checks on a packet of nvrPackets.
use eufy_mega_security.Prelude.{
  Eq_ℕ, ℕ, ◌+◌, ◌-◌, ◌%◌, ◌^◌, ◌≤◌, ◌<◌, ◌≡◌, refl, arith, Bool, true, false, [], ◌∷◌,
  if◌then◌else◌, length, replicate, Bool-cases, inl, inr, length-append, length-replicate,
  take-length_append,
}
use eufy_mega_security.Prelude.Bytes.{
  Bytes, byte_at, read_u16, read_u32, bit, u32_split, subarray, bytes_eq,
}
use eufy_mega_security.Nvr.Ptcs.{packet_bytes, header_bytes, Limits}
use eufy_mega_security.Nvr.Ptcs.Packet.{
  Packet, passes, packet_of, check_header, check_length, check_limits, check, bad_flags, declared,
  is_final,
}
use eufy_mega_security.Nvr.Ptcs.Sender.{encode}

module _ (channel sequence timestamp total index : ℕ) (final : Bool) (part : Bytes) where
  -- What the sender puts on the wire: each number fits its field, only the last fragment is short,
  -- and only an empty frame has an empty fragment.
  pub record Encodable : Type 0 where
    pub channels : channel ≤ 5
    pub sequences : sequence < 65536
    pub totals : total < 4294967296
    pub indexes : index < 65536
    pub parts : length part ≤ 1000
    pub whole : final ≡ false → length part ≡ 1000
    pub empty : length part ≡ 0 → (total ≡ 0) × (index ≡ 0) × (final ≡ true)

  abbrev pub sent : Bytes
  sent = encode channel sequence timestamp total index final part

  abbrev flag_word : ℕ
  flag_word = 16384 + (if final then 1024 else 0) + length part

  length-sent : Encodable → length sent ≡ packet_bytes
  unfolding encode
  length-sent e = omega (
    arith,
    length-append part (replicate (1000 - length part) 0),
    length-replicate {A = ℕ} (1000 - length part) 0,
    e.parts,
  )

  sent_flags : Encodable → read_u16 sent 18 ≡ flag_word
  unfolding encode
  sent_flags e = elim (Bool-cases final) [
    | inl h ↦ rw h (omega (arith, e.parts))
    | inr h ↦ rw h (omega (arith, e.parts))
  ]

  sent_total : Encodable → read_u32 sent 12 ≡ total
  unfolding encode
  sent_total e = omega (arith, u32_split total e.totals)

  sent_index : Encodable → read_u16 sent 16 ≡ index
  unfolding encode
  sent_index e = omega (arith, e.indexes)

  sent_final : Encodable → is_final (read_u16 sent 18) ≡ final
  sent_final e = rw (sent_flags e) (elim (Bool-cases final) [
    | inl h ↦ rw h (ground (arith, e.parts))
    | inr h ↦ rw h (ground (arith, e.parts))
  ])

  sent_declared : Encodable → declared (read_u16 sent 18) ≡ length part
  sent_declared e = rw (sent_flags e) (elim (Bool-cases final) [
    | inl h ↦ rw h (omega (arith, e.parts))
    | inr h ↦ rw h (omega (arith, e.parts))
  ])

  sent_flags_fine : Encodable → bad_flags (read_u16 sent 18) ≡ false
  sent_flags_fine e = rw (sent_flags e) (elim (Bool-cases final) [
    | inl h ↦ rw h (ground (arith, e.parts))
    | inr h ↦ rw h (ground (arith, e.parts))
  ])

  check_header-sent : Encodable → check_header sent ≡ passes tt
  check_header-sent e =
      let channel_read : byte_at sent 5 ≡ channel = unfold encode in refl in
      let magic_read : bytes_eq (subarray sent 0 4) (80 ∷ 84 ∷ 67 ∷ 83 ∷ []) ≡ true =
        unfold encode in refl in
      let type_read : byte_at sent 4 ≡ 3 = unfold encode in refl in
      unfold check_header in
      ground
        (arith, length-sent e, channel_read, magic_read, type_read, sent_flags_fine e, e.channels)

  check_length-sent : Encodable → check_length sent ≡ passes tt
  check_length-sent e =
      unfold check_length in
      ground (
        arith,
        length-sent e,
        sent_declared e,
        sent_final e,
        sent_total e,
        sent_index e,
        e.parts,
        e.whole,
        e.empty,
      )

  abbrev pub sent_packet : Packet
  sent_packet = record {
    key = record { channel = channel; sequence = sequence; timestamp = timestamp % 2 ^ 32 };
    total = total;
    index = index;
    final = final;
    compressed = false;
    keyframe = false;
    part = part;
  }

  sent_part :
      Encodable → subarray sent header_bytes (header_bytes + declared (read_u16 sent 18)) ≡ part
  sent_part e = rw (sent_declared e) (
      let size : header_bytes + length part - header_bytes ≡ length part = omega arith in
      rw size (unfold encode in take-length_append part (replicate (1000 - length part) 0)))

  packet_of-sent : Encodable → packet_of sent ≡ sent_packet
  packet_of-sent e =
      let seq : read_u16 sent 6 ≡ sequence = unfold encode in omega (arith, e.sequences) in
      let time : read_u32 sent 8 ≡ timestamp % 2 ^ 32 =
        unfold encode in omega (arith, u32_split (timestamp % 2 ^ 32)) in
      let channel_read : byte_at sent 5 ≡ channel = unfold encode in refl in
      let compress : bit 11 (read_u16 sent 18) ≡ false =
        rw (sent_flags e) (elim (Bool-cases final) [
          | inl h ↦ rw h (ground (arith, e.parts))
          | inr h ↦ rw h (ground (arith, e.parts))
        ]) in
      let key_frame : bit 13 (read_u16 sent 18) ≡ false =
        rw (sent_flags e) (elim (Bool-cases final) [
          | inl h ↦ rw h (ground (arith, e.parts))
          | inr h ↦ rw h (ground (arith, e.parts))
        ]) in
      unfold packet_of in
      ground (
        arith,
        seq,
        time,
        channel_read,
        compress,
        key_frame,
        sent_total e,
        sent_index e,
        sent_final e,
        sent_part e,
      )

  -- What the sender encodes passes every check of the receiver, and reads back field by field.
  pub check-sent :
      (l : Limits)
      → Encodable
      → total ≤ l.max_frame_bytes
      → index < l.max_fragments_per_frame
      → check l sent ≡ passes sent_packet
  check-sent l e fits counted =
      let limits : check_limits l sent ≡ passes tt =
        unfold check_limits in ground (arith, sent_total e, sent_index e, fits, counted) in
      unfold check in
      ground (arith, check_header-sent e, check_length-sent e, limits, packet_of-sent e)
