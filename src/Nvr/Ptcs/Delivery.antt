-- ===== src/Nvr/Ptcs/Delivery.antt =====
-- A frame of nvrPackets at a new NvrPtcsReassembler.
use eufy_mega_security.Prelude.{
  Eq_ℕ, ℕ, ◌-◌, ◌%◌, ◌^◌, ◌≤◌, ◌≡◌, refl, arith, true, Option, some, List, [], ◌∷◌, ◌++◌, length,
  replicate, Bool-cases, inl, inr,
}
use eufy_mega_security.Prelude.Bytes.{Bytes}
use eufy_mega_security.Nvr.Ptcs.{
  Limits, Reassembler, incomplete, complete, Eq_FrameKey, fresh, valid_limits, max_safe,
}
use eufy_mega_security.Nvr.Ptcs.Sender.{packet_count, packets_from, refuses, packets}
use eufy_mega_security.Nvr.Ptcs.RoundTrip.{final_state}
use eufy_mega_security.Nvr.Ptcs.Frames.{push_all, Fits, push_frame}

-- The reassembler's limits are valid and admit a frame of this size, and the clock reads a safe integer.
pub record Admits (l : Limits) (frame : Bytes) (now : ℕ) : Type 0 where
  pub valid : valid_limits l ≡ true
  pub in_frame : length frame ≤ l.max_frame_bytes
  pub in_fragments : packet_count frame ≤ l.max_fragments_per_frame
  pub in_retained : packet_count frame ≤ l.max_retained_fragments
  pub clock : now ≤ max_safe

valid_limits_facts :
    (l : Limits)
    → valid_limits l ≡ true
    → (l.max_frame_bytes ≤ l.max_buffered_bytes)
      × (1 ≤ l.max_pending_frames)
      × (1 ≤ l.max_completed_tombstones)
      × (1 ≤ l.expiry_milliseconds)
valid_limits_facts l h =
    unfold valid_limits in
    (ground (arith, h), ground (arith, h), ground (arith, h), ground (arith, h))

sent_fits :
    (zstd : ℕ → Bytes → Option Bytes) (l : Limits) (frame : Bytes)
    (channel sequence timestamp now : ℕ) {ps : List Bytes}
    → Admits l frame now
    → packets frame sequence timestamp channel ≡ some ps
    → Fits zstd l frame channel sequence timestamp now
sent_fits zstd l frame channel sequence timestamp now a e =
    elim (Bool-cases (refuses frame sequence timestamp channel)) [
      | inl refused ↦ absurd (unfold packets in ground (arith, refused, e))
      | inr taken ↦
          let v = valid_limits_facts l a.valid in
          record {
            channels = unfold refuses in ground (arith, taken);
            sequences = unfold refuses in ground (arith, taken);
            bytes = unfold refuses in ground (arith, taken);
            in_frame = a.in_frame;
            in_buffer = omega (arith, a.in_frame, v.0);
            in_fragments = a.in_fragments;
            in_retained = a.in_retained;
            a_frame = v.1;
            a_tombstone = v.2;
            a_moment = v.3;
            clock = a.clock;
          }
    ]

sent_all :
    (frame : Bytes) (channel sequence timestamp : ℕ) (ps : List Bytes)
    → packets frame sequence timestamp channel ≡ some ps
    → packets_from frame sequence timestamp channel (packet_count frame) 0 ≡ ps
sent_all frame channel sequence timestamp ps e =
    elim (Bool-cases (refuses frame sequence timestamp channel)) [
      | inl refused ↦ absurd (unfold packets in ground (arith, refused, e))
      | inr taken ↦ unfold packets in ground (arith, taken, e)
    ]

-- When the sender splits a frame, and its packets arrive in order at one time at a new reassembler whose limits
-- admit it, then every packet but the last is answered `incomplete`, the last delivers the frame
-- unchanged with its channel, its sequence and the low 32 bits of its timestamp, and nothing is pending any more.
pub push_all-packets :
    (zstd : ℕ → Bytes → Option Bytes) (l : Limits) (frame : Bytes)
    (channel sequence timestamp now : ℕ) (ps : List Bytes)
    → Admits l frame now
    → packets frame sequence timestamp channel ≡ some ps
    → (s : Reassembler) × (push_all zstd now ps (fresh l)
        ≡ some (
          s,
          replicate (packet_count frame - 1) incomplete
              ++ (complete channel sequence (timestamp % 2 ^ 32) frame ∷ []),
        ))
      × (s.pending ≡ [])
      × (s.buffered_bytes ≡ 0)
      × (s.retained_fragments ≡ 0)
push_all-packets zstd l frame channel sequence timestamp now ps a e =
    let f = sent_fits zstd l frame channel sequence timestamp now a e in
    let more : ℕ = packet_count frame - 1 in
    let d =
      push_frame zstd l frame channel sequence timestamp now (packet_count frame) more (omega arith)
        f (omega arith, omega arith, omega arith) in
    (
      final_state zstd l frame channel sequence timestamp now,
      rw (sent_all frame channel sequence timestamp ps e) at d,
      unfold final_state in refl,
      unfold final_state in refl,
      unfold final_state in refl,
    )
