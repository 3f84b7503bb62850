-- ===== src/Nvr/Ptcs/Runs.antt =====
-- A small frame and a damaged one, and the theorems at concrete inputs.
use eufy_mega_security.Prelude.{
  Eq_ℕ, ℕ, ◌-◌, ◌%◌, ◌^◌, ◌≡◌, refl, arith, true, Option, none, some, List, [], ◌∷◌, ◌++◌,
  replicate,
}
use eufy_mega_security.Prelude.Bytes.{Bytes}
use eufy_mega_security.Nvr.Ptcs.{
  Rejection, Reassembler, Answer, incomplete, rejects, complete, default_limits, fresh, construct,
  valid_limits, Eq_FrameKey, Eq_Rejection,
}
use eufy_mega_security.Nvr.Ptcs.Packet.{check, packet_of, check_header, check_length, check_limits}
use eufy_mega_security.Nvr.Ptcs.State.{
  sweep_pending, sweep_tombstones, sweep, expire, reject, release, remember, poison,
}
use eufy_mega_security.Nvr.Ptcs.Push.{
  has_from, assemble, conclude, add, after_final, store, no_room, new_frame, admit, accept, receive,
  push,
}
use eufy_mega_security.Nvr.Ptcs.Sender.{encode, packets, packets_from, refuses, packet_count}
use eufy_mega_security.Nvr.Ptcs.Budgets.{Inv}
use eufy_mega_security.Nvr.Ptcs.Budgets.Calls.{pushes, expires, run, run-construct-Inv}
use eufy_mega_security.Nvr.Ptcs.Delivery.{Admits, push_all-packets}
use eufy_mega_security.Nvr.Ptcs.Frames.{push_all}

abbrev no_zstd : ℕ → Bytes → Option Bytes
no_zstd limit bytes = none

abbrev small_frame : Bytes
small_frame = 11 ∷ 22 ∷ 33 ∷ []

abbrev small_packet : Bytes
small_packet = encode 2 7 900 3 0 true small_frame

small_packets : packets small_frame 7 900 2 ≡ some (small_packet ∷ [])
unfolding packets packets_from refuses
small_packets = refl

-- A fragment marked final at index 0 of a frame of five bytes is too short for it.
short_frame : Option (List Answer)
short_frame =
    elim (push_all no_zstd 5 (encode 2 7 900 5 0 true small_frame ∷ small_packet ∷ [])
      (fresh default_limits)) [ none ↦ none | some (s, answers) ↦ some answers ]

short_frame_poisons :
    short_frame ≡ some (rejects Rejection.length ∷ rejects Rejection.poisoned ∷ [])
unfolding short_frame push expire sweep sweep_pending sweep_tombstones fresh receive check
    check_header check_length check_limits packet_of encode accept admit no_room new_frame store
    after_final add conclude assemble has_from poison reject release remember
short_frame_poisons = refl

small_Admits : Admits default_limits small_frame 5
small_Admits = record {
  valid = unfold valid_limits in refl;
  in_frame = omega arith;
  in_fragments = omega arith;
  in_retained = omega arith;
  clock = omega arith;
}

push_all-packets_example :
    (s : Reassembler) × (push_all no_zstd 5 (small_packet ∷ []) (fresh default_limits)
      ≡ some (
        s,
        replicate (packet_count small_frame - 1) incomplete
            ++ (complete 2 7 (900 % 2 ^ 32) small_frame ∷ []),
      ))
    × (s.pending ≡ [])
    × (s.buffered_bytes ≡ 0)
    × (s.retained_fragments ≡ 0)
push_all-packets_example =
    push_all-packets no_zstd default_limits small_frame 2 7 900 5 (small_packet ∷ []) small_Admits
      small_packets

default_constructs : construct default_limits ≡ some (fresh default_limits)
unfolding construct
default_constructs = refl

run-construct-Inv_example :
    Inv (run no_zstd (fresh default_limits) (pushes small_packet 5 ∷ expires 2000 ∷ []))
run-construct-Inv_example =
    run-construct-Inv no_zstd default_limits (fresh default_limits)
      (pushes small_packet 5 ∷ expires 2000 ∷ []) default_constructs
