-- ===== src/Ppcs/AccessUnits/Runs.antt =====
-- A unit in three chunks behind an unfinished one, and the theorems at concrete inputs.
use eufy_mega_security.Prelude.{
  ℕ, ◌+◌, ◌*◌, ◌≡◌, refl, arith, true, false, Option, some, List, [], ◌∷◌, ◌++◌, length, drop,
}
use eufy_mega_security.Prelude.Bytes.{Bytes}
use eufy_mega_security.Prelude.Int.{pos}
use eufy_mega_security.Ppcs.AccessUnits.{
  FrameHeader, OpenUnit, Assembler, concat, discard, unit_of, joins, push, decoded,
  begins_access_unit, same_access_unit,
}
use eufy_mega_security.Ppcs.AccessUnits.Conservation.{
  run, fresh, run_conserves, total_input, open_bytes, unit_bytes, dropped_bytes, UnitInv,
}
use eufy_mega_security.Ppcs.AccessUnits.Reassembly.{
  Opens, Middle, Continues, done, more, run_reassembles,
}

-- A 22-byte header with this length and sequence, 640 by 480, and the body behind it.
abbrev payload_of : ℕ → ℕ → Bytes → Bytes
payload_of high sequence body =
    0 ∷ high ∷ 0 ∷ 0 ∷ 1 ∷ 0 ∷ sequence ∷ 0 ∷ 0 ∷ 0 ∷ 128 ∷ 2 ∷ 224 ∷ 1 ∷ 9 ∷ 0 ∷ 0 ∷ 0 ∷ 0 ∷ 0 ∷ 0
    ∷ 0 ∷ body

abbrev header_of : ℕ → ℕ → FrameHeader
header_of high sequence = record {
  payload_length = 256 * high;
  keyframe = true;
  stream_type = 0;
  sequence = sequence;
  width = pos 640;
  height = pos 480;
  timestamp = 9;
}

abbrev strip : Bytes → Option Bytes
strip payload = some (drop 22 payload)

abbrev start_body : Bytes
start_body = 0 ∷ 0 ∷ 1 ∷ 103 ∷ []

abbrev stale : Option OpenUnit
stale = some (record { header = header_of 250 3; chunks = (7 ∷ []) ∷ []; carried_bytes = 1 })

abbrev with_stale : Assembler
with_stale = record { open_unit = stale; total_dropped = 4; emit_chunks = false }

Opens-example : Opens strip (header_of 250 5) (payload_of 250 5 start_body) start_body
Opens-example = record {
  decodes = unfold decoded in refl;
  starts = unfold begins_access_unit in refl;
  size = refl;
}

Continues-example :
    Continues strip (header_of 250 5) true (payload_of 250 5 (1 ∷ [])) (header_of 250 5) (1 ∷ [])
Continues-example = record {
  decodes = unfold decoded in refl;
  same = unfold same_access_unit in refl;
  inside = unfold begins_access_unit in refl;
  size = refl;
}

Middle-example : Middle strip (header_of 250 5) (payload_of 250 5 (1 ∷ []) ∷ []) ((1 ∷ []) ∷ [])
Middle-example = more (header_of 250 5) Continues-example done

ends_example :
    Continues strip (header_of 250 5) false (payload_of 1 5 (2 ∷ [])) (header_of 1 5) (2 ∷ [])
ends_example = record {
  decodes = unfold decoded in refl;
  same = unfold same_access_unit in refl;
  inside = unfold begins_access_unit in refl;
  size = refl;
}

abbrev session : List Bytes
session = payload_of 250 5 start_body ∷ payload_of 250 5 (1 ∷ []) ∷ payload_of 1 5 (2 ∷ []) ∷ []

session_units :
    (run strip session with_stale).units
    ≡ unit_of (header_of 250 5) (0 ∷ 0 ∷ 1 ∷ 103 ∷ 1 ∷ 2 ∷ []) ∷ []
unfolding push joins
session_units = refl

run_reassembles_example : run strip session with_stale ≡ record {
  assembler = (discard with_stale).0;
  units = unit_of (header_of 250 5) (start_body ++ concat ((1 ∷ []) ∷ (2 ∷ []) ∷ [])) ∷ [];
  drops = (discard with_stale).1;
}
run_reassembles_example =
    run_reassembles strip (header_of 250 5) (payload_of 250 5 start_body) start_body
      (payload_of 250 5 (1 ∷ []) ∷ []) ((1 ∷ []) ∷ []) (payload_of 1 5 (2 ∷ [])) (header_of 1 5)
      (2 ∷ []) stale 4 Opens-example Middle-example ends_example (omega arith)

run_conserves_example :
    (total_input strip session
      ≡ open_bytes (run strip session (fresh false)).assembler.open_unit
        + unit_bytes (run strip session (fresh false)).units
        + dropped_bytes (run strip session (fresh false)).drops)
    × ((run strip session (fresh false)).assembler.total_dropped
        ≡ length (run strip session (fresh false)).drops)
    × UnitInv (run strip session (fresh false)).assembler.open_unit
run_conserves_example = run_conserves strip session false
