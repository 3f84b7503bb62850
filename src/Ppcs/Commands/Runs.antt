-- ===== src/Ppcs/Commands/Runs.antt =====
-- Two commands cut inside a marker and inside a payload, junk before a marker, and the theorem at a concrete
-- stream: `#consumeData` of stream/first-party-ppcs.ts.
use eufy_mega_security.Prelude.{◌≡◌, refl, true, false, some, List, [], ◌∷◌, ◌++◌, arith, Eq_ℕ, All}
use eufy_mega_security.Prelude.Bytes.{Bytes}
use eufy_mega_security.Ppcs.Commands.{
  scan_commands, magic_offset, begins_with_magic, command_magic, ParserStats, Frame, Parser,
  consume_data, frame_channel,
}
use eufy_mega_security.Ppcs.Commands.Streams.{WellFormed, flat}
use eufy_mega_security.Ppcs.Commands.Streams.Reassembly.{Reassembles, feed, joined, feed-flat}

abbrev quiet : ParserStats
quiet = record {
  commands = [];
  response_lengths = [];
  parser_resyncs = 0;
  parser_blocked = false;
  pending_bytes = 0;
}

abbrev idle : Parser
idle = record { pending_by_type = []; stats = quiet }

-- Commands 1350 and 1300 of channel 2, with a payload of two bytes and of none.
abbrev reply : Frame
reply = record {
  header = command_magic ++ (70 ∷ 5 ∷ 2 ∷ 0 ∷ 0 ∷ 0 ∷ 1 ∷ 0 ∷ 2 ∷ 0 ∷ 0 ∷ 0 ∷ []);
  payload = 8 ∷ 9 ∷ [];
}

abbrev media : Frame
media = record {
  header = command_magic ++ (20 ∷ 5 ∷ 0 ∷ 0 ∷ 0 ∷ 0 ∷ 1 ∷ 0 ∷ 2 ∷ 0 ∷ 0 ∷ 0 ∷ []);
  payload = [];
}

abbrev cut : List Bytes
cut =
    (88 ∷ 90 ∷ [])
    ∷ (89 ∷ 72 ∷ 70 ∷ 5 ∷ 2 ∷ 0 ∷ 0 ∷ 0 ∷ 1 ∷ 0 ∷ 2 ∷ 0 ∷ 0 ∷ 0 ∷ 8 ∷ [])
    ∷ (9 ∷ (command_magic ++ (20 ∷ 5 ∷ 0 ∷ 0 ∷ 0 ∷ 0 ∷ 1 ∷ 0 ∷ 2 ∷ 0 ∷ 0 ∷ 0 ∷ [])))
    ∷ []

reply_channel : frame_channel reply.header ≡ some 2
unfolding frame_channel
reply_channel = refl

marked_reply : begins_with_magic reply.header ≡ true
unfolding begins_with_magic
marked_reply = refl

marked_media : begins_with_magic media.header ≡ true
unfolding begins_with_magic
marked_media = refl

commands_valid : All WellFormed (reply ∷ media ∷ [])
commands_valid = (
  record { sixteen = refl; marked = marked_reply; sized = refl; small = omega arith },
  (record { sixteen = refl; marked = marked_media; sized = refl; small = omega arith }, tt),
)

cut_is_flat : joined cut ≡ flat (reply ∷ media ∷ [])
unfolding joined flat
cut_is_flat = refl

feed-flat_example : Reassembles 0 idle (reply ∷ media ∷ []) (feed 0 cut idle)
feed-flat_example = feed-flat 0 cut idle (reply ∷ media ∷ []) tt refl commands_valid cut_is_flat

-- Three stray bytes before a marker are dropped by the one recovery attempt.
stray_bytes :
    let r = consume_data (1 ∷ 2 ∷ 3 ∷ media.header) 0 idle in
    (r.1 ≡ media ∷ []) × (r.0.stats.parser_resyncs ≡ 1) × (r.0.stats.parser_blocked ≡ false)
unfolding consume_data scan_commands magic_offset
stray_bytes = (refl, refl, refl)
