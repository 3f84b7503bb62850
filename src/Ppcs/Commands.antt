-- ===== src/Ppcs/Commands.antt =====
-- The reassembly of XZYH commands in the PPCS session of stream/first-party-ppcs.ts: `#consumeData`, with
-- ppcsPartialCommandPrefix, ppcsCommandMagicOffset, ppcsFrameChannel and `#updatePendingBytes`. The calls of
-- `#handleFrame` are the frames that an operation returns, in order.
pub mod Streams
mod Runs
use eufy_mega_security.Prelude.{
  ℕ, zero, suc, ◌+◌, ◌-◌, Bool, true, not, ◌&&◌, ◌||◌, Option, none, some, List, [], ◌∷◌, ◌++◌, ltb,
  leb, nat_eq, Eq_ℕ, min, if◌then◌else◌, length, take, drop,
}
use eufy_mega_security.Prelude.Bytes.{Bytes, byte_at, bytes_eq, read_u16, read_u32}
use eufy_mega_security.Prelude.JsMap.{JsMap, get, put, remove}

-- "XZYH".
abbrev pub command_magic : Bytes
command_magic = 88 ∷ 90 ∷ 89 ∷ 72 ∷ []

pub record PendingFrame : Type 0 where
  pub header : Option Bytes
  pub payload : Bytes

-- The part of the session's statistics that the parser writes.
pub record ParserStats : Type 0 where
  pub commands : List ℕ
  pub response_lengths : List ℕ
  pub parser_resyncs : ℕ
  pub parser_blocked : Bool
  pub pending_bytes : ℕ

pub record Frame : Type 0 where
  pub header : Bytes
  pub payload : Bytes

pub begins_with_magic : Bytes → Bool
begins_with_magic b = bytes_eq (take 4 b) command_magic

unfoldable pub frame_channel : Bytes → Option ℕ
unfolding begins_with_magic
frame_channel frame =
    if leb 16 (length frame) && begins_with_magic frame then some (byte_at frame 12) else none

-- The loop of ppcsPartialCommandPrefix, from `len` down to 1.
pub longest_prefix : ℕ → Bytes → Option Bytes
longest_prefix zero data_left = none
longest_prefix (suc len) data_left =
    let shorter = longest_prefix len data_left in
    if bytes_eq (drop (length data_left - suc len) data_left) (take (suc len) command_magic)
    then some (drop (length data_left - suc len) data_left)
    else shorter

unfoldable pub partial_command_prefix : Bytes → Option Bytes
unfolding begins_with_magic longest_prefix
partial_command_prefix b =
    if nat_eq (length b) 0 || leb 16 (length b)
    then none
    else if leb 4 (length b) && begins_with_magic b
    then some b
    else longest_prefix (min (length b) 4) b

-- `indexOf(MAGIC)`; -1 is `none`.
unfoldable pub magic_offset : Bytes → Option ℕ
unfolding begins_with_magic
magic_offset [] = none
magic_offset (byte ∷ b) =
    let rest = magic_offset b in
    if begins_with_magic (byte ∷ b)
    then some 0
    else (elim rest [ none ↦ none | some n ↦ some (suc n) ])

pub push_below : ℕ → ℕ → List ℕ → List ℕ
push_below limit value values = if ltb (length values) limit then values ++ (value ∷ []) else values

pub count_command : ℕ → ℕ → ParserStats → ParserStats
unfolding push_below
count_command command size s = record s {
  commands = push_below 20 command s.commands;
  response_lengths =
      if nat_eq command 1350 then push_below 5 size s.response_lengths else s.response_lengths;
}

-- Whether the parser has returned, and with which pending frame of the type.
pub data Halt : Type 0 where
  goes_on : Halt
  halts : Option PendingFrame → Halt

pub record Scan : Type 0 where
  pub frames : List Frame
  pub stats : ParserStats
  pub body : Bytes
  pub halt : Halt

pub before_scan : Frame → Scan → Scan
before_scan f s = record s { frames = f ∷ s.frames }

pub max_command_bytes : ℕ
max_command_bytes = 16777216

-- The inner loop: complete commands at the front. Each round takes 16 bytes or more, so the length is
-- enough fuel.
pub scan_commands : ℕ → Bytes → ParserStats → Scan
unfolding begins_with_magic count_command before_scan max_command_bytes
scan_commands zero body s = record { frames = []; stats = s; body = body; halt = goes_on }
scan_commands (suc fuel) body s =
    let header = take 16 body in
    let size = read_u32 header 6 in
    let payload = drop 16 body in
    let s' = count_command (read_u16 header 4) size s in
    let rest = scan_commands fuel (drop size payload) s' in
    if not (leb 16 (length body) && begins_with_magic body)
    then record { frames = []; stats = s; body = body; halt = goes_on }
    else if ltb max_command_bytes size
    then record { frames = []; stats = s'; body = body; halt = halts none }
    else if ltb (length payload) size
    then record {
      frames = [];
      stats = s';
      body = body;
      halt = halts (some (record { header = some header; payload = payload }));
    }
    else before_scan (record { header = header; payload = take size payload }) rest

-- What one call leaves: the frames, the statistics and the type's pending frame.
pub record Consumed : Type 0 where
  pub frames : List Frame
  pub stats : ParserStats
  pub pending : Option PendingFrame

pub blocked : ParserStats → ParserStats
blocked s = record s { parser_blocked = true; parser_resyncs = s.parser_resyncs + 1 }

pub keep_prefix : Option Bytes → Scan → Consumed
unfolding blocked
keep_prefix none r = record { frames = r.frames; stats = blocked r.stats; pending = none }
keep_prefix (some prefix) r = record {
  frames = r.frames;
  stats = r.stats;
  pending = some (record { header = none; payload = prefix });
}

-- The outer loop once it has resynced, or cannot.
pub settle_scan : Halt → Scan → Consumed
unfolding keep_prefix
settle_scan (halts pending) r = record { frames = r.frames; stats = r.stats; pending = pending }
settle_scan goes_on r =
    if nat_eq (length r.body) 0
    then record { frames = r.frames; stats = r.stats; pending = none }
    else keep_prefix (partial_command_prefix r.body) r

pub frames_before : List Frame → Consumed → Consumed
frames_before fs c = record c { frames = fs ++ c.frames }

pub resync : ℕ → Scan → Consumed
unfolding frames_before settle_scan
resync offset r =
    let body = drop offset r.body in
    let s = r.stats in
    let r' =
      scan_commands (length body) body (record s { parser_resyncs = s.parser_resyncs + 1 }) in
    frames_before r.frames (settle_scan r'.halt r')

-- The first round of the outer loop: the offset of a marker decides whether to resync.
pub try_resync : Option ℕ → Scan → Consumed
unfolding resync settle_scan
try_resync (some (suc n)) r = resync (suc n) r
try_resync (some zero) r = settle_scan goes_on r
try_resync none r = settle_scan goes_on r

pub finish_scan : Halt → Scan → Consumed
unfolding settle_scan try_resync
finish_scan (halts pending) r = settle_scan (halts pending) r
finish_scan goes_on r = try_resync (magic_offset r.body) r

pub consume_body : Bytes → ParserStats → Consumed
unfolding finish_scan
consume_body body s = let r = scan_commands (length body) body s in finish_scan r.halt r

pub complete_carried : Bytes → Bytes → ParserStats → Consumed
unfolding consume_body frames_before
complete_carried header payload s =
    let size = read_u32 header 6 in
    if ltb (length payload) size
    then record {
      frames = [];
      stats = s;
      pending = some (record { header = some header; payload = payload });
    }
    else frames_before (record { header = header; payload = take size payload } ∷ [])
        (consume_body (drop size payload) s)

pub consume_carried : Option Bytes → Bytes → Bytes → ParserStats → Consumed
unfolding complete_carried consume_body
consume_carried none carried body s = consume_body (carried ++ body) s
consume_carried (some header) carried body s = complete_carried header (carried ++ body) s

pub consume : Option PendingFrame → Bytes → ParserStats → Consumed
unfolding consume_carried
consume none body s = consume_body body s
consume (some carried) body s = consume_carried carried.header carried.payload body s

pub record Parser : Type 0 where
  pub pending_by_type : JsMap ℕ PendingFrame
  pub stats : ParserStats

pub header_length : Option Bytes → ℕ
header_length none = 0
header_length (some header) = length header

unfoldable pub total_pending : JsMap ℕ PendingFrame → ℕ
unfolding header_length
total_pending [] = 0
total_pending ((type, value) ∷ m) =
    header_length value.header + length value.payload + total_pending m

pub put_pending : ℕ → Option PendingFrame → JsMap ℕ PendingFrame → JsMap ℕ PendingFrame
put_pending type none m = m
put_pending type (some value) m = put type value m

-- `#consumeData`.
unfoldable pub consume_data : Bytes → ℕ → Parser → Parser × List Frame
unfolding consume put_pending total_pending
consume_data body type p =
    let r = consume (get type p.pending_by_type) body p.stats in
    let pending = put_pending type r.pending (remove type p.pending_by_type) in
    let s = r.stats in
    (
      record {
        pending_by_type = pending;
        stats = record s { pending_bytes = total_pending pending };
      },
      r.frames,
    )

-- A skipped gap or restart of the type's datagrams.
unfoldable pub discard_partial : ℕ → Parser → Parser
discard_partial type p =
    let pending = remove type p.pending_by_type in
    let s = p.stats in
    record { pending_by_type = pending; stats = record s { pending_bytes = total_pending pending } }
