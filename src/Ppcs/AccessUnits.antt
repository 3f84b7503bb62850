-- ===== src/Ppcs/AccessUnits.antt =====
-- stream/ppcs-access-unit-assembler.ts. The `decode` callback is the argument `decode`, and the
-- calls of `onDropped` are the drops that an operation returns. Each `push` is given its `decode`; the runs
-- give every one the same, a function of the payload.
pub mod Conservation
pub mod Reassembly
mod Runs
use eufy_mega_security.Prelude.{
  ℕ, ◌+◌, ◌*◌, Bool, not, ◌&&◌, ◌||◌, Option, none, some, List, [], ◌∷◌, ◌++◌, ltb, leb, nat_eq,
  if◌then◌else◌, length,
}
use eufy_mega_security.Prelude.Bytes.{Bytes, byte_at, read_u16, read_u32, bit}
use eufy_mega_security.Prelude.Int.{ℤ, read_i16}

abbrev pub station_chunk_bytes : ℕ
station_chunk_bytes = 64000

abbrev pub max_access_unit_bytes : ℕ
max_access_unit_bytes = 16 * 1024 * 1024

abbrev pub video_frame_header_bytes : ℕ
video_frame_header_bytes = 22

pub record FrameHeader : Type 0 where
  pub payload_length : ℕ
  pub keyframe : Bool
  pub stream_type : ℕ
  pub sequence : ℕ
  pub width : ℤ
  pub height : ℤ
  pub timestamp : ℕ

pub record AccessUnit : Type 0 where
  pub timestamp : ℕ
  pub keyframe : Bool
  pub stream_type : ℕ
  pub width : ℤ
  pub height : ℤ
  pub content : Bytes

pub record Dropped : Type 0 where
  pub carried_bytes : ℕ
  pub chunk_count : ℕ
  pub total_dropped : ℕ

pub parse_header : Bytes → Option FrameHeader
parse_header payload =
    if ltb (length payload) video_frame_header_bytes
    then none
    else some (record {
      payload_length = read_u32 payload 0;
      keyframe = bit 0 (byte_at payload 4);
      stream_type = byte_at payload 5;
      sequence = read_u16 payload 6;
      width = read_i16 payload 10;
      height = read_i16 payload 12;
      timestamp = read_u32 payload 14;
    })

pub record OpenUnit : Type 0 where
  pub header : FrameHeader
  pub chunks : List Bytes
  pub carried_bytes : ℕ

pub record Assembler : Type 0 where
  pub open_unit : Option OpenUnit
  pub total_dropped : ℕ
  pub emit_chunks : Bool

-- What one call does: the new state, the units that it returns, and the drops that it reports.
pub record Pushed : Type 0 where
  pub assembler : Assembler
  pub units : List AccessUnit
  pub drops : List Dropped

pub same_access_unit : FrameHeader → FrameHeader → Bool
same_access_unit first next =
    nat_eq first.sequence next.sequence && nat_eq first.timestamp next.timestamp

-- An Annex B start code of three or four bytes.
pub begins_access_unit : Bytes → Bool
begins_access_unit body =
    leb 4 (length body)
    && nat_eq (byte_at body 0) 0
    && nat_eq (byte_at body 1) 0
    && (nat_eq (byte_at body 2) 1 || (nat_eq (byte_at body 2) 0 && nat_eq (byte_at body 3) 1))

pub unit_of : FrameHeader → Bytes → AccessUnit
unit_of h content = record {
  timestamp = h.timestamp;
  keyframe = h.keyframe;
  stream_type = h.stream_type;
  width = h.width;
  height = h.height;
  content = content;
}

-- `Buffer.concat(chunks)`
abbrev pub concat : List Bytes → Bytes
concat [] = []
concat (c ∷ cs) = c ++ concat cs

-- `#discard`
pub discard : Assembler → Assembler × List Dropped
discard a = elim a.open_unit [
  | none ↦ (a, [])
  | some u ↦ (
    record a { open_unit = none; total_dropped = a.total_dropped + 1 },
    record {
      carried_bytes = u.carried_bytes;
      chunk_count = length u.chunks;
      total_dropped = a.total_dropped + 1;
    }
        ∷ [],
  )
]

-- `#openFull`
pub open_full : FrameHeader → Bytes → Assembler → Assembler
open_full h body a = record a {
  open_unit = some (record { header = h; chunks = body ∷ []; carried_bytes = length body });
}

-- After the open unit is discarded: a full chunk opens a new unit, and any other is one.
pub begin_unit : FrameHeader → Bytes → Assembler → Pushed
unfolding discard open_full unit_of
begin_unit h body a =
    let (a', drops) = discard a in
    if nat_eq h.payload_length station_chunk_bytes
    then record { assembler = open_full h body a'; units = []; drops = drops }
    else record { assembler = a'; units = unit_of h body ∷ []; drops = drops }

-- A chunk that continues the open unit.
pub continue_unit : FrameHeader → Bytes → OpenUnit → Assembler → Pushed
unfolding begin_unit unit_of
continue_unit h body u a =
    let next_bytes = u.carried_bytes + length body in
    let chunks = u.chunks ++ body ∷ [] in
    if ltb max_access_unit_bytes next_bytes
    then begin_unit h body a
    else if nat_eq h.payload_length station_chunk_bytes
    then record {
      assembler = record a {
        open_unit =
            some (record { header = u.header; chunks = chunks; carried_bytes = next_bytes });
      };
      units = [];
      drops = [];
    }
    else record {
      assembler = record a { open_unit = none };
      units = unit_of u.header (concat chunks) ∷ [];
      drops = [];
    }

pub joins : FrameHeader → Bytes → OpenUnit → Bool
unfolding same_access_unit begins_access_unit
joins h body u = same_access_unit u.header h && not (begins_access_unit body)

pub place : FrameHeader → Bytes → Option OpenUnit → Assembler → Pushed
unfolding begin_unit continue_unit
place h body none a = begin_unit h body a
place h body (some u) a = if joins h body u then continue_unit h body u a else begin_unit h body a

-- With `emitChunks` each chunk is a unit of its own.
pub emit : FrameHeader → Bytes → Assembler → Pushed
unfolding discard unit_of
emit h body a =
    let (a', drops) = discard a in
    record { assembler = a'; units = unit_of h body ∷ []; drops = drops }

-- A payload with a header whose decoded body is not empty.
pub push_body : FrameHeader → Bytes → Assembler → Pushed
unfolding place emit
push_body h body a = if a.emit_chunks then emit h body a else place h body a.open_unit a

pub reset : Assembler → Pushed
unfolding discard
reset a = let (a', drops) = discard a in record { assembler = a'; units = []; drops = drops }

pub decoded : (Bytes → Option Bytes) → Bytes → Option (FrameHeader × Bytes)
unfolding parse_header
decoded decode payload = elim (parse_header payload) [
  | none ↦ none
  | some h ↦ elim (decode payload) [
    | none ↦ none
    | some [] ↦ none
    | some (b ∷ body) ↦ some (h, b ∷ body)
  ]
]

pub push : (Bytes → Option Bytes) → Bytes → Assembler → Pushed
unfolding decoded push_body reset
push decode payload a = elim (decoded decode payload) [
  | none ↦ reset a
  | some (h, body) ↦ push_body h body a
]
