-- ===== src/Push/Mcs.antt =====
-- McsParser of mega/android-push/parser.ts: the framing of Google's MCS stream. `read_int32` is what
-- protobufjs's Reader.int32 finds at the start of the buffer, and `decode` what its types make of a
-- stanza's bytes, `none` where they throw. After a throw the socket is destroyed and the parser reset,
-- so only the messages emitted before it are kept.
pub mod Framing
pub mod Stream
mod Runs
use eufy_mega_security.Prelude.{
  ℕ, zero, suc, ◌+◌, ◌-◌, ◌*◌, Bool, false, ◌||◌, Option, none, some, List, [], ◌∷◌, ◌++◌, take,
  drop, length, ltb, leb, nat_eq, if◌then◌else◌,
}
use eufy_mega_security.Prelude.Bytes.{Bytes}
use eufy_mega_security.Prelude.Int.{ℤ, pos, negsuc}

abbrev pub max_buffer_bytes : ℕ
max_buffer_bytes = 4 * 1024 * 1024

abbrev pub max_frame_bytes : ℕ
max_frame_bytes = 2 * 1024 * 1024

pub data Phase : Type 0 where
  version_tag_and_size tag_and_size size proto_bytes : Phase

pub record Parser : Type 0 where
  pub buffer : Bytes
  pub phase : Phase
  pub message_tag : ℤ
  pub message_size : ℕ
  pub size_packet_so_far : ℕ

-- A size and the reader's position behind it; a buffer that ends inside it, with the position; or what
-- else the reader throws.
pub data Varint : Type 0 where
  value : ℤ → ℕ → Varint
  short : ℕ → Varint
  broken : Varint

unfoldable pub reset : Parser
reset = record {
  buffer = [];
  phase = version_tag_and_size;
  message_tag = pos 0;
  message_size = 0;
  size_packet_so_far = 0;
}

unfoldable pub signed8 : ℕ → ℤ
signed8 b = if ltb b 128 then pos b else negsuc (255 - b)

unfoldable pub bytes_for : Phase → Parser → ℕ
bytes_for version_tag_and_size p = 3
bytes_for tag_and_size p = 2
bytes_for size p = p.size_packet_so_far + 1
bytes_for proto_bytes p = p.message_size

unfoldable pub min_bytes_needed : Parser → ℕ
unfolding bytes_for
min_bytes_needed p = bytes_for p.phase p

-- The tags that TAG_TO_TYPE names.
unfoldable pub has_type : ℤ → Bool
has_type (pos t) = leb t 4 || nat_eq t 7 || nat_eq t 8 || nat_eq t 10
has_type (negsuc t) = false

-- The object of a tag without a type, and of an empty message, is `{}`, which is `none`.
pub record Message {ℓ} (Object : Type ℓ) : Type ℓ where
  pub tag : ℤ
  pub object : Option Object

-- `running` is no value of the program: the parser has not come to rest within its fuel.
pub data Outcome {ℓ} (Object : Type ℓ) : Type ℓ where
  rests : Parser → List (Message Object) → Outcome Object
  thrown : List (Message Object) → Outcome Object
  running : Outcome Object

-- What one call of a state's handler does: it waits for more bytes, throws, or goes on to
-- `waitForData` with the message that it emitted.
pub data Round {ℓ} (Object : Type ℓ) : Type ℓ where
  stays : Parser → Round Object
  throws : Round Object
  goes : Option (Message Object) → Parser → Round Object

unfoldable pub after {ℓ} : {O : Type ℓ} → Option (Message O) → Outcome O → Outcome O
after none o = o
after (some m) (rests p ms) = rests p (m ∷ ms)
after (some m) (thrown ms) = thrown (m ∷ ms)
after (some m) running = running

unfoldable pub next : Parser → Parser
next p = record p { phase = tag_and_size }

module _ {ℓ} {O : Type ℓ} (read_int32 : Bytes → Varint) (decode : ℤ → Bytes → Option O) where
  -- The object of a complete stanza; `none` where its type throws.
  unfoldable pub stanza : ℤ → Bytes → Option (Option O)
  stanza tag body =
      if has_type tag
      then elim (decode tag body) [ none ↦ none | some o ↦ some (some o) ]
      else some none

  unfoldable pub emit_stanza : ℤ → Option (Option O) → Parser → Round O
  emit_stanza tag none p = throws
  emit_stanza tag (some object) p = goes (some (record { tag = tag; object = object })) (next p)

  unfoldable pub on_bytes : Parser → Round O
  on_bytes p =
      if nat_eq p.message_size 0
      then goes (some (record { tag = p.message_tag; object = none })) (next p)
      else if ltb (length p.buffer) p.message_size
      then stays (record p { phase = proto_bytes })
      else emit_stanza p.message_tag (stanza p.message_tag (take p.message_size p.buffer))
          (record p { buffer = drop p.message_size p.buffer })

  -- A size that is read, with the reader's position behind it.
  unfoldable pub with_size : Parser → ℕ → ℕ → Round O
  with_size p n k =
      let sized : Parser = record p {
        buffer = drop k p.buffer;
        message_size = n;
        size_packet_so_far = 0;
      } in
      if ltb max_frame_bytes n
      then throws
      else if nat_eq n 0
      then on_bytes sized
      else goes none (record sized { phase = proto_bytes })

  unfoldable pub take_size : Parser → Varint → Round O
  take_size p (value (pos n) k) = with_size p n k
  take_size p (value (negsuc n) k) = throws
  take_size p (short k) = goes none (record p { phase = size; size_packet_so_far = k })
  take_size p broken = throws

  unfoldable pub on_size : Parser → Round O
  on_size p = take_size p (read_int32 p.buffer)

  unfoldable pub on_tag : Parser → Round O
  on_tag p = elim p.buffer [
    | [] ↦ throws
    | b ∷ rest ↦ on_size (record p { buffer = rest; message_tag = signed8 b })
  ]

  -- A version byte of 128 and above is read as a negative number.
  unfoldable pub on_version : Parser → Round O
  on_version p = elim p.buffer [
    | [] ↦ throws
    | b ∷ rest ↦ if leb 128 b || ltb b 38 then throws else on_tag (record p { buffer = rest })
  ]

  unfoldable pub dispatch : Phase → Parser → Round O
  dispatch version_tag_and_size p = on_version p
  dispatch tag_and_size p = on_tag p
  dispatch size p = on_size p
  dispatch proto_bytes p = on_bytes p

  unfoldable pub follow : (Parser → Outcome O) → Round O → Outcome O
  follow rest (stays q) = rests q []
  follow rest throws = thrown []
  follow rest (goes m q) = after m (rest q)

  unfoldable pub wait_for_data : ℕ → Parser → Outcome O
  wait_for_data zero p = running
  wait_for_data (suc fuel) p =
      let rest = wait_for_data fuel in
      if ltb (length p.buffer) (min_bytes_needed p)
      then rests p []
      else follow rest (dispatch p.phase p)

  -- Two rounds for each byte are enough.
  unfoldable pub handle_data : Bytes → Parser → Outcome O
  handle_data chunk p =
      if ltb max_buffer_bytes (length p.buffer + length chunk)
      then thrown []
      else wait_for_data (2 * length (p.buffer ++ chunk) + 3)
          (record p { buffer = p.buffer ++ chunk })
