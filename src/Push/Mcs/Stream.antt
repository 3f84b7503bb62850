-- ===== src/Push/Mcs/Stream.antt =====
-- Streams of whole frames through McsParser.
use eufy_mega_security.Prelude.{
  ℕ, suc, ◌+◌, ◌-◌, ◌*◌, ◌≤◌, Option, none, some, List, [], ◌∷◌, ◌++◌, ◌≡◌, refl, sym, ap, ◌∙◌,
  arith, length, map, length-append, take-length_append, drop-length_append, ltb-false,
  nat_eq-false,
}
use eufy_mega_security.Prelude.Bytes.{Bytes}
use eufy_mega_security.Prelude.Int.{ℤ, pos}
use eufy_mega_security.Push.Mcs.{
  tag_and_size, proto_bytes, Parser, Varint, value, Message, rests, Round, goes, after, next,
  stanza, emit_stanza, on_bytes, with_size, take_size, on_size, on_tag, dispatch, follow,
  wait_for_data, handle_data, min_bytes_needed, max_frame_bytes, max_buffer_bytes, signed8,
}

-- A message as the server sends it, and what its body decodes to.
pub record Sent {ℓ} (O : Type ℓ) : Type ℓ where
  pub tag : ℕ
  pub body : Bytes
  pub object : Option O

pub message_of {ℓ} : {O : Type ℓ} → Sent O → Message O
message_of s = record { tag = signed8 s.tag; object = s.object }

-- The bytes of the messages, where `encode` writes a size.
unfoldable pub stream {ℓ} : {O : Type ℓ} → (ℕ → Bytes) → List (Sent O) → Bytes
stream encode [] = []
stream encode (s ∷ ms) = s.tag ∷ (encode (length s.body) ++ (s.body ++ stream encode ms))

pub between : Bytes → ℤ → ℕ → ℕ → Parser
between b t n k = record {
  buffer = b;
  phase = tag_and_size;
  message_tag = t;
  message_size = n;
  size_packet_so_far = k;
}

module _ {ℓ} {O : Type ℓ} (read_int32 : Bytes → Varint) (decode : ℤ → Bytes → Option O) where
  -- The body is within the limit and decodes to the object; an empty one has none.
  unfoldable pub CarriesBody : ℕ → Option O → Bytes → Type ℓ
  CarriesBody tag object [] = object ≡ none
  CarriesBody tag object (x ∷ body) =
      stanza read_int32 decode (signed8 tag) (x ∷ body) ≡ some object

  unfoldable pub Carried : List (Sent O) → Type ℓ
  Carried [] = Unit
  Carried (s ∷ ms) =
      (length s.body ≤ max_frame_bytes) × (CarriesBody s.tag s.object s.body × Carried ms)

  rounds : Bytes → ℕ
  rounds [] = 1
  rounds (x ∷ body) = 2

  all_rounds : List (Sent O) → ℕ
  unfolding rounds
  all_rounds [] = 0
  all_rounds (s ∷ ms) = rounds s.body + all_rounds ms

  module _ (encode : ℕ → Bytes)
      (writes : (n : ℕ) (rest : Bytes)
        → n ≤ max_frame_bytes
        → (1 ≤ length (encode n))
          × (read_int32 (encode n ++ rest) ≡ value (pos n) (length (encode n)))) where
    awaiting : ℕ → Bytes → Bytes → Parser
    awaiting tag body rest = record {
      buffer = body ++ rest;
      phase = proto_bytes;
      message_tag = signed8 tag;
      message_size = length body;
      size_packet_so_far = 0;
    }

    on_tag-empty :
        (tag : ℕ) (rest : Bytes) (t : ℤ) (n k : ℕ)
        → on_tag read_int32 decode (between (tag ∷ (encode 0 ++ rest)) t n k)
          ≡ goes
              (some (record { tag = signed8 tag; object = none }))
              (between rest (signed8 tag) 0 0)
    unfolding on_tag on_size take_size with_size on_bytes next between
    on_tag-empty tag rest t n k =
        rw ((writes 0 rest (omega arith)).1, drop-length_append (encode 0) rest) refl

    on_tag-full :
        (tag : ℕ) (body rest : Bytes) (t : ℤ) (n k : ℕ)
        → length body ≤ max_frame_bytes
        → 1 ≤ length body
        → on_tag read_int32 decode (between (tag ∷ (encode (length body) ++ (body ++ rest))) t n k)
          ≡ goes none (awaiting tag body rest)
    unfolding on_tag on_size take_size with_size between awaiting
    on_tag-full tag body rest t n k fits some_ =
        rw
          (
            (writes (length body) (body ++ rest) fits).1,
            drop-length_append (encode (length body)) (body ++ rest),
            ltb-false max_frame_bytes (length body) fits,
            nat_eq-false (length body) 0 (λ e. absurd (omega arith)),
          )
          refl

    on_bytes-full :
        (tag : ℕ) (body rest : Bytes) (object : Option O)
        → 1 ≤ length body
        → stanza read_int32 decode (signed8 tag) body ≡ some object
        → on_bytes read_int32 decode (awaiting tag body rest)
          ≡ goes
              (some (record { tag = signed8 tag; object = object }))
              (between rest (signed8 tag) (length body) 0)
    unfolding on_bytes emit_stanza next between awaiting
    on_bytes-full tag body rest object some_ e =
        rw
          (
            nat_eq-false (length body) 0 (λ z. absurd (omega arith)),
            ltb-false (length (body ++ rest)) (length body)
                (omega (arith, length-append body rest)),
            take-length_append body rest,
            drop-length_append body rest,
            e,
          )
          refl

    wait-round :
        (fuel : ℕ) (p : Parser) (r : Round O)
        → min_bytes_needed p ≤ length p.buffer
        → dispatch read_int32 decode p.phase p ≡ r
        → wait_for_data read_int32 decode (suc fuel) p
          ≡ follow read_int32 decode (wait_for_data read_int32 decode fuel) r
    unfolding wait_for_data
    wait-round fuel p r enough e =
        (rw (ltb-false (length p.buffer) (min_bytes_needed p) enough) refl)
        ∙ ap (follow read_int32 decode (wait_for_data read_int32 decode fuel)) e

    -- One frame is read, and the rest of the stream is waited on.
    wait-frame :
        (fuel tag : ℕ) (body rest : Bytes) (object : Option O) (t : ℤ) (n k : ℕ)
        → length body ≤ max_frame_bytes
        → CarriesBody tag object body
        → wait_for_data read_int32 decode
            (rounds body + fuel)
            (between (tag ∷ (encode (length body) ++ (body ++ rest))) t n k)
          ≡ after
              (some (record { tag = signed8 tag; object = object }))
              (wait_for_data read_int32 decode fuel (between rest (signed8 tag) (length body) 0))
    unfolding CarriesBody rounds follow min_bytes_needed dispatch between awaiting after
    wait-frame fuel tag [] rest object t n k fits carries =
        ap (λ f. wait_for_data read_int32 decode f (between (tag ∷ (encode 0 ++ rest)) t n k))
          {x = 1 + fuel} {y = suc fuel} (omega arith)
        ∙ wait-round fuel (between (tag ∷ (encode 0 ++ rest)) t n k) _
            (omega (arith, length-append (encode 0) rest, (writes 0 rest (omega arith)).0))
            (on_tag-empty tag rest t n k)
        ∙ ap
            (λ o.
              after (some (record { tag = signed8 tag; object = o }))
                (wait_for_data read_int32 decode fuel (between rest (signed8 tag) 0 0)))
            (sym carries)
    wait-frame fuel tag (x ∷ body) rest object t n k fits carries =
        ap
          (λ f.
            wait_for_data read_int32 decode f
              (between (tag ∷ (encode (length (x ∷ body)) ++ ((x ∷ body) ++ rest))) t n k))
          {x = 2 + fuel} {y = suc (suc fuel)} (omega arith)
        ∙ wait-round (suc fuel)
            (between (tag ∷ (encode (length (x ∷ body)) ++ ((x ∷ body) ++ rest))) t n k) _
            (omega (
              arith,
              length-append (encode (length (x ∷ body))) ((x ∷ body) ++ rest),
              (writes (length (x ∷ body)) rest fits).0,
            ))
            (on_tag-full tag (x ∷ body) rest t n k fits (omega arith))
        ∙ wait-round fuel (awaiting tag (x ∷ body) rest) _
            (omega (arith, length-append (x ∷ body) rest))
            (on_bytes-full tag (x ∷ body) rest object (omega arith) carries)

    wait-stream :
        (ms : List (Sent O)) (fuel : ℕ) (t : ℤ) (n k : ℕ)
        → Carried ms
        → (q : Parser) × ((q.buffer ≡ [])
            × ((q.phase ≡ tag_and_size)
                × (wait_for_data read_int32 decode
                      (all_rounds ms + suc fuel)
                      (between (stream encode ms) t n k)
                    ≡ rests q (map message_of ms))))
    unfolding Carried all_rounds stream message_of between wait_for_data min_bytes_needed after
    wait-stream [] fuel t n k carried = (
      between [] t n k,
      (
        refl,
        (
          refl,
          ap (λ f. wait_for_data read_int32 decode f (between [] t n k)) {x = 0 + suc fuel}
              {y = suc fuel} (omega arith),
        ),
      ),
    )
    wait-stream (s ∷ ms) fuel t n k carried =
        let (q, (eb, (ep, e))) =
          wait-stream ms fuel (signed8 s.tag) (length s.body) 0 carried.1.1 in
        (
          q,
          (
            eb,
            (
              ep,
              ap
                    (λ f. wait_for_data read_int32 decode f (
                      between (s.tag ∷ (encode (length s.body) ++ (s.body ++ stream encode ms))) t n
                        k))
                    {x = (rounds s.body + all_rounds ms) + suc fuel}
                    {y = rounds s.body + (all_rounds ms + suc fuel)} (omega arith)
                  ∙ wait-frame (all_rounds ms + suc fuel) s.tag s.body (stream encode ms) s.object t
                      n k carried.0 carried.1.0
                  ∙ ap (after (some (message_of s))) e,
            ),
          ),
        )

    rounds-length : (body : Bytes) → rounds body ≤ 2
    unfolding rounds
    rounds-length [] = omega arith
    rounds-length (x ∷ body) = omega arith

    all_rounds-stream :
        (ms : List (Sent O)) → Carried ms → all_rounds ms ≤ 2 * length (stream encode ms)
    unfolding all_rounds stream Carried
    all_rounds-stream [] carried = omega arith
    all_rounds-stream (s ∷ ms) carried = omega (
      arith,
      rounds-length s.body,
      all_rounds-stream ms carried.1.1,
      length-append (encode (length s.body)) (s.body ++ stream encode ms),
      length-append s.body (stream encode ms),
    )

    -- Between two frames, with an empty buffer, the parser is given a stream of frames that fits its
    -- buffer, each with a body of at most 2 MiB that its tag's type decodes, where the reader reads back
    -- what the encoder wrote for a size: it emits exactly the messages sent, in their order, and is
    -- between two frames with an empty buffer again.
    pub handle_data-stream :
        (ms : List (Sent O)) (t : ℤ) (n k : ℕ)
        → Carried ms
        → length (stream encode ms) ≤ max_buffer_bytes
        → (q : Parser) × ((q.buffer ≡ [])
            × ((q.phase ≡ tag_and_size)
                × (handle_data read_int32 decode (stream encode ms) (between [] t n k)
                    ≡ rests q (map message_of ms))))
    unfolding handle_data between
    handle_data-stream ms t n k carried fits =
        let bound = all_rounds-stream ms carried in
        let left = 2 * length (stream encode ms) + 2 - all_rounds ms in
        let (q, (eb, (ep, e))) = wait-stream ms left t n k carried in
        (
          q,
          (
            eb,
            (
              ep,
              (rw (ltb-false max_buffer_bytes (0 + length (stream encode ms)) (omega arith)) refl)
                  ∙ ap (λ f. wait_for_data read_int32 decode f (between (stream encode ms) t n k))
                      {x = 2 * length (stream encode ms) + 3} {y = all_rounds ms + suc left}
                      (omega arith)
                  ∙ e,
            ),
          ),
        )
