-- ===== src/Push/Mcs/Framing.antt =====
-- The rounds of waitForData in McsParser: what each leaves to read.
use eufy_mega_security.Prelude.{
  ℕ, zero, suc, ◌+◌, ◌-◌, ◌*◌, ◌≤◌, ◌<◌, ◌||◌, Option, none, some, [], ◌∷◌, ◌++◌, ◌≡◌, ◌≢◌, refl,
  subst, ◌⊎◌, inl, inr, arith, take, drop, length, ltb, leb, nat_eq, Bool-cases, length-drop,
  lt→ltb,
}
use eufy_mega_security.Prelude.Bytes.{Bytes}
use eufy_mega_security.Prelude.Int.{ℤ, pos, negsuc}
use eufy_mega_security.Push.Mcs.{
  Phase, version_tag_and_size, tag_and_size, size, proto_bytes, Parser, Varint, value, short,
  broken, Message, Outcome, rests, thrown, running, Round, stays, throws, goes, after, next, stanza,
  emit_stanza, on_bytes, with_size, take_size, on_size, on_tag, on_version, dispatch, follow,
  wait_for_data, handle_data, min_bytes_needed, max_frame_bytes, max_buffer_bytes, signed8,
}

-- Twice the bytes, and one more while the payload of a frame is awaited.
awaited : Phase → ℕ
awaited proto_bytes = 1
awaited _ = 0

pub weight : Parser → ℕ
unfolding awaited
weight p = 2 * length p.buffer + awaited p.phase

pub Advances {ℓ} : {O : Type ℓ} → ℕ → Round O → Type 0
Advances w (stays q) = Unit
Advances w throws = Unit
Advances w (goes m q) = (weight q < w) ⊎ (length q.buffer < min_bytes_needed q)

module _ {ℓ} {O : Type ℓ} (read_int32 : Bytes → Varint) (decode : ℤ → Bytes → Option O)
    (moves : (b : Bytes) (n : ℤ) (k : ℕ) → read_int32 b ≡ value n k → (1 ≤ k) × (k ≤ length b))
    (ends : (b : Bytes) (k : ℕ) → read_int32 b ≡ short k → length b ≤ k) where
  emit_stanza-Advances :
      (tag : ℤ) (o : Option (Option O)) (p : Parser) (w : ℕ)
      → 2 * length p.buffer < w
      → Advances w (emit_stanza read_int32 decode tag o p)
  unfolding emit_stanza Advances next weight awaited
  emit_stanza-Advances tag none p w h = tt
  emit_stanza-Advances tag (some object) p w h = inl (omega arith)

  on_bytes-Advances :
      (p : Parser) (w : ℕ) → 2 * length p.buffer < w → Advances w (on_bytes read_int32 decode p)
  unfolding on_bytes Advances next weight awaited
  on_bytes-Advances p w h = elim (Bool-cases (nat_eq p.message_size 0)) [
    | inl empty ↦ rw empty (inl (omega arith))
    | inr full ↦ elim (Bool-cases (ltb (length p.buffer) p.message_size)) [
      | inl less ↦ rw (full, less) tt
      | inr enough ↦
          rw (full, enough)
            (emit_stanza-Advances p.message_tag
              (stanza read_int32 decode p.message_tag (take p.message_size p.buffer))
              (record p { buffer = drop p.message_size p.buffer }) w
              (omega (arith, length-drop p.message_size p.buffer)))
    ]
  ]

  with_size-Advances :
      (p : Parser) (n k w : ℕ)
      → 2 * (length p.buffer - k) + 1 < w
      → Advances w (with_size read_int32 decode p n k)
  unfolding with_size Advances weight awaited
  with_size-Advances p n k w h = elim (Bool-cases (ltb max_frame_bytes n)) [
    | inl big ↦ rw big tt
    | inr fits ↦ elim (Bool-cases (nat_eq n 0)) [
      | inl empty ↦
          rw (fits, empty)
            (on_bytes-Advances
              (record p { buffer = drop k p.buffer; message_size = n; size_packet_so_far = 0 }) w
              (omega (arith, length-drop k p.buffer)))
      | inr full ↦ rw (fits, full) (inl (omega (arith, length-drop k p.buffer)))
    ]
  ]

  take_size-Advances :
      (p : Parser) (v : Varint) (w : ℕ)
      → read_int32 p.buffer ≡ v
      → 2 * length p.buffer ≤ w
      → Advances w (take_size read_int32 decode p v)
  unfolding take_size Advances min_bytes_needed
  take_size-Advances p (value (pos n) k) w e h =
      let moved = moves p.buffer (pos n) k e in with_size-Advances p n k w (omega arith)
  take_size-Advances p (value (negsuc n) k) w e h = tt
  take_size-Advances p (short k) w e h = let ended = ends p.buffer k e in inr (omega arith)
  take_size-Advances p broken w e h = tt

  on_tag-Advances :
      (p : Parser) (b : Bytes) (w : ℕ)
      → p.buffer ≡ b
      → 2 * length b ≤ w
      → Advances w (on_tag read_int32 decode p)
  unfolding on_tag on_size Advances
  on_tag-Advances p [] w e h = rw e tt
  on_tag-Advances p (x ∷ rest) w e h = rw e (
      take_size-Advances (record p { buffer = rest; message_tag = signed8 x }) (read_int32 rest) w
        refl (omega arith))

  on_version-Advances :
      (p : Parser) (b : Bytes) (w : ℕ)
      → p.buffer ≡ b
      → 2 * length b ≤ w
      → Advances w (on_version read_int32 decode p)
  unfolding on_version Advances
  on_version-Advances p [] w e h = rw e tt
  on_version-Advances p (x ∷ rest) w e h = elim (Bool-cases (leb 128 x || ltb x 38)) [
    | inl wrong ↦ rw (e, wrong) tt
    | inr right ↦
        rw (e, right) (on_tag-Advances (record p { buffer = rest }) rest w refl (omega arith))
  ]

  dispatch-Advances :
      (phase : Phase) (p : Parser)
      → Advances (2 * length p.buffer + awaited phase) (dispatch read_int32 decode phase p)
  unfolding dispatch on_size awaited
  dispatch-Advances version_tag_and_size p = on_version-Advances p p.buffer _ refl (omega arith)
  dispatch-Advances tag_and_size p = on_tag-Advances p p.buffer _ refl (omega arith)
  dispatch-Advances size p = take_size-Advances p (read_int32 p.buffer) _ refl (omega arith)
  dispatch-Advances proto_bytes p = on_bytes-Advances p _ (omega arith)

  pub Ends : Outcome O → Type 0
  Ends (rests p ms) = Unit
  Ends (thrown ms) = Unit
  Ends running = ⊥

  after-Ends : (m : Option (Message O)) (o : Outcome O) → Ends o → Ends (after m o)
  unfolding after Ends
  after-Ends none o h = h
  after-Ends (some m) (rests p ms) h = tt
  after-Ends (some m) (thrown ms) h = tt
  after-Ends (some m) running h = h

  wait-short :
      (n : ℕ) (p : Parser)
      → length p.buffer < min_bytes_needed p
      → Ends (wait_for_data read_int32 decode (suc n) p)
  unfolding wait_for_data Ends
  wait-short n p h = rw (lt→ltb (length p.buffer) (min_bytes_needed p) h) tt

  follow-Ends :
      (rest : Parser → Outcome O) (r : Round O) (w : ℕ)
      → Advances w r
      → ((q : Parser) → weight q < w → Ends (rest q))
      → ((q : Parser) → length q.buffer < min_bytes_needed q → Ends (rest q))
      → Ends (follow read_int32 decode rest r)
  unfolding follow Advances Ends
  follow-Ends rest (stays q) w a light idle = tt
  follow-Ends rest throws w a light idle = tt
  follow-Ends rest (goes m q) w a light idle = elim a [
    | inl less ↦ after-Ends m (rest q) (light q less)
    | inr waits ↦ after-Ends m (rest q) (idle q waits)
  ]

  wait-Ends : (n : ℕ) (p : Parser) → weight p + 2 ≤ n → Ends (wait_for_data read_int32 decode n p)
  unfolding wait_for_data Ends weight
  wait-Ends zero p h = absurd (omega arith)
  wait-Ends (suc zero) p h = absurd (omega arith)
  wait-Ends (suc (suc n)) p h = elim (Bool-cases (ltb (length p.buffer) (min_bytes_needed p))) [
    | inl idle ↦ rw idle tt
    | inr busy ↦ rw busy (
        follow-Ends (wait_for_data read_int32 decode (suc n)) (dispatch read_int32 decode p.phase p)
          (weight p) (dispatch-Advances p.phase p) (λ q less. wait-Ends (suc n) q (omega arith))
          (λ q waits. wait-short n q waits))
  ]

  Ends-running : (o : Outcome O) → Ends o → o ≢ running
  unfolding Ends
  Ends-running o h e = subst Ends e h

  phase-bound : (phase : Phase) → awaited phase ≤ 1
  unfolding awaited
  phase-bound version_tag_and_size = omega arith
  phase-bound tag_and_size = omega arith
  phase-bound size = omega arith
  phase-bound proto_bytes = omega arith

  -- Of any chunk and in any state the parser comes to rest or throws within its fuel, where the reader's
  -- position moves by at least one byte over a size that it reads, stays within the buffer, and is at or
  -- behind the end of a buffer that ends inside a size.
  pub handle_data-Ends :
      (chunk : Bytes) (p : Parser) → handle_data read_int32 decode chunk p ≢ running
  unfolding handle_data weight
  handle_data-Ends chunk p =
      elim (Bool-cases (ltb max_buffer_bytes (length p.buffer + length chunk))) [
        | inl over ↦ Ends-running _ (rw over (unfold Ends in tt))
        | inr fits ↦ Ends-running _ (
            rw fits (
              wait-Ends (2 * length (p.buffer ++ chunk) + 3)
                (record p { buffer = p.buffer ++ chunk })
                (let b = phase-bound p.phase in omega arith)))
      ]
