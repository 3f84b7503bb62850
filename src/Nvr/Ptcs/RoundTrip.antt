-- ===== src/Nvr/Ptcs/RoundTrip.antt =====
-- The fragments of a frame of nvrPackets in the state of NvrPtcsReassembler.
use eufy_mega_security.Prelude.{
  Eq_ℕ, ℕ, zero, suc, ◌+◌, ◌-◌, ◌*◌, ◌%◌, ◌^◌, ◌≤◌, ◌<◌, ◌≡◌, refl, ap, ◌∙◌, arith, Bool, true,
  false, Option, none, some, [], ◌∷◌, ltb, leb, nat_eq, length, take, drop, replicate, any,
  length-take, length-drop, take_add, drop-drop, take_all, take-length_append, leb-false, ltb-false,
  nat_eq-true, inl, inr, beq-cases,
}
use eufy_mega_security.Prelude.Bytes.{Bytes}
use eufy_mega_security.Prelude.JsMap.{
  JsMap, get, put, get-put_self, get-put_ne, length-put_new, any-put,
}
use eufy_mega_security.Nvr.Ptcs.{
  Limits, replay, FrameKey, Fragment, PendingFrame, Reassembler, incomplete, complete, Eq_FrameKey,
  Eq_Rejection, fresh, beq_key_iff,
}
use eufy_mega_security.Nvr.Ptcs.Packet.{Packet}
use eufy_mega_security.Nvr.Ptcs.State.{release, remember}
use eufy_mega_security.Nvr.Ptcs.Push.{
  copy_into, fragments_from, has_from, finish, assemble, conclude, add, after_final, store,
}
use eufy_mega_security.Nvr.Ptcs.Sender.{part_of}
use eufy_mega_security.Nvr.Ptcs.Decode.{sent_packet}

module _ (frame : Bytes) where
  pub length-part_of : (i : ℕ) → 1000 * i + 1000 ≤ length frame → length (part_of frame i) ≡ 1000
  length-part_of i h =
      omega (arith, length-take 1000 (drop (1000 * i) frame), length-drop (1000 * i) frame)

  pub length-part_of_last :
      (i : ℕ)
      → 1000 * i ≤ length frame
      → length frame ≤ 1000 * i + 1000
      → length (part_of frame i) ≡ length frame - 1000 * i
  length-part_of_last i h k =
      omega (arith, length-take 1000 (drop (1000 * i) frame), length-drop (1000 * i) frame)

  -- The fragments that are held after `n` packets.
  abbrev pub frags : ℕ → JsMap ℕ Fragment
  frags zero = []
  frags (suc n) = put n (record { bytes = part_of frame n; final = false }) (frags n)

  get-frags_above : (n i : ℕ) → n ≤ i → get i (frags n) ≡ none
  get-frags_above zero i h = refl
  get-frags_above (suc n) i h =
      get-put_ne i n _ (frags n) (λ e. omega arith) ∙ get-frags_above n i (omega arith)

  get-frags :
      (n i : ℕ) → i < n → get i (frags n) ≡ some (record { bytes = part_of frame i; final = false })
  get-frags zero i h = absurd (omega arith)
  get-frags (suc n) i h = elim (beq-cases i n) [
    | inl (_, e) ↦ rw e (get-put_self n _ (frags n))
    | inr (_, other) ↦ get-put_ne i n _ (frags n) other ∙ get-frags n i (omega arith)
  ]

  length-frags : (n : ℕ) → length (frags n) ≡ n
  length-frags zero = refl
  length-frags (suc n) = omega (
    arith,
    length-put_new n (record { bytes = part_of frame n; final = false }) (frags n)
        (get-frags_above n n (omega arith)),
    length-frags n,
  )

  -- The last fragment joins them.
  abbrev pub all_frags : ℕ → JsMap ℕ Fragment
  all_frags n = put n (record { bytes = part_of frame n; final = true }) (frags n)

  length-all_frags : (n : ℕ) → length (all_frags n) ≡ n + 1
  length-all_frags n =
      length-put_new n (record { bytes = part_of frame n; final = true }) (frags n)
        (get-frags_above n n (omega arith))
      ∙ ap (λ k. k + 1) (length-frags n)

  Covers : ℕ → JsMap ℕ Fragment → Type 0
  Covers n m = (i : ℕ) → i ≤ n → (f : Fragment) × (get i m ≡ some f) × (f.bytes ≡ part_of frame i)

  all_frags-Covers : (n : ℕ) → Covers n (all_frags n)
  unfolding Covers
  all_frags-Covers n i h = elim (beq-cases i n) [
    | inl (_, e) ↦ (
      record { bytes = part_of frame n; final = true },
      rw e (get-put_self n _ (frags n)),
      rw e refl,
    )
    | inr (_, other) ↦ (
      record { bytes = part_of frame i; final = false },
      get-put_ne i n _ (frags n) other ∙ get-frags n i (omega arith),
      refl,
    )
  ]

  has_from-covered :
      (n count start : ℕ) (m : JsMap ℕ Fragment)
      → Covers n m
      → start + count ≤ n + 1
      → has_from count start m ≡ true
  unfolding Covers has_from
  has_from-covered n zero start m c h = refl
  has_from-covered n (suc count) start m c h =
      let (f, e, _) = c start (omega arith) in
      ground (arith, e, has_from-covered n count (start + 1) m c (omega arith))

  fragments_from-covered :
      (n count start : ℕ) (m : JsMap ℕ Fragment)
      → Covers n m
      → start + count ≤ n + 1
      → fragments_from count start m ≡ take (1000 * count) (drop (1000 * start) frame)
  unfolding Covers fragments_from
  fragments_from-covered n zero start m c h = refl
  fragments_from-covered n (suc count) start m c h =
      let (f, e, b) = c start (omega arith) in
      let ih = fragments_from-covered n count (start + 1) m c (omega arith) in
      let next : 1000 * (start + 1) ≡ 1000 * start + 1000 = omega arith in
      let more : 1000 * suc count ≡ 1000 + 1000 * count = omega arith in
      rw (e, fragments_from, b, ih, next, more)
        (rw (drop-drop (1000 * start) 1000 frame) at
          (take_add 1000 (1000 * count) (drop (1000 * start) frame)))

  joined :
      (n : ℕ)
      → length frame ≤ 1000 * n + 1000
      → copy_into (length frame) (fragments_from (n + 1) 0 (all_frags n)) ≡ frame
  unfolding copy_into
  joined n h =
      let c = fragments_from-covered n (n + 1) 0 (all_frags n) (all_frags-Covers n) (omega arith) in
      let whole : take (1000 * (n + 1)) frame ≡ frame =
        take_all (1000 * (n + 1)) frame (omega arith) in
      rw (c ∙ whole) (take-length_append frame (replicate (length frame) 0))

  none_above : (n bound : ℕ) → n ≤ bound + 1 → any (λ e. ltb bound e.0) (frags n) ≡ false
  none_above zero bound h = refl
  none_above (suc n) bound h =
      any-put (λ e. ltb bound e.0) n _ (frags n) (none_above n bound (omega arith)) (ground arith)

  none_above_all : (n : ℕ) → any (λ e. ltb n e.0) (all_frags n) ≡ false
  none_above_all n =
      any-put (λ e. ltb n e.0) n _ (frags n) (none_above n n (omega arith)) (ground arith)

module _ (zstd : ℕ → Bytes → Option Bytes) (l : Limits) (frame : Bytes)
    (channel sequence timestamp now : ℕ) where
  abbrev pub key : FrameKey
  key = record { channel = channel; sequence = sequence; timestamp = timestamp % 2 ^ 32 }

  abbrev pub packet : ℕ → Bool → Packet
  packet i final = sent_packet channel sequence timestamp (length frame) i final (part_of frame i)

  -- The pending frame and the state after `n` packets.
  abbrev pub frame_at : ℕ → PendingFrame
  frame_at n = record {
    total = length frame;
    first_arrival = now;
    compressed = false;
    keyframe = false;
    fragments = frags frame n;
    received_bytes = 1000 * n;
    final_index = none;
  }

  abbrev pub state_at : ℕ → Reassembler
  state_at n = record {
    limits = l;
    pending = (key, frame_at n) ∷ [];
    tombstones = [];
    rejected = [];
    buffered_bytes = length frame;
    retained_fragments = n;
    last_now = now;
  }

  abbrev pub start : Reassembler
  start = record (fresh l) { last_now = now }

  pub same_key : Eq_FrameKey.same key key ≡ true
  same_key = (beq_key_iff key key).1 refl

  -- One more full fragment.
  pub store_more :
      (n : ℕ)
      → 1000 * n + 1000 ≤ length frame
      → n < l.max_retained_fragments
      → store zstd (packet n false) (frame_at n) (state_at n) ≡ (state_at (suc n), incomplete)
  store_more n fits room =
      let new = get-frags_above frame n n (omega arith) in
      let size = length-part_of frame n fits in
      let room_left : leb l.max_retained_fragments n ≡ false = leb-false _ _ room in
      let received : 1000 * n + length (part_of frame n) ≡ 1000 * suc n = omega (arith, size) in
      let in_total : ltb (length frame) (1000 * suc n) ≡ false = ltb-false _ _ (omega arith) in
      let one_more : n + 1 ≡ suc n = omega arith in
      unfold store after_final add conclude in
      rw (new, store) (rw (room_left, received, in_total, same_key, one_more) refl)

  unfoldable pub final_state : Reassembler
  final_state = record {
    limits = l;
    pending = [];
    tombstones = (key, record { first_arrival = now; reason = replay }) ∷ [];
    rejected = [];
    buffered_bytes = 0;
    retained_fragments = 0;
    last_now = now;
  }

  abbrev pub last_frame : ℕ → PendingFrame
  last_frame n = record {
    total = length frame;
    first_arrival = now;
    compressed = false;
    keyframe = false;
    fragments = all_frags frame n;
    received_bytes = length frame;
    final_index = some n;
  }

  abbrev pub last_state : ℕ → Reassembler
  last_state n = record (state_at n) {
    pending = (key, last_frame n) ∷ [];
    retained_fragments = suc n;
  }

  pub store_last :
      (n : ℕ)
      → 1000 * n ≤ length frame
      → length frame ≤ 1000 * n + 1000
      → n < l.max_retained_fragments
      → store zstd (packet n true) (frame_at n) (state_at n)
        ≡ conclude zstd (packet n true) (last_frame n) (last_state n)
  store_last n low high room =
      let new = get-frags_above frame n n (omega arith) in
      let size = length-part_of_last frame n low high in
      let room_left : leb l.max_retained_fragments n ≡ false = leb-false _ _ room in
      let received : 1000 * n + length (part_of frame n) ≡ length frame = omega (arith, size) in
      let in_total : ltb (length frame) (length frame) ≡ false = ltb-false _ _ (omega arith) in
      let one_more : n + 1 ≡ suc n = omega arith in
      unfold store after_final add in
      rw (new, store) (rw (room_left, received, in_total, same_key, one_more) refl)

  -- All fragments are there: the frame is given out, and a tombstone stays.
  pub conclude_last :
      (n : ℕ)
      → length frame ≤ 1000 * n + 1000
      → 1 ≤ l.max_completed_tombstones
      → conclude zstd (packet n true) (last_frame n) (last_state n)
        ≡ (final_state, complete channel sequence (timestamp % 2 ^ 32) frame)
  conclude_last n high some_tombstones =
      let above = none_above_all frame n in
      let there =
        has_from-covered frame n (n + 1) 0 (all_frags frame n) (all_frags-Covers frame n)
          (omega arith) in
      let exact : nat_eq (length frame) (length frame) ≡ true = nat_eq-true _ _ refl in
      let join = joined frame n high in
      let released : suc n - length (all_frags frame n) ≡ 0 =
        omega (arith, length-all_frags frame n) in
      let bytes : length frame - length frame ≡ 0 = omega arith in
      let room : leb l.max_completed_tombstones 0 ≡ false = leb-false _ _ some_tombstones in
      unfold conclude assemble finish release remember final_state in
      rw (above, there, exact, join, same_key, released, bytes, room) refl
