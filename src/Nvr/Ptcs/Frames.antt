-- ===== src/Nvr/Ptcs/Frames.antt =====
-- The packets of one frame, pushed one after another: what each of them leaves and answers.
use eufy_mega_security.Prelude.{
  Eq_ℕ, ℕ, zero, suc, ◌+◌, ◌-◌, ◌*◌, ◌%◌, ◌^◌, ◌≤◌, ◌<◌, ◌≡◌, refl, ap, ◌∙◌, arith, Bool, true,
  false, Option, none, some, List, [], ◌∷◌, ◌++◌, ltb, leb, nat_eq, length, replicate, leb-false,
  ltb-false, nat_eq-true, nat_eq-false, le→leb,
}
use eufy_mega_security.Prelude.Bytes.{Bytes}
use eufy_mega_security.Prelude.JsMap.{get}
use eufy_mega_security.Nvr.Ptcs.{
  Limits, PendingFrame, Reassembler, Answer, incomplete, complete, Eq_FrameKey, fresh, max_safe,
}
use eufy_mega_security.Nvr.Ptcs.Packet.{Packet, passes, check}
use eufy_mega_security.Nvr.Ptcs.State.{sweep_pending, sweep_tombstones, sweep, expire}
use eufy_mega_security.Nvr.Ptcs.Push.{
  store, conflicts, same_final, no_room, new_frame, admit, accept, receive, push,
}
use eufy_mega_security.Nvr.Ptcs.Sender.{part_of, packet_count, packets_from}
use eufy_mega_security.Nvr.Ptcs.Decode.{Encodable, sent, check-sent}
use eufy_mega_security.Nvr.Ptcs.RoundTrip.{
  packet, frame_at, state_at, start, final_state, same_key, store_more, store_last, conclude_last,
  length-part_of, length-part_of_last,
}

-- All packets pushed at one time: the last state and the answers, or none if one throws.
abbrev pub push_all :
    (ℕ → Bytes → Option Bytes) → ℕ → List Bytes → Reassembler → Option (Reassembler × List Answer)
push_all zstd now [] s = some (s, [])
push_all zstd now (p ∷ ps) s = elim (push zstd p now s) [
  | none ↦ none
  | some (s', answer) ↦ elim (push_all zstd now ps s') [
    | none ↦ none
    | some (t, answers) ↦ some (t, answer ∷ answers)
  ]
]

push_all-cons :
    (zstd : ℕ → Bytes → Option Bytes) (now : ℕ) (p : Bytes) (ps : List Bytes) (s s' t : Reassembler)
    (a : Answer) (as_ : List Answer)
    → push zstd p now s ≡ some (s', a)
    → push_all zstd now ps s' ≡ some (t, as_)
    → push_all zstd now (p ∷ ps) s ≡ some (t, a ∷ as_)
push_all-cons zstd now p ps s s' t a as_ e h = rw (e, push_all) (rw (h, push_all) refl)

module _ (zstd : ℕ → Bytes → Option Bytes) (l : Limits) (frame : Bytes)
    (channel sequence timestamp now : ℕ) where
  -- The limits admit the frame, and its fields fit the wire.
  pub record Fits : Type 0 where
    pub channels : channel ≤ 5
    pub sequences : sequence < 65536
    pub bytes : length frame ≤ 4194368
    pub in_frame : length frame ≤ l.max_frame_bytes
    pub in_buffer : length frame ≤ l.max_buffered_bytes
    pub in_fragments : packet_count frame ≤ l.max_fragments_per_frame
    pub in_retained : packet_count frame ≤ l.max_retained_fragments
    pub a_frame : 1 ≤ l.max_pending_frames
    pub a_tombstone : 1 ≤ l.max_completed_tombstones
    pub a_moment : 1 ≤ l.expiry_milliseconds
    pub clock : now ≤ max_safe

  abbrev wire : ℕ → Bool → Bytes
  wire i final = sent channel sequence timestamp (length frame) i final (part_of frame i)

  abbrev queued : ℕ → Bool → Packet
  queued = packet zstd l frame channel sequence timestamp now

  abbrev waiting : ℕ → Reassembler
  waiting = state_at zstd l frame channel sequence timestamp now

  check-wire :
      (i : ℕ) (final : Bool)
      → Fits
      → i < packet_count frame
      → (final ≡ false → 1000 * i + 1000 ≤ length frame)
      → (final ≡ true → (1000 * i ≤ length frame) × (length frame ≤ 1000 * i + 1000))
      → check l (wire i final) ≡ passes (queued i final)
  check-wire i final f counted full short =
      check-sent channel sequence timestamp (length frame) i final (part_of frame i) l
        (encodable final full short) f.in_frame (omega (arith, f.in_fragments))
    where
      encodable :
          (final : Bool)
          → (final ≡ false → 1000 * i + 1000 ≤ length frame)
          → (final ≡ true → (1000 * i ≤ length frame) × (length frame ≤ 1000 * i + 1000))
          → Encodable channel sequence timestamp (length frame) i final (part_of frame i)
      encodable true full short =
          let size = length-part_of_last frame i (short refl).0 (short refl).1 in
          record {
            channels = f.channels;
            sequences = f.sequences;
            totals = omega (arith, f.bytes);
            indexes = omega (arith, f.bytes);
            parts = omega (arith, size, (short refl).1);
            whole = λ e. cc;
            empty = λ e. (omega (arith, size, e, counted), omega (arith, size, e, counted), refl);
          }
      encodable false full short =
          let size = length-part_of frame i (full refl) in
          record {
            channels = f.channels;
            sequences = f.sequences;
            totals = omega (arith, f.bytes);
            indexes = omega (arith, f.bytes);
            parts = omega (arith, size);
            whole = λ e. size;
            empty = λ e. absurd (omega (arith, size, e));
          }

  sweep-waiting : (n : ℕ) → Fits → sweep now (waiting n) ≡ waiting n
  sweep-waiting n f =
      let kept : leb l.expiry_milliseconds (now - now) ≡ false =
        leb-false _ _ (omega (arith, f.a_moment)) in
      unfold sweep sweep_pending sweep_tombstones in rw kept refl

  expire-waiting : (n : ℕ) → Fits → expire now (waiting n) ≡ some (waiting n)
  expire-waiting n f =
      let safe : leb now max_safe ≡ true = le→leb _ _ f.clock in
      let order : ltb now now ≡ false = ltb-false _ _ (omega arith) in
      unfold expire in rw (safe, order, sweep-waiting n f) refl

  abbrev held_frame : ℕ → PendingFrame
  held_frame = frame_at zstd l frame channel sequence timestamp now

  accept_next :
      (n : ℕ) (final : Bool)
      → accept zstd (queued n final) now (waiting n)
        ≡ store zstd (queued n final) (held_frame n) (waiting n)
  accept_next n final =
      let k = same_key zstd l frame channel sequence timestamp now in
      let t : nat_eq (length frame) (length frame) ≡ true = nat_eq-true _ _ refl in
      let found : get (queued n final).key (waiting n).pending ≡ some (held_frame n) = rw k refl in
      let agrees : conflicts (queued n final) (held_frame n) ≡ false =
        unfold conflicts same_final in rw t refl in
      unfold accept admit in rw (found, admit) (rw agrees refl)

  -- A packet of a frame that is pending goes to `store`.
  push_next :
      (n : ℕ) (final : Bool)
      → Fits
      → check l (wire n final) ≡ passes (queued n final)
      → push zstd (wire n final) now (waiting n)
        ≡ some (
            store zstd
              (queued n final)
              (frame_at zstd l frame channel sequence timestamp now n)
              (waiting n))
  push_next n final f checked =
      let e = expire-waiting n f in
      unfold push receive in rw (e, push) (rw (checked, receive) (ap some (accept_next n final)))

  abbrev begun : Reassembler
  begun = start zstd l frame channel sequence timestamp now

  expire-fresh : Fits → expire now (fresh l) ≡ some begun
  expire-fresh f =
      let safe : leb now max_safe ≡ true = le→leb _ _ f.clock in
      let order : ltb now 0 ≡ false = ltb-false _ _ (omega arith) in
      unfold expire sweep sweep_pending sweep_tombstones fresh in rw (safe, order) refl

  accept_first :
      (final : Bool)
      → Fits
      → accept zstd (queued 0 final) now begun
        ≡ store zstd (queued 0 final) (held_frame 0) (waiting 0)
  accept_first final f =
      let frames : leb l.max_pending_frames 0 ≡ false = leb-false _ _ f.a_frame in
      let bytes : ltb (l.max_buffered_bytes - 0) (length frame) ≡ false =
        ltb-false _ _ (omega (arith, f.in_buffer)) in
      let fragments : leb l.max_retained_fragments 0 ≡ false =
        leb-false _ _ (omega (arith, f.in_retained)) in
      let roomy : no_room (queued 0 final) begun ≡ false =
        unfold no_room fresh in rw (frames, bytes, fragments) refl in
      let reserved : 0 + length frame ≡ length frame = omega arith in
      unfold accept admit new_frame fresh in rw roomy (rw reserved refl)

  -- The first packet reserves the frame.
  push_first :
      (final : Bool)
      → Fits
      → check l (wire 0 final) ≡ passes (queued 0 final)
      → push zstd (wire 0 final) now (fresh l)
        ≡ some (
            store zstd
              (queued 0 final)
              (frame_at zstd l frame channel sequence timestamp now 0)
              (waiting 0))
  push_first final f checked =
      let received : receive zstd (wire 0 final) now begun
          ≡ accept zstd (queued 0 final) now begun =
        unfold receive fresh in rw (checked, receive) refl in
      unfold push in rw (expire-fresh f, push) (ap some (received ∙ accept_first final f))

  abbrev delivered : Answer
  delivered = complete channel sequence (timestamp % 2 ^ 32) frame

  abbrev answers : ℕ → List Answer
  answers more = replicate more incomplete ++ (delivered ∷ [])

  abbrev end_state : Reassembler
  end_state = final_state zstd l frame channel sequence timestamp now

  -- `more` packets before the last one, from index `n` on.
  abbrev Remaining : ℕ → ℕ → Type 0
  Remaining more n =
      (1000 * (n + more) ≤ length frame)
      × (length frame ≤ 1000 * (n + more) + 1000)
      × (n + more + 1 ≡ packet_count frame)

  last_answer :
      (n : ℕ)
      → Fits
      → Remaining 0 n
      → store zstd (queued n true) (held_frame n) (waiting n) ≡ (end_state, delivered)
  last_answer n f r =
      store_last zstd l frame channel sequence timestamp now n (omega arith) (omega arith)
        (omega (arith, f.in_retained))
      ∙ conclude_last zstd l frame channel sequence timestamp now n (omega arith) f.a_tombstone

  more_answer :
      (more n : ℕ)
      → Fits
      → Remaining (suc more) n
      → store zstd (queued n false) (held_frame n) (waiting n) ≡ (waiting (suc n), incomplete)
  more_answer more n f r =
      store_more zstd l frame channel sequence timestamp now n (omega arith)
        (omega (arith, f.in_retained))

  check_last : (n : ℕ) → Fits → Remaining 0 n → check l (wire n true) ≡ passes (queued n true)
  check_last n f r = check-wire n true f (omega arith) (λ e. cc) (λ e. (omega arith, omega arith))

  check_more :
      (more n : ℕ)
      → Fits
      → Remaining (suc more) n
      → check l (wire n false) ≡ passes (queued n false)
  check_more more n f r = check-wire n false f (omega arith) (λ e. omega arith) (λ e. cc)

  packets_last : (n : ℕ) → packets_from frame sequence timestamp channel 1 n ≡ wire n true ∷ []
  packets_last n = unfold packets_from in refl

  packets_more :
      (more n : ℕ)
      → packets_from frame sequence timestamp channel (suc (suc more)) n
        ≡ wire n false ∷ packets_from frame sequence timestamp channel (suc more) (suc n)
  packets_more more n =
      let next : n + 1 ≡ suc n = omega arith in
      let other : nat_eq (suc more) 0 ≡ false = nat_eq-false _ _ (omega arith) in
      unfold packets_from in rw (next, other) refl

  push_rest :
      (more n : ℕ)
      → Fits
      → Remaining more n
      → push_all zstd now (packets_from frame sequence timestamp channel (suc more) n) (waiting n)
        ≡ some (end_state, answers more)
  push_rest zero n f r = rw (packets_last n) (
      push_all-cons zstd now (wire n true) [] (waiting n) end_state end_state delivered []
        (push_next n true f (check_last n f r) ∙ ap some (last_answer n f r)) refl)
  push_rest (suc more) n f r = rw (packets_more more n) (
      push_all-cons zstd now (wire n false) _ (waiting n) (waiting (suc n)) end_state incomplete
        (answers more)
        (push_next n false f (check_more more n f r) ∙ ap some (more_answer more n f r))
        (push_rest more (suc n) f (omega arith, omega arith, omega arith)))

  push_start :
      (more : ℕ)
      → Fits
      → Remaining more 0
      → push_all zstd now (packets_from frame sequence timestamp channel (suc more) 0) (fresh l)
        ≡ some (end_state, answers more)
  push_start zero f r = rw (packets_last 0) (
      push_all-cons zstd now (wire 0 true) [] (fresh l) end_state end_state delivered []
        (push_first true f (check_last 0 f r) ∙ ap some (last_answer 0 f r)) refl)
  push_start (suc more) f r = rw (packets_more more 0) (
      push_all-cons zstd now (wire 0 false) _ (fresh l) (waiting 1) end_state incomplete
        (answers more)
        (push_first false f (check_more more 0 f r) ∙ ap some (more_answer more 0 f r))
        (push_rest more 1 f (omega arith, omega arith, omega arith)))

  pub push_frame :
      (count more : ℕ)
      → count ≡ suc more
      → Fits
      → Remaining more 0
      → push_all zstd now (packets_from frame sequence timestamp channel count 0) (fresh l)
        ≡ some (end_state, answers more)
  push_frame count more e f r = rw e (push_start more f r)
