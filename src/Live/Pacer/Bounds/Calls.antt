-- ===== src/Live/Pacer/Bounds/Calls.antt =====
-- The calls and timers of LiveFramePacer, stream/live-frame-pacer.ts, and its limits.
use eufy_mega_security.Prelude.{
  ℕ, ◌+◌, ◌≤◌, ◌≡◌, refl, inl, inr, Bool, true, false, not, ◌||◌, Option, none, some, List, [], ◌∷◌,
  arith, leb, nat_eq, length, is_some,
}
use eufy_mega_security.Prelude.Bytes.{Bytes}
use eufy_mega_security.Live.Adts.{AdtsAccessUnit, parse_adts_access_units}
use eufy_mega_security.Live.Pacer.{
  Arithmetic, max_bytes, max_packets, Packet, FrameClock, clock_missing, audio_invalid, Pacer,
  start, arm, then_, origin_or,
}
use eufy_mega_security.Live.Pacer.Handlers.{
  batch_time, take_clock, enqueue_video, accept_clocked, accept_by_clock, accept_video,
  enqueue_audio, accept_units, accept_audio, count_played, play_due, is_due, elapse,
  elapse_admission, elapse_audio_admission, Call, sends_video, sends_audio, paces, admission_ends,
  audio_wait_ends, closes, step, run,
}
use eufy_mega_security.Live.Pacer.Order.{if_either}
use eufy_mega_security.Live.Pacer.Bounds.{
  queued, held, Within, Room, close-Within, reject-Within, enqueue-Within,
}
use eufy_mega_security.Live.Pacer.Bounds.Clock.{
  unclocked-Within, take_clock-Within, release-Within, admit_startup-Within,
}

or_open : (b c : Bool) → (b || c) ≡ false → b ≡ false
or_open false c h = refl
or_open true c h = h

no_rest : (now : ℕ) (p : Pacer) → Room [] p
no_rest now p running free = omega (arith, free)

module _ ⦃a : Arithmetic⦄ (now audio_wait : ℕ) where
  clocked-Within :
      (body : Bytes) (clock : FrameClock) (p : Pacer)
      → Within [] p
      → Within [] (accept_clocked now audio_wait body clock p).0
  unfolding accept_clocked then_ enqueue_video
  clocked-Within body clock p w = admit_startup-Within now audio_wait _ (
      enqueue-Within now [] _ (take_clock now p.epoch clock p).0
        (take_clock-Within now p.epoch clock p w) (no_rest now (take_clock now p.epoch clock p).0))

  by_clock-Within :
      (body : Bytes) (clock : Option FrameClock) (p : Pacer)
      → p.closed ≡ false
      → Within [] p
      → Within [] (accept_by_clock now audio_wait body clock p).0
  unfolding accept_by_clock
  by_clock-Within body none p running w = unclocked-Within now body p running w
  by_clock-Within body (some clock) p running w = clocked-Within body clock p w

  accept_video-Within :
      (body : Bytes) (clock : Option FrameClock) (p : Pacer)
      → Within [] p
      → Within [] (accept_video now audio_wait body clock p).0
  unfolding accept_video
  accept_video-Within body clock p w =
      if_either (λ r. Within [] r.0) (p.closed || nat_eq (length body) 0) _ _ (λ _. w)
        (λ running.
          by_clock-Within body clock p (or_open p.closed (nat_eq (length body) 0) running) w)

  units-Within :
      (body : Bytes) (units : Option (List AdtsAccessUnit)) (p : Pacer)
      → Within [] p
      → Within [] (accept_units now audio_wait body units p).0
  unfolding accept_units enqueue_audio then_
  units-Within body none p w = reject-Within [] [] audio_invalid p w
  units-Within body (some units) p w =
      let clocked = record p {
        audio_origin = some (origin_or now p.audio_origin);
        audio_elapsed = a.add p.audio_elapsed (batch_time 0 units);
      } in
      admit_startup-Within now audio_wait _
        (enqueue-Within now [] _ clocked w (no_rest now clocked))

  accept_audio-Within :
      (body : Bytes) (p : Pacer) → Within [] p → Within [] (accept_audio now audio_wait body p).0
  unfolding accept_audio
  accept_audio-Within body p w =
      if_either (λ r. Within [] r.0) (p.closed || p.audio_disabled || nat_eq (length body) 0) _ _
        (λ _. w) (λ _. units-Within body (parse_adts_access_units body) p w)

module _ ⦃a : Arithmetic⦄ (now : ℕ) where
  counted_down :
      (packet : Packet) (queue : List Packet) (p : Pacer)
      → Within [] (record p { queue = packet ∷ queue })
      → Within [] (record (count_played packet p) { queue = queue })
  unfolding count_played queued
  counted_down packet queue p w = elim w [
    | inl e ↦ absurd (let n = e.no_queue in cc)
    | inr c ↦ inr (record {
      total = omega (arith, c.total);
      small = omega (arith, c.small);
      few = omega (arith, c.few);
      most = c.most;
      running = c.running;
    })
  ]

  play_due-Within :
      (qs : List Packet) (p : Pacer)
      → Within [] (record p { queue = qs })
      → Within [] (play_due now qs p).0
  unfolding play_due
  play_due-Within [] p w = w
  play_due-Within (packet ∷ queue) p w =
      let rest = play_due-Within queue (count_played packet p) (counted_down packet queue p w) in
      if_either (λ r. Within [] r.0) (leb packet.at_time now) _ _ (λ _. rest) (λ _. w)

  elapse-Within : (p : Pacer) → Within [] p → Within [] (elapse now p).0
  unfolding elapse arm
  elapse-Within p w =
      if_either (λ r. Within [] r.0) (is_due now p.timer) _ _
        (λ _. play_due-Within p.queue (record p { timer = none }) w) (λ _. w)

  elapse_admission-Within : (p : Pacer) → Within [] p → Within [] (elapse_admission now p).0
  unfolding elapse_admission
  elapse_admission-Within p w =
      if_either (λ r. Within [] r.0) (is_due now p.admission_timer) _ _
        (λ _.
          if_either (λ r. Within [] r.0) (is_some p.epoch) _ _ (λ _. w)
            (λ _. reject-Within [] [] clock_missing p w))
        (λ _. w)

  elapse_audio_admission-Within :
      (p : Pacer) → Within [] p → Within [] (elapse_audio_admission now p).0
  unfolding elapse_audio_admission
  elapse_audio_admission-Within p w =
      if_either (λ r. Within [] r.0) (is_due now p.audio_admission_timer) _ _
        (λ _.
          if_either (λ r. Within [] r.0) (p.closed || not p.startup_waiting) _ _ (λ _. w)
            (λ _. release-Within now false p w))
        (λ _. w)

module _ ⦃a : Arithmetic⦄ (audio_wait : ℕ) where
  step-Within : (p : Pacer) (call : Call) → Within [] p → Within [] (step audio_wait p call).0
  unfolding step
  step-Within p (sends_video now body clock) w = accept_video-Within now audio_wait body clock p w
  step-Within p (sends_audio now body) w = accept_audio-Within now audio_wait body p w
  step-Within p (paces now) w = elapse-Within now p w
  step-Within p (admission_ends now) w = elapse_admission-Within now p w
  step-Within p (audio_wait_ends now) w = elapse_audio_admission-Within now p w
  step-Within p closes w = close-Within [] [] p w

  run-Within : (p : Pacer) (calls : List Call) → Within [] p → Within [] (run audio_wait p calls).0
  unfolding run
  run-Within p [] w = w
  run-Within p (call ∷ calls) w = run-Within (step audio_wait p call).0 calls (step-Within p call w)

-- What a viewer's pacer holds at most.
pub record Bounded (p : Pacer) : Type 0 where
  pub accounted : p.bytes ≡ queued p.queue + held p.bootstrap
  pub bytes_within : p.bytes ≤ max_bytes
  pub packets_within : length p.queue + length p.bootstrap ≤ max_packets
  pub maximum_within : p.maximum_bytes ≤ max_bytes
  pub nothing_after : p.closed ≡ true → (p.queue ≡ []) × (p.bootstrap ≡ [])

bounded : (p : Pacer) → Within [] p → Bounded p
unfolding queued held
bounded p w = elim w [
  | inl e ↦ record {
    accounted = rw (e.no_queue, e.no_bootstrap, e.no_bytes) refl;
    bytes_within = omega (arith, e.no_bytes);
    packets_within = rw (e.no_queue, e.no_bootstrap) (omega arith);
    maximum_within = e.most;
    nothing_after = λ _. (e.no_queue, e.no_bootstrap);
  }
  | inr c ↦ record {
    accounted = omega (arith, c.total);
    bytes_within = c.small;
    packets_within = omega (arith, c.few);
    maximum_within = c.most;
    nothing_after = λ closed. absurd (let r = c.running in cc);
  }
]

-- Whatever a new pacer is sent, and whenever its timers run: its byte count is the sum of the bytes that
-- it holds, which never exceeds 4 MiB, nor did at any time before; it holds at most 1024 packets; and it
-- holds none once it is closed.
pub run-start-Bounded :
    ⦃a : Arithmetic⦄ (audio_wait t : ℕ) (calls : List Call)
    → Bounded (run audio_wait (start t audio_wait) calls).0
run-start-Bounded audio_wait t calls =
    bounded (run audio_wait (start t audio_wait) calls).0
      (run-Within audio_wait (start t audio_wait) calls new)
  where
    new : Within [] (start t audio_wait)
    new =
        unfold start in
        unfold queued in
        unfold held in
        inr (record {
          total = refl;
          small = omega arith;
          few = omega arith;
          most = omega arith;
          running = refl;
        })
