-- ===== src/Live/Pacer/Handlers.antt =====
-- acceptVideo, acceptAudio and the timers of LiveFramePacer, stream/live-frame-pacer.ts.
use eufy_mega_security.Prelude.{
  ℕ, ◌+◌, ◌-◌, ◌%◌, Bool, true, false, not, ◌&&◌, ◌||◌, Option, none, some, List, [], ◌∷◌, ◌++◌,
  ltb, leb, nat_eq, max, if◌then◌else◌, length, is_some,
}
use eufy_mega_security.Prelude.Bytes.{Bytes}
use eufy_mega_security.Live.Adts.{AdtsAccessUnit, parse_adts_access_units}
use eufy_mega_security.Live.Pacer.{
  Arithmetic, buffered, Kind, Packet, FrameClock, Effect, plays, Pacer, close, reject, arm,
  over_limit, enqueue, then_, enqueue_bootstrap, origin_or, release, admit_startup, video, audio,
  clock_missing, input_limit, epoch_changed, clock_discontinuity, audio_invalid,
}

-- A unit without a clock.
unfoldable pub accept_unclocked : Bytes → Pacer → Pacer × List Effect
unfolding over_limit reject
accept_unclocked body p =
    if is_some p.epoch
    then reject clock_missing p
    else if over_limit (length body) p
    then reject input_limit p
    else (
      record p {
        bootstrap = p.bootstrap ++ (body ∷ []);
        bytes = p.bytes + length body;
        maximum_bytes = max p.maximum_bytes (p.bytes + length body);
      },
      [],
    )

module _ ⦃a : Arithmetic⦄ where
  -- The first clocked unit sets the epoch and the origin.
  unfoldable pub first_clock : ℕ → FrameClock → Pacer → Pacer × List Effect
  unfolding enqueue_bootstrap
  first_clock now clock p = enqueue_bootstrap now p.bootstrap (record p {
    epoch = some clock.epoch;
    previous_timestamp = clock.timestamp;
    video_origin = now;
    admission_timer = none;
    bootstrap = [];
  })

-- `(timestamp - previous) >>> 0`.
pub step_between : ℕ → ℕ → ℕ
step_between timestamp previous = (timestamp + 4294967296 - previous % 4294967296) % 4294967296

pub keep_step : ℕ → Option ℕ → Option ℕ
keep_step step known = if ltb 0 step && leb step 1000 then some step else known

unfoldable pub advance : ℕ → FrameClock → Pacer → Pacer
unfolding keep_step
advance step clock p = record p {
  previous_video_step = keep_step step p.previous_video_step;
  video_elapsed = p.video_elapsed + step;
  previous_timestamp = clock.timestamp;
}

-- A step above five seconds, if it may be bridged.
unfoldable pub rebase : Option ℕ → ℕ → FrameClock → Pacer → Pacer × List Effect
unfolding reject advance
rebase none step clock p = reject clock_discontinuity p
rebase (some last) step clock p =
    if ltb 2147483647 step || not clock.format_changed
    then reject clock_discontinuity p
    else (advance last clock (record p { clock_rebases = p.clock_rebases + 1 }), [])

unfoldable pub later_clock : ℕ → FrameClock → Pacer → Pacer × List Effect
unfolding reject rebase advance step_between
later_clock epoch clock p =
    if not (nat_eq clock.epoch epoch)
    then reject epoch_changed p
    else let step = step_between clock.timestamp p.previous_timestamp in
      if ltb 5000 step
      then rebase p.previous_video_step step clock p
      else (advance step clock p, [])

module _ ⦃a : Arithmetic⦄ where
  unfoldable pub take_clock : ℕ → Option ℕ → FrameClock → Pacer → Pacer × List Effect
  unfolding first_clock later_clock
  take_clock now none clock p = first_clock now clock p
  take_clock now (some epoch) clock p = later_clock epoch clock p

  unfoldable pub enqueue_video : ℕ → Bytes → Pacer → Pacer × List Effect
  unfolding enqueue buffered
  enqueue_video now body p =
      enqueue now
        (record {
          at_time = a.add (buffered p.video_origin) (a.whole p.video_elapsed);
          kind = video;
          body = body;
        })
        p

  unfoldable pub accept_clocked : ℕ → ℕ → Bytes → FrameClock → Pacer → Pacer × List Effect
  unfolding then_ take_clock enqueue_video admit_startup
  accept_clocked now audio_wait body clock p =
      then_ (then_ (take_clock now p.epoch clock p) (enqueue_video now body))
        (admit_startup now audio_wait)

  unfoldable pub accept_by_clock : ℕ → ℕ → Bytes → Option FrameClock → Pacer → Pacer × List Effect
  unfolding accept_unclocked accept_clocked
  accept_by_clock now audio_wait body none p = accept_unclocked body p
  accept_by_clock now audio_wait body (some clock) p = accept_clocked now audio_wait body clock p

  -- `acceptVideo`.
  unfoldable pub accept_video : ℕ → ℕ → Bytes → Option FrameClock → Pacer → Pacer × List Effect
  unfolding accept_by_clock
  accept_video now audio_wait body clock p =
      if p.closed || nat_eq (length body) 0
      then (p, [])
      else accept_by_clock now audio_wait body clock p

  -- `units.reduce((total, unit) => total + unit.samples / unit.sampleRate * 1_000, 0)`.
  unfoldable pub batch_time : ℕ → List AdtsAccessUnit → ℕ
  batch_time total [] = total
  batch_time total (u ∷ units) = batch_time (a.add total (a.lasting u.samples u.sample_rate)) units

  unfoldable pub enqueue_audio : ℕ → ℕ → Bytes → List AdtsAccessUnit → Pacer → Pacer × List Effect
  unfolding enqueue then_ admit_startup origin_or batch_time buffered
  enqueue_audio now audio_wait body units p =
      let origin = origin_or now p.audio_origin in
      let clocked = record p {
        audio_origin = some origin;
        audio_elapsed = a.add p.audio_elapsed (batch_time 0 units);
      } in
      let queued =
        enqueue now
          (record { at_time = a.add (buffered origin) p.audio_elapsed; kind = audio; body = body })
          clocked in
      then_ (record queued.0 { audio_seen = true }, queued.1) (admit_startup now audio_wait)

  unfoldable pub accept_units :
      ℕ → ℕ → Bytes → Option (List AdtsAccessUnit) → Pacer → Pacer × List Effect
  unfolding reject enqueue_audio
  accept_units now audio_wait body none p = reject audio_invalid p
  accept_units now audio_wait body (some units) p = enqueue_audio now audio_wait body units p

  -- `acceptAudio`.
  unfoldable pub accept_audio : ℕ → ℕ → Bytes → Pacer → Pacer × List Effect
  unfolding accept_units parse_adts_access_units
  accept_audio now audio_wait body p =
      if p.closed || p.audio_disabled || nat_eq (length body) 0
      then (p, [])
      else accept_units now audio_wait body (parse_adts_access_units body) p

  unfoldable pub play : Packet → Pacer → Effect
  unfolding origin_or
  play packet p = plays packet.kind packet.body (
      a.less packet.at_time
        (elim packet.kind [ video ↦ p.video_origin | audio ↦ origin_or 0 p.audio_origin ]))

pub is_video : Kind → Bool
is_video video = true
is_video audio = false

unfoldable pub count_played : Packet → Pacer → Pacer
unfolding is_video
count_played packet p = record p {
  bytes = p.bytes - length packet.body;
  video_packets = if is_video packet.kind then p.video_packets + 1 else p.video_packets;
  audio_packets = if is_video packet.kind then p.audio_packets else p.audio_packets + 1;
}

module _ ⦃a : Arithmetic⦄ where
  -- The loop of the timer's callback, over the queue.
  unfoldable pub play_due : ℕ → List Packet → Pacer → Pacer × List Effect
  unfolding play count_played
  play_due now [] p = (record p { queue = [] }, [])
  play_due now (packet ∷ queue) p =
      let rest = play_due now queue (count_played packet p) in
      if leb packet.at_time now
      then (rest.0, play packet p ∷ rest.1)
      else (record p { queue = packet ∷ queue }, [])

pub is_due : ℕ → Option ℕ → Bool
is_due now none = false
is_due now (some due) = leb due now

module _ ⦃a : Arithmetic⦄ where
  -- The pacing timer.
  unfoldable pub elapse : ℕ → Pacer → Pacer × List Effect
  unfolding is_due play_due arm
  elapse now p =
      if is_due now p.timer
      then (let r = play_due now p.queue (record p { timer = none }) in (arm now r.0, r.1))
      else (p, [])

-- The ten seconds without a clock.
unfoldable pub elapse_admission : ℕ → Pacer → Pacer × List Effect
unfolding is_due reject
elapse_admission now p =
    if is_due now p.admission_timer
    then (if is_some p.epoch
        then (record p { admission_timer = none }, [])
        else reject clock_missing p)
    else (p, [])

module _ ⦃a : Arithmetic⦄ where
  -- The end of the wait for audio.
  unfoldable pub elapse_audio_admission : ℕ → Pacer → Pacer × List Effect
  unfolding is_due release
  elapse_audio_admission now p =
      if is_due now p.audio_admission_timer
      then (if p.closed || not p.startup_waiting
          then (record p { audio_admission_timer = none }, [])
          else release now false p)
      else (p, [])

pub data Call : Type 0 where
  sends_video : ℕ → Bytes → Option FrameClock → Call
  sends_audio : ℕ → Bytes → Call
  paces admission_ends audio_wait_ends : ℕ → Call
  closes : Call

module _ ⦃a : Arithmetic⦄ (audio_wait : ℕ) where
  unfoldable pub step : Pacer → Call → Pacer × List Effect
  unfolding accept_video accept_audio elapse elapse_admission elapse_audio_admission close
  step p (sends_video now body clock) = accept_video now audio_wait body clock p
  step p (sends_audio now body) = accept_audio now audio_wait body p
  step p (paces now) = elapse now p
  step p (admission_ends now) = elapse_admission now p
  step p (audio_wait_ends now) = elapse_audio_admission now p
  step p closes = (close p, [])

  unfoldable pub run : Pacer → List Call → Pacer × List Effect
  unfolding step
  run p [] = (p, [])
  run p (call ∷ calls) = let r = step p call in let rest = run r.0 calls in (rest.0, r.1 ++ rest.1)
