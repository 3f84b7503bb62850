-- ===== src/Live/Pacer/Bounds/Clock.antt =====
-- The clock and the start of LiveFramePacer, stream/live-frame-pacer.ts, and its limits.
use eufy_mega_security.Prelude.{
  ℕ, ◌+◌, ◌≡◌, refl, ap, ◌∙◌, inl, inr, Bool, true, false, not, ◌||◌, Option, none, some, [], map,
  arith, ltb, nat_eq, length, is_some,
}
use eufy_mega_security.Prelude.Bytes.{Bytes}
use eufy_mega_security.Live.Pacer.{
  Arithmetic, max_bytes, FrameClock, input_limit, clock_missing, epoch_changed, clock_discontinuity,
  Pacer, arm, over_limit, shift_packet, sort_packets, origin_or, release, admit_startup,
}
use eufy_mega_security.Live.Pacer.Handlers.{
  accept_unclocked, first_clock, later_clock, take_clock, advance, rebase, step_between,
}
use eufy_mega_security.Live.Pacer.Order.{if_either}
use eufy_mega_security.Live.Pacer.Bounds.{
  queued-sorted, held, held-last, length-last, under_limit, max-le, Within, reject-Within,
  enqueue_bootstrap-Within,
}

rebase-Within :
    (last : Option ℕ) (s : ℕ) (clock : FrameClock) (p : Pacer)
    → Within [] p
    → Within [] (rebase last s clock p).0
unfolding rebase advance
rebase-Within none s clock p w = reject-Within [] [] clock_discontinuity p w
rebase-Within (some last) s clock p w =
    if_either (λ r. Within [] r.0) (ltb 2147483647 s || not clock.format_changed) _ _
      (λ _. reject-Within [] [] clock_discontinuity p w) (λ _. w)

module _ ⦃a : Arithmetic⦄ (now : ℕ) where
  first_clock-Within :
      (clock : FrameClock) (p : Pacer) → Within [] p → Within [] (first_clock now clock p).0
  unfolding first_clock
  first_clock-Within clock p w = enqueue_bootstrap-Within now p.bootstrap _ (elim w [
    | inl e ↦ inl (record {
      no_queue = e.no_queue;
      no_bootstrap = refl;
      no_bytes = e.no_bytes;
      most = e.most;
      shut = e.shut;
    })
    | inr c ↦ inr (record {
      total = unfold held in omega (arith, c.total);
      small = c.small;
      few = omega (arith, c.few);
      most = c.most;
      running = c.running;
    })
  ])

  pub unclocked-Within :
      (body : Bytes) (p : Pacer)
      → p.closed ≡ false
      → Within [] p
      → Within [] (accept_unclocked body p).0
  unfolding accept_unclocked
  unclocked-Within body p running w =
      if_either (λ r. Within [] r.0) (is_some p.epoch) _ _
        (λ _. reject-Within [] [] clock_missing p w)
        (λ _.
          if_either (λ r. Within [] r.0) (over_limit (length body) p) _ _
            (λ _. reject-Within [] [] input_limit p w)
            (λ fits. elim w [
              | inl e ↦ absurd (let s = e.shut in cc)
              | inr c ↦
                  let u = under_limit (length body) p fits in
                  inr (record {
                    total = omega (arith, c.total, held-last p.bootstrap body);
                    small = u.0;
                    few = omega (arith, u.1, length-last p.bootstrap body);
                    most = max-le p.maximum_bytes (p.bytes + length body) max_bytes c.most u.0;
                    running = c.running;
                  })
            ]))

  later_clock-Within :
      (epoch : ℕ) (clock : FrameClock) (p : Pacer)
      → Within [] p
      → Within [] (later_clock epoch clock p).0
  unfolding later_clock
  later_clock-Within epoch clock p w =
      if_either (λ r. Within [] r.0) (not (nat_eq clock.epoch epoch)) _ _
        (λ _. reject-Within [] [] epoch_changed p w)
        (λ _.
          if_either (λ r. Within [] r.0)
            (ltb 5000 (step_between clock.timestamp p.previous_timestamp)) _ _
            (λ _. rebase-Within p.previous_video_step _ clock p w) (λ _. unfold advance in w))

  pub take_clock-Within :
      (epoch : Option ℕ) (clock : FrameClock) (p : Pacer)
      → Within [] p
      → Within [] (take_clock now epoch clock p).0
  unfolding take_clock
  take_clock-Within none clock p w = first_clock-Within clock p w
  take_clock-Within (some epoch) clock p w = later_clock-Within epoch clock p w

  pub release-Within :
      (with_audio : Bool) (p : Pacer) → Within [] p → Within [] (release now with_audio p).0
  unfolding release arm
  release-Within with_audio p w =
      let q =
        queued-sorted (a.less now p.video_origin) (a.less now (origin_or now p.audio_origin))
          p.queue in
      elim w [
        | inl e ↦ inl (record {
          no_queue =
              ap
                (λ l. sort_packets (
                  map
                    (shift_packet (a.less now p.video_origin)
                      (a.less now (origin_or now p.audio_origin)))
                    l))
                e.no_queue
              ∙ (unfold sort_packets in refl);
          no_bootstrap = e.no_bootstrap;
          no_bytes = e.no_bytes;
          most = e.most;
          shut = e.shut;
        })
        | inr c ↦ inr (record {
          total = omega (arith, c.total, q.0);
          small = c.small;
          few = omega (arith, c.few, q.1);
          most = c.most;
          running = c.running;
        })
      ]

  pub admit_startup-Within :
      (audio_wait : ℕ) (p : Pacer) → Within [] p → Within [] (admit_startup now audio_wait p).0
  unfolding admit_startup
  admit_startup-Within audio_wait p w =
      if_either (λ r. Within [] r.0) (p.closed || not p.startup_waiting || not (is_some p.epoch)) _
        _ (λ _. w)
        (λ _.
          if_either (λ r. Within [] r.0) p.audio_seen _ _ (λ _. release-Within true p w) (λ _. w))
