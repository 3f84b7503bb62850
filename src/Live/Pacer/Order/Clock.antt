-- ===== src/Live/Pacer/Order/Clock.antt =====
-- How LiveFramePacer of stream/live-frame-pacer.ts follows the clock of its units.
use mathlib.Core.List.{append-nil}
use eufy_mega_security.Prelude.{
  ℕ, ◌+◌, ◌≡◌, refl, sym, subst, ap, ◌∙◌, inr, true, not, ◌||◌, Option, none, some, List, [], ◌++◌,
  arith, All, ltb, nat_eq, is_some,
}
use eufy_mega_security.Live.Pacer.{
  Arithmetic, IsDouble, buffered, Packet, FrameClock, epoch_changed, clock_discontinuity, Pacer,
}
use eufy_mega_security.Live.Pacer.Handlers.{
  first_clock, later_clock, take_clock, advance, rebase, step_between,
}
use eufy_mega_security.Live.Pacer.Lined.{vids, bodies, AtMost, AtMost-le}
use eufy_mega_security.Live.Pacer.Order.{
  waiting, LinedAt, Moves, reject-Moves, still-Moves, if_Moves,
}
use eufy_mega_security.Live.Pacer.Order.Accepting.{is_some-none, from_same, enqueue_bootstrap-Moves}

module _ ⦃a : Arithmetic⦄ ⦃law : IsDouble a⦄ (now : ℕ) where
  advance-Moves :
      (s : ℕ) (clock : FrameClock) (p : Pacer)
      → is_some p.epoch ≡ true
      → LinedAt p
      → Moves p [] (advance s clock p, [])
  unfolding advance
  advance-Moves s clock p known v =
      still-Moves p (advance s clock p)
        (record {
          sorted = v.sorted;
          below =
              AtMost-le (a.add (buffered p.video_origin) (a.whole p.video_elapsed))
                (a.add (buffered p.video_origin) (a.whole (p.video_elapsed + s))) (vids p.queue)
                (law.add_rising (buffered p.video_origin) (a.whole p.video_elapsed)
                  (a.whole (p.video_elapsed + s))
                  (law.whole_rising p.video_elapsed (p.video_elapsed + s) (omega arith)))
                v.below;
          before = λ e. absurd (is_some-none p.epoch known e);
          after = v.after;
          begun = v.begun;
        })
        (unfold waiting in refl) (λ c. c)

  rebase-Moves :
      (last : Option ℕ) (s : ℕ) (clock : FrameClock) (p : Pacer)
      → is_some p.epoch ≡ true
      → LinedAt p
      → Moves p [] (rebase last s clock p)
  unfolding rebase
  rebase-Moves none s clock p known v = reject-Moves p [] clock_discontinuity v
  rebase-Moves (some last) s clock p known v =
      if_Moves p [] (ltb 2147483647 s || not clock.format_changed) _ _
        (λ _. reject-Moves p [] clock_discontinuity v)
        (λ _.
          from_same now p (record p { clock_rebases = p.clock_rebases + 1 }) [] _
            (unfold waiting in refl) (λ c. c)
            (advance-Moves last clock (record p { clock_rebases = p.clock_rebases + 1 }) known v))

  later_clock-Moves :
      (epoch : ℕ) (clock : FrameClock) (p : Pacer)
      → is_some p.epoch ≡ true
      → LinedAt p
      → Moves p [] (later_clock epoch clock p)
  unfolding later_clock
  later_clock-Moves epoch clock p known v =
      if_Moves p [] (not (nat_eq clock.epoch epoch)) _ _ (λ _. reject-Moves p [] epoch_changed v)
        (λ _.
          if_Moves p [] (ltb 5000 (step_between clock.timestamp p.previous_timestamp)) _ _
            (λ _. rebase-Moves p.previous_video_step _ clock p known v)
            (λ _. advance-Moves _ clock p known v))

  first_clock-Moves :
      (clock : FrameClock) (p : Pacer)
      → p.epoch ≡ none
      → LinedAt p
      → Moves p [] (first_clock now clock p)
  unfolding first_clock
  first_clock-Moves clock p fresh v =
      let p' = record p {
        epoch = some clock.epoch;
        previous_timestamp = clock.timestamp;
        video_origin = now;
        admission_timer = none;
        bootstrap = [];
      } in
      let nothing = (v.before fresh).0 in
      let none_yet : (bound : ℕ) → All (AtMost bound) (vids p.queue) =
        λ bound. subst (λ (l : List Packet). All (AtMost bound) l) (sym nothing) tt in
      let v' : LinedAt p' = record {
        sorted = v.sorted;
        below = none_yet _;
        before = λ missing. absurd (is_some-none p'.epoch refl missing);
        after = λ _. refl;
        begun = v.begun;
      } in
      let m =
        enqueue_bootstrap-Moves now p.bootstrap p'
          (inr (record { lined = v'; known = refl; early = none_yet _ })) v' in
      record {
        lined = m.lined;
        flow = λ open_still.
            m.flow open_still
            ∙ (unfold waiting in
                ap (λ l. l ++ p.bootstrap) (append-nil (bodies (vids p.queue)))
                ∙ sym (append-nil (bodies (vids p.queue) ++ p.bootstrap)));
        stays = m.stays;
      }

  pub take_clock-Moves :
      (epoch : Option ℕ) (clock : FrameClock) (p : Pacer)
      → p.epoch ≡ epoch
      → LinedAt p
      → Moves p [] (take_clock now epoch clock p)
  unfolding take_clock
  take_clock-Moves none clock p e v = first_clock-Moves clock p e v
  take_clock-Moves (some epoch) clock p e v = later_clock-Moves epoch clock p (ap is_some e) v
