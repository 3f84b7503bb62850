-- ===== src/Live/Pacer/Order/Calls.antt =====
-- acceptVideo and acceptAudio of LiveFramePacer, stream/live-frame-pacer.ts.
use eufy_mega_security.Prelude.{
  ℕ, suc, ◌-◌, ◌≡◌, refl, ap, ◌⊎◌, inl, inr, Bool, true, false, not, ◌||◌, Option, none, some, List,
  [], ◌∷◌, arith, ltb, nat_eq, nat_eq_iff, length, is_some,
}
use eufy_mega_security.Prelude.Bytes.{Bytes}
use eufy_mega_security.Live.Adts.{AdtsAccessUnit, parse_adts_access_units}
use eufy_mega_security.Live.Pacer.{
  Arithmetic, IsDouble, buffered, audio, Packet, FrameClock, Failure, input_limit, epoch_changed,
  clock_discontinuity, audio_invalid, Pacer, close, reject, arm, over_limit, stored, enqueue, then_,
  enqueue_bootstrap, origin_or, admit_startup,
}
use eufy_mega_security.Live.Pacer.Handlers.{
  batch_time, first_clock, later_clock, take_clock, advance, rebase, enqueue_video, accept_clocked,
  accept_by_clock, accept_video, enqueue_audio, accept_units, accept_audio, step_between,
}
use eufy_mega_security.Live.Pacer.Order.{
  waiting, LinedAt, Moves, reject-Moves, then-Moves, still-Moves, if_either, if_Moves,
}
use eufy_mega_security.Live.Pacer.Order.Accepting.{
  closed-Moves, from_same, enqueue-Moves, stored-Moves_audio, unclocked-Moves, enqueue_video-Moves,
  admit_startup-Moves,
}
use eufy_mega_security.Live.Pacer.Order.Clock.{take_clock-Moves}

-- Closed, or with an epoch.
abbrev Known : Pacer → Type 0
Known p = (p.closed ≡ true) ⊎ (is_some p.epoch ≡ true)

reject-Known : (reason : Failure) (p : Pacer) → Known (reject reason p).0
unfolding reject close
reject-Known reason p = inl refl

enqueue-Known : (now : ℕ) (packet : Packet) (p : Pacer) → Known p → Known (enqueue now packet p).0
unfolding enqueue arm stored
enqueue-Known now packet p k =
    if_either (λ r. Known r.0) p.closed _ _ (λ _. k)
      (λ _.
        if_either (λ r. Known r.0) (over_limit (length packet.body) p) _ _
          (λ _. reject-Known input_limit p) (λ _. k))

enqueue_bootstrap-Known :
    ⦃a : Arithmetic⦄ (now : ℕ) (bs : List Bytes) (p : Pacer)
    → Known p
    → Known (enqueue_bootstrap now bs p).0
unfolding enqueue_bootstrap then_
enqueue_bootstrap-Known now [] p k = k
enqueue_bootstrap-Known now (b ∷ bs) p k =
    enqueue_bootstrap-Known now bs _
      (enqueue-Known now _ (record p { bytes = p.bytes - length b }) k)

rebase-Known :
    (last : Option ℕ) (s : ℕ) (clock : FrameClock) (p : Pacer)
    → Known p
    → Known (rebase last s clock p).0
unfolding rebase advance
rebase-Known none s clock p k = reject-Known clock_discontinuity p
rebase-Known (some last) s clock p k =
    if_either (λ r. Known r.0) (ltb 2147483647 s || not clock.format_changed) _ _
      (λ _. reject-Known clock_discontinuity p) (λ _. k)

later_clock-Known :
    (epoch : ℕ) (clock : FrameClock) (p : Pacer) → Known p → Known (later_clock epoch clock p).0
unfolding later_clock
later_clock-Known epoch clock p k =
    if_either (λ r. Known r.0) (not (nat_eq clock.epoch epoch)) _ _
      (λ _. reject-Known epoch_changed p)
      (λ _.
        if_either (λ r. Known r.0) (ltb 5000 (step_between clock.timestamp p.previous_timestamp)) _
          _ (λ _. rebase-Known p.previous_video_step _ clock p k) (λ _. unfold advance in k))

take_clock-Known :
    ⦃a : Arithmetic⦄ (now : ℕ) (epoch : Option ℕ) (clock : FrameClock) (p : Pacer)
    → p.epoch ≡ epoch
    → Known (take_clock now epoch clock p).0
unfolding take_clock first_clock
take_clock-Known now none clock p e = enqueue_bootstrap-Known now p.bootstrap _ (inr refl)
take_clock-Known now (some epoch) clock p e = later_clock-Known epoch clock p (inr (ap is_some e))

or_true : (b : Bool) → (b || true) ≡ false → ⊥
or_true false h = cc
or_true true h = cc

or_false : (b : Bool) (n : ℕ) → (b || nat_eq (suc n) 0) ≡ true → b ≡ true
or_false false n h = absurd (let e = (nat_eq_iff (suc n) 0).0 h in omega (arith, e))
or_false true n h = refl

-- A unit that carries bytes.
unfoldable pub taken : Bytes → List Bytes
taken [] = []
taken (b ∷ bs) = (b ∷ bs) ∷ []

module _ ⦃a : Arithmetic⦄ ⦃law : IsDouble a⦄ (now audio_wait : ℕ) where
  clocked-Moves :
      (body : Bytes) (clock : FrameClock) (p : Pacer)
      → LinedAt p
      → Moves p (body ∷ []) (accept_clocked now audio_wait body clock p)
  unfolding accept_clocked
  clocked-Moves body clock p v =
      let a = take_clock-Moves now p.epoch clock p refl v in
      let b =
        enqueue_video-Moves now body (take_clock now p.epoch clock p).0
          (take_clock-Known now p.epoch clock p refl) a.lined in
      let ab =
        then-Moves p [] (body ∷ []) (take_clock now p.epoch clock p) (enqueue_video now body) a b in
      then-Moves p (body ∷ []) [] (then_ (take_clock now p.epoch clock p) (enqueue_video now body))
        (admit_startup now audio_wait) ab (admit_startup-Moves now audio_wait _ ab.lined)

  by_clock-Moves :
      (body : Bytes) (clock : Option FrameClock) (p : Pacer)
      → LinedAt p
      → Moves p (body ∷ []) (accept_by_clock now audio_wait body clock p)
  unfolding accept_by_clock
  by_clock-Moves body none p v = unclocked-Moves now body p v
  by_clock-Moves body (some clock) p v = clocked-Moves body clock p v

  pub accept_video-Moves :
      (body : Bytes) (clock : Option FrameClock) (p : Pacer)
      → LinedAt p
      → Moves p (taken body) (accept_video now audio_wait body clock p)
  unfolding accept_video taken
  accept_video-Moves [] clock p v =
      if_Moves p [] (p.closed || true) _ _ (λ _. still-Moves p p v refl (λ c. c))
        (λ running. absurd (or_true p.closed running))
  accept_video-Moves (b ∷ bs) clock p v =
      if_Moves p ((b ∷ bs) ∷ []) (p.closed || nat_eq (suc (length bs)) 0) _ _
        (λ closed. closed-Moves now p ((b ∷ bs) ∷ []) (or_false p.closed (length bs) closed) v)
        (λ _. by_clock-Moves (b ∷ bs) clock p v)

  -- A unit of audio, whose times alone change first.
  enqueue_audio-Moves :
      (body : Bytes) (units : List AdtsAccessUnit) (p : Pacer)
      → LinedAt p
      → Moves p [] (enqueue_audio now audio_wait body units p)
  unfolding enqueue_audio
  enqueue_audio-Moves body units p v =
      let origin = origin_or now p.audio_origin in
      let p' = record p {
        audio_origin = some origin;
        audio_elapsed = a.add p.audio_elapsed (batch_time 0 units);
      } in
      let v' : LinedAt p' = record {
        sorted = v.sorted;
        below = v.below;
        before = v.before;
        after = v.after;
        begun = v.begun;
      } in
      let packet : Packet = record {
        at_time = a.add (buffered origin) p.audio_elapsed;
        kind = audio;
        body = body;
      } in
      let m =
        from_same now p p' [] (enqueue now packet p') (unfold waiting in refl) (λ c. c)
          (enqueue-Moves now packet p' [] v' (stored-Moves_audio now packet p' refl v')) in
      let queued = enqueue now packet p' in
      let seen : Moves p [] (record queued.0 { audio_seen = true }, queued.1) = record {
        lined = record {
          sorted = m.lined.sorted;
          below = m.lined.below;
          before = m.lined.before;
          after = m.lined.after;
          begun = m.lined.begun;
        };
        flow = unfold waiting in m.flow;
        stays = m.stays;
      } in
      then-Moves p [] [] (record queued.0 { audio_seen = true }, queued.1)
        (admit_startup now audio_wait) seen (admit_startup-Moves now audio_wait _ seen.lined)

  units-Moves :
      (body : Bytes) (units : Option (List AdtsAccessUnit)) (p : Pacer)
      → LinedAt p
      → Moves p [] (accept_units now audio_wait body units p)
  unfolding accept_units
  units-Moves body none p v = reject-Moves p [] audio_invalid v
  units-Moves body (some units) p v = enqueue_audio-Moves body units p v

  pub accept_audio-Moves :
      (body : Bytes) (p : Pacer) → LinedAt p → Moves p [] (accept_audio now audio_wait body p)
  unfolding accept_audio
  accept_audio-Moves body p v =
      if_Moves p [] (p.closed || p.audio_disabled || nat_eq (length body) 0) _ _
        (λ _. still-Moves p p v refl (λ c. c))
        (λ _. units-Moves body (parse_adts_access_units body) p v)
