-- ===== src/Live/Pacer/Order/Accepting.antt =====
-- What LiveFramePacer of stream/live-frame-pacer.ts does with a unit that it is sent.
use mathlib.Core.List.{append_assoc, append-nil}
use eufy_mega_security.Prelude.{
  ℕ, ◌-◌, ◌≤◌, ◌≡◌, refl, sym, ap, ◌∙◌, ◌⊎◌, inl, inr, Bool, true, not, ◌||◌, Option, none, some,
  List, [], ◌∷◌, ◌++◌, arith, All, All-append, length, is_some, false,
}
use eufy_mega_security.Prelude.Bytes.{Bytes}
use eufy_mega_security.Live.Pacer.{
  Arithmetic, IsDouble, buffered, video, audio, Packet, input_limit, clock_missing, Effect, Pacer,
  close, reject, arm, over_limit, stored, enqueue, enqueue_bootstrap, admit_startup,
}
use eufy_mega_security.Live.Pacer.Handlers.{accept_unclocked, enqueue_video}
use eufy_mega_security.Live.Pacer.Lined.{
  vids, bodies, AtMost, bodies-append, Rising-insert, vids-insert_video, vids-insert_audio,
}
use eufy_mega_security.Live.Pacer.Order.{
  played, waiting, LinedAt, Moves, reject-Moves, then-Moves, still-Moves, if_either, if_Moves,
}

pub is_some-none : {A : Type 0} (o : Option A) → is_some o ≡ true → o ≡ none → ⊥
is_some-none none h e = cc
is_some-none (some a) h e = cc

waits_not : (b w k : Bool) → (b || not w || not k) ≡ false → w ≡ false → ⊥
waits_not b true k h e = cc
waits_not true false k h e = cc
waits_not false false k h e = cc

module _ ⦃a : Arithmetic⦄ ⦃law : IsDouble a⦄ (now : ℕ) where
  pub closed-Moves :
      (p : Pacer) (extra : List Bytes) → p.closed ≡ true → LinedAt p → Moves p extra (p, [])
  closed-Moves p extra c v = record { lined = v; flow = λ open_still. cc; stays = λ _. c }

  buffered_below : (t n : ℕ) → t ≤ a.add t (a.whole n)
  buffered_below t n =
      let rising = law.add_rising t (a.whole 0) (a.whole n) (law.whole_rising 0 n (omega arith)) in
      omega (arith, rising, law.add_zero t)

  -- A video packet behind all others.
  stored-Moves_video :
      (packet : Packet) (p : Pacer)
      → packet.kind ≡ video
      → is_some p.epoch ≡ true
      → LinedAt p
      → All (AtMost packet.at_time) (vids p.queue)
      → packet.at_time ≤ a.add (buffered p.video_origin) (a.whole p.video_elapsed)
      → Moves p (packet.body ∷ []) (arm now (stored now packet p), [])
  unfolding arm stored played waiting bodies
  stored-Moves_video packet p k e v last l =
      let there = vids-insert_video packet p.queue k v.sorted last in
      record {
        lined = record {
          sorted = Rising-insert packet p.queue v.sorted;
          below = rw there (All-append (AtMost _) (vids p.queue) (packet ∷ []) v.below (l, tt));
          before = λ missing. absurd (is_some-none p.epoch e missing);
          after = v.after;
          begun = v.begun;
        };
        flow = λ _.
            rw (v.after e, there, bodies-append (vids p.queue) (packet ∷ []))
              (append-nil _
                ∙ sym (ap (λ l. l ++ (packet.body ∷ [])) (append-nil (bodies (vids p.queue)))));
        stays = λ c. c;
      }

  pub stored-Moves_audio :
      (packet : Packet) (p : Pacer)
      → packet.kind ≡ audio
      → LinedAt p
      → Moves p [] (arm now (stored now packet p), [])
  unfolding arm stored played waiting
  stored-Moves_audio packet p k v =
      let there = vids-insert_audio packet p.queue k in
      record {
        lined = record {
          sorted = Rising-insert packet p.queue v.sorted;
          below = rw there v.below;
          before = λ missing. (there ∙ (v.before missing).0, (v.before missing).1);
          after = v.after;
          begun = v.begun;
        };
        flow = λ _. rw there (sym (append-nil _));
        stays = λ c. c;
      }

  pub enqueue-Moves :
      (packet : Packet) (p : Pacer) (extra : List Bytes)
      → LinedAt p
      → Moves p extra (arm now (stored now packet p), [])
      → Moves p extra (enqueue now packet p)
  unfolding enqueue
  enqueue-Moves packet p extra v m =
      if_Moves p extra p.closed _ _ (λ closed. closed-Moves p extra closed v)
        (λ _.
          if_Moves p extra (over_limit (length packet.body) p) _ _
            (λ _. reject-Moves p extra input_limit v) (λ _. m))

  -- The same state, as far as the queue goes.
  pub from_same :
      (p p' : Pacer) (extra : List Bytes) (r : Pacer × List Effect)
      → waiting p' ≡ waiting p
      → (p.closed ≡ true → p'.closed ≡ true)
      → Moves p' extra r
      → Moves p extra r
  from_same p p' extra r w c m = record {
    lined = m.lined;
    flow = λ open_still. m.flow open_still ∙ ap (λ l. l ++ extra) w;
    stays = λ closed. m.stays (c closed);
  }

  -- What a bootstrap still needs of the queue.
  pub record Ready (p : Pacer) : Type 0 where
    pub lined : LinedAt p
    pub known : is_some p.epoch ≡ true
    pub early : All (AtMost (buffered p.video_origin)) (vids p.queue)

  Ready-without_bytes :
      (p : Pacer) {n : ℕ}
      → (p.closed ≡ true) ⊎ Ready p
      → ((record p { bytes = n }).closed ≡ true) ⊎ Ready (record p { bytes = n })
  Ready-without_bytes p r = elim r [
    | inl closed ↦ inl closed
    | inr ready ↦ inr (record { lined = ready.lined; known = ready.known; early = ready.early })
  ]

  abbrev first_packet : Bytes → Pacer → Packet
  first_packet body p = record { at_time = buffered p.video_origin; kind = video; body = body }

  first-Moves :
      (body : Bytes) (p : Pacer)
      → (p.closed ≡ true) ⊎ Ready p
      → LinedAt p
      → Moves p (body ∷ []) (enqueue now (first_packet body p) p)
  first-Moves body p (inl closed) v =
      unfold enqueue in
      if_Moves p (body ∷ []) p.closed _ _ (λ _. closed-Moves p (body ∷ []) closed v)
        (λ running. absurd (cc))
  first-Moves body p (inr ready) v = enqueue-Moves (first_packet body p) p (body ∷ []) v (
      stored-Moves_video (first_packet body p) p refl ready.known v ready.early
        (buffered_below (buffered p.video_origin) p.video_elapsed))

  Ready-after :
      (body : Bytes) (p : Pacer)
      → (p.closed ≡ true) ⊎ Ready p
      → ((enqueue now (first_packet body p) p).0.closed ≡ true)
        ⊎ Ready (enqueue now (first_packet body p) p).0
  unfolding enqueue
  Ready-after body p (inl closed) =
      if_either (λ r. (r.0.closed ≡ true) ⊎ Ready r.0) p.closed _ _ (λ _. inl closed)
        (λ running. absurd (cc))
  Ready-after body p (inr ready) =
      if_either (λ r. (r.0.closed ≡ true) ⊎ Ready r.0) p.closed _ _ (λ closed. inl closed)
        (λ _.
          if_either (λ r. (r.0.closed ≡ true) ⊎ Ready r.0) (over_limit (length body) p) _ _
            (λ _. inl (unfold reject close in refl))
            (λ _. inr (record {
              lined =
                  (stored-Moves_video (first_packet body p) p refl ready.known ready.lined
                    ready.early (buffered_below (buffered p.video_origin) p.video_elapsed)).lined;
              known = unfold arm stored in ready.known;
              early =
                  unfold arm stored in
                  rw
                    (vids-insert_video (first_packet body p) p.queue refl ready.lined.sorted
                      ready.early)
                    (All-append (AtMost _) (vids p.queue) (first_packet body p ∷ []) ready.early
                      (omega arith, tt));
            })))

  pub enqueue_bootstrap-Moves :
      (bs : List Bytes) (p : Pacer)
      → (p.closed ≡ true) ⊎ Ready p
      → LinedAt p
      → Moves p bs (enqueue_bootstrap now bs p)
  unfolding enqueue_bootstrap
  enqueue_bootstrap-Moves [] p r v = still-Moves p p v refl (λ c. c)
  enqueue_bootstrap-Moves (body ∷ bs) p r v =
      let p' = record p { bytes = p.bytes - length body } in
      let r' = Ready-without_bytes p r in
      then-Moves p (body ∷ []) bs _ (enqueue_bootstrap now bs)
        (from_same p p' (body ∷ []) _ (unfold waiting in refl) (λ c. c) (first-Moves body p' r' v))
        (enqueue_bootstrap-Moves bs _ (Ready-after body p' r') (first-Moves body p' r' v).lined)

  pub unclocked-Moves :
      (body : Bytes) (p : Pacer) → LinedAt p → Moves p (body ∷ []) (accept_unclocked body p)
  unfolding accept_unclocked waiting played
  unclocked-Moves body p v =
      if_Moves p (body ∷ []) (is_some p.epoch) _ _ (λ _. reject-Moves p (body ∷ []) clock_missing v)
        (λ fresh.
          if_Moves p (body ∷ []) (over_limit (length body) p) _ _
            (λ _. reject-Moves p (body ∷ []) input_limit v)
            (λ _. record {
              lined = record {
                sorted = v.sorted;
                below = v.below;
                before = v.before;
                after = λ e. cc;
                begun = v.begun;
              };
              flow = λ _. sym (append_assoc (bodies (vids p.queue)) p.bootstrap (body ∷ []));
              stays = λ c. c;
            }))

  pub enqueue_video-Moves :
      (body : Bytes) (p : Pacer)
      → (p.closed ≡ true) ⊎ (is_some p.epoch ≡ true)
      → LinedAt p
      → Moves p (body ∷ []) (enqueue_video now body p)
  enqueue_video-Moves body p (inl closed) v =
      unfold enqueue_video in
      unfold enqueue in
      if_Moves p (body ∷ []) p.closed _ _ (λ _. closed-Moves p (body ∷ []) closed v)
        (λ running. absurd (cc))
  enqueue_video-Moves body p (inr known) v =
      unfold enqueue_video in
      enqueue-Moves _ p (body ∷ []) v (stored-Moves_video _ p refl known v v.below (omega arith))

  pub admit_startup-Moves :
      (audio_wait : ℕ) (p : Pacer) → LinedAt p → Moves p [] (admit_startup now audio_wait p)
  unfolding admit_startup
  admit_startup-Moves audio_wait p v =
      if_Moves p [] (p.closed || not p.startup_waiting || not (is_some p.epoch)) _ _
        (λ _. still-Moves p p v refl (λ c. c))
        (λ waits. absurd (waits_not p.closed p.startup_waiting (is_some p.epoch) waits v.begun))
