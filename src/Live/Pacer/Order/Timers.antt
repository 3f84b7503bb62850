-- ===== src/Live/Pacer/Order/Timers.antt =====
-- The three timers of LiveFramePacer, stream/live-frame-pacer.ts.
use mathlib.Core.List.{append-nil}
use eufy_mega_security.Prelude.{
  ℕ, ◌≡◌, refl, sym, subst, ap, ◌∙◌, inl, inr, false, not, ◌||◌, none, List, [], ◌∷◌, ◌++◌, All,
  leb, is_some, Bool, true,
}
use eufy_mega_security.Prelude.Bytes.{Bytes}
use eufy_mega_security.Live.Pacer.{
  Arithmetic, IsDouble, Kind, video, audio, Packet, clock_missing, Effect, Pacer, arm,
}
use eufy_mega_security.Live.Pacer.Handlers.{
  play, count_played, play_due, is_due, elapse, elapse_admission, elapse_audio_admission,
}
use eufy_mega_security.Live.Pacer.Lined.{vids, bodies, vids-video, vids-audio, kinds}
use eufy_mega_security.Live.Pacer.Order.{
  played, played_kind, waiting, LinedAt, Moves, reject-Moves, still-Moves, if_Moves,
}

not_waiting : (b w : Bool) → (b || not w) ≡ false → w ≡ false → ⊥
not_waiting b true h e = cc
not_waiting true false h e = cc
not_waiting false false h e = cc

played_of :
    ⦃a : Arithmetic⦄ (k : Kind) (packet : Packet) (p : Pacer) (es : List Effect)
    → packet.kind ≡ k
    → played (play packet p ∷ es) ≡ played_kind k packet.body (played es)
unfolding play played
played_of k packet p es e = rw e refl

vids_tail :
    (P : Packet → Type 0) (q : Packet) (qs : List Packet) → All P (vids (q ∷ qs)) → All P (vids qs)
vids_tail P q qs v = elim (kinds q.kind) [
  | inl k ↦ (subst (λ (l : List Packet). All P l) (vids-video q qs k) v).1
  | inr k ↦ subst (λ (l : List Packet). All P l) (vids-audio q qs k) v
]

vids_tail-none : (q : Packet) (qs : List Packet) → vids (q ∷ qs) ≡ [] → vids qs ≡ []
vids_tail-none q qs e = elim (kinds q.kind) [
  | inl k ↦ absurd (let l = vids-video q qs k in cc)
  | inr k ↦ sym (vids-audio q qs k) ∙ e
]

-- The head of the queue, played.
play-flow :
    ⦃a : Arithmetic⦄ (packet : Packet) (p : Pacer) (queue : List Packet) (es : List Effect)
    (later : List Bytes)
    → played es ++ later ≡ bodies (vids queue) ++ p.bootstrap
    → played (play packet p ∷ es) ++ later ≡ bodies (vids (packet ∷ queue)) ++ p.bootstrap
unfolding played_kind bodies
play-flow packet p queue es later h = elim (kinds packet.kind) [
  | inl k ↦
      ap (λ l. l ++ later) (played_of video packet p es k)
      ∙ ap (◌∷◌ packet.body) h
      ∙ ap (λ l. bodies l ++ p.bootstrap) (sym (vids-video packet queue k))
  | inr k ↦
      ap (λ l. l ++ later) (played_of audio packet p es k)
      ∙ h
      ∙ ap (λ l. bodies l ++ p.bootstrap) (sym (vids-audio packet queue k))
]

module _ ⦃a : Arithmetic⦄ ⦃law : IsDouble a⦄ (now : ℕ) where
  play_due-Moves :
      (qs : List Packet) (p : Pacer)
      → LinedAt (record p { queue = qs })
      → Moves (record p { queue = qs }) [] (play_due now qs p)
  unfolding play_due
  play_due-Moves [] p v = still-Moves _ _ v refl (λ c. c)
  play_due-Moves (packet ∷ queue) p v =
      let m = play_due-Moves queue (count_played packet p) (
        unfold count_played in
        record {
          sorted = v.sorted.1;
          below = vids_tail _ packet queue v.below;
          before =
              λ missing. (vids_tail-none packet queue (v.before missing).0, (v.before missing).1);
          after = v.after;
          begun = v.begun;
        }) in
      if_Moves (record p { queue = packet ∷ queue }) [] (leb packet.at_time now) _ _
        (λ due. record {
          lined = m.lined;
          flow = λ open_still.
              play-flow packet p queue _ _ (
                m.flow open_still
                ∙ (unfold waiting in
                    unfold count_played in append-nil (bodies (vids queue) ++ p.bootstrap)))
              ∙ (unfold waiting in
                  sym (append-nil (bodies (vids (packet ∷ queue)) ++ p.bootstrap)));
          stays = λ c. m.stays (unfold count_played in c);
        })
        (λ early. still-Moves _ _ v refl (λ c. c))

  pub elapse-Moves : (p : Pacer) → LinedAt p → Moves p [] (elapse now p)
  unfolding elapse
  elapse-Moves p v =
      if_Moves p [] (is_due now p.timer) _ _
        (λ due.
          let m =
            play_due-Moves p.queue (record p { timer = none })
              (record {
                sorted = v.sorted;
                below = v.below;
                before = v.before;
                after = v.after;
                begun = v.begun;
              }) in
          record {
            lined =
                unfold arm in
                record {
                  sorted = m.lined.sorted;
                  below = m.lined.below;
                  before = m.lined.before;
                  after = m.lined.after;
                  begun = m.lined.begun;
                };
            flow = unfold arm in unfold waiting in m.flow;
            stays = unfold arm in m.stays;
          })
        (λ early. still-Moves p p v refl (λ c. c))

  pub elapse_admission-Moves : (p : Pacer) → LinedAt p → Moves p [] (elapse_admission now p)
  unfolding elapse_admission
  elapse_admission-Moves p v =
      if_Moves p [] (is_due now p.admission_timer) _ _
        (λ due.
          if_Moves p [] (is_some p.epoch) _ _
            (λ _.
              still-Moves p (record p { admission_timer = none })
                (record {
                  sorted = v.sorted;
                  below = v.below;
                  before = v.before;
                  after = v.after;
                  begun = v.begun;
                })
                (unfold waiting in refl) (λ c. c))
            (λ _. reject-Moves p [] clock_missing v))
        (λ early. still-Moves p p v refl (λ c. c))

  pub elapse_audio_admission-Moves :
      (p : Pacer) → LinedAt p → Moves p [] (elapse_audio_admission now p)
  unfolding elapse_audio_admission
  elapse_audio_admission-Moves p v =
      if_Moves p [] (is_due now p.audio_admission_timer) _ _
        (λ due.
          if_Moves p [] (p.closed || not p.startup_waiting) _ _
            (λ _.
              still-Moves p (record p { audio_admission_timer = none })
                (record {
                  sorted = v.sorted;
                  below = v.below;
                  before = v.before;
                  after = v.after;
                  begun = v.begun;
                })
                (unfold waiting in refl) (λ c. c))
            (λ waits. absurd (not_waiting p.closed p.startup_waiting waits v.begun)))
        (λ early. still-Moves p p v refl (λ c. c))
