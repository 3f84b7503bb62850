-- ===== src/Live/Pacer/Order/Delivery.antt =====
-- Runs of LiveFramePacer, stream/live-frame-pacer.ts.
use mathlib.Core.List.{append-nil}
use eufy_mega_security.Prelude.{ℕ, ◌≡◌, refl, sym, ◌∙◌, true, false, List, [], ◌∷◌, ◌++◌}
use eufy_mega_security.Prelude.Bytes.{Bytes}
use eufy_mega_security.Live.Pacer.{Arithmetic, IsDouble, Pacer, start, close}
use eufy_mega_security.Live.Pacer.Handlers.{
  Call, sends_video, sends_audio, paces, admission_ends, audio_wait_ends, closes, step, run,
}
use eufy_mega_security.Live.Pacer.Lined.{vids, bodies}
use eufy_mega_security.Live.Pacer.Order.{
  played, waiting, LinedAt, Moves, close-Lined, close_closed, joined,
}
use eufy_mega_security.Live.Pacer.Order.Calls.{taken, accept_video-Moves, accept_audio-Moves}
use eufy_mega_security.Live.Pacer.Order.Timers.{
  elapse-Moves, elapse_admission-Moves, elapse_audio_admission-Moves,
}

pub sent_by : Call → List Bytes
unfolding taken
sent_by (sends_video now body clock) = taken body
sent_by (sends_audio now body) = []
sent_by (paces now) = []
sent_by (admission_ends now) = []
sent_by (audio_wait_ends now) = []
sent_by closes = []

-- The video units of the calls, without the empty ones.
pub sent : List Call → List Bytes
unfolding sent_by
sent [] = []
sent (call ∷ calls) = sent_by call ++ sent calls

module _ ⦃a : Arithmetic⦄ ⦃law : IsDouble a⦄ where
  step-Moves : (p : Pacer) (call : Call) → LinedAt p → Moves p (sent_by call) (step 0 p call)
  unfolding step sent_by
  step-Moves p (sends_video now body clock) v = accept_video-Moves now 0 body clock p v
  step-Moves p (sends_audio now body) v = accept_audio-Moves now 0 body p v
  step-Moves p (paces now) v = elapse-Moves now p v
  step-Moves p (admission_ends now) v = elapse_admission-Moves now p v
  step-Moves p (audio_wait_ends now) v = elapse_audio_admission-Moves now p v
  step-Moves p closes v = record {
    lined = close-Lined p v;
    flow = λ open_still. absurd (close_closed p open_still);
    stays = λ _. unfold close in refl;
  }

  start-Lined : (t : ℕ) → LinedAt (start t 0)
  unfolding start vids
  start-Lined t = record {
    sorted = tt;
    below = tt;
    before = λ _. (refl, refl);
    after = λ _. refl;
    begun = refl;
  }

  run_flow :
      (calls : List Call) (p : Pacer)
      → LinedAt p
      → ((run 0 p calls).0.closed ≡ false
          → played (run 0 p calls).1 ++ waiting (run 0 p calls).0 ≡ waiting p ++ sent calls)
        × (p.closed ≡ true → (run 0 p calls).0.closed ≡ true)
  unfolding run sent
  run_flow [] p v = (λ _. unfold played in sym (append-nil (waiting p)), λ c. c)
  run_flow (call ∷ calls) p v =
      let m = step-Moves p call v in
      let r = step 0 p call in
      let rest = run 0 r.0 calls in
      let next = run_flow calls r.0 m.lined in
      (
        λ open_still. joined p (sent_by call) (sent calls) r rest m.flow next open_still,
        λ closed. next.1 (m.stays closed),
      )

-- For a new pacer that does not hold its start back for audio, with any rounding of its times that keeps
-- their order, and while it is open: what it has played and then what it still holds are, in order, the
-- video units that it was sent and that are not empty. None is lost, doubled or played out of turn, whatever
-- audio comes between and whatever the clock reads.
pub run-start-sent :
    ⦃a : Arithmetic⦄ ⦃law : IsDouble a⦄ (calls : List Call) (t : ℕ)
    → (run 0 (start t 0) calls).0.closed ≡ false
    → played (run 0 (start t 0) calls).1 ++ waiting (run 0 (start t 0) calls).0 ≡ sent calls
run-start-sent calls t open_still =
    (run_flow calls (start t 0) (start-Lined t)).0 open_still
    ∙ (unfold start in unfold waiting in unfold vids in unfold bodies in refl)
