-- ===== src/Live/Pacer/Runs.antt =====
-- Bootstrap video, audio and clocked video through one viewer's pacer, and the theorem at that run:
-- LiveFramePacer of stream/live-frame-pacer.ts.
use eufy_mega_security.Prelude.{
  ℕ, ◌+◌, ◌*◌, ◌-◌, ◌/◌, ◌≡◌, refl, true, false, none, some, List, [], ◌∷◌, ◌++◌, arith,
}
use eufy_mega_security.Prelude.Bytes.{Bytes}
use eufy_mega_security.Live.Pacer.{
  Arithmetic, IsDouble, FrameClock, video, audio, plays, admits, fails, clock_discontinuity, start,
}
use eufy_mega_security.Live.Pacer.Handlers.{Call, sends_video, sends_audio, paces, run}
use eufy_mega_security.Live.Pacer.Bounds.Calls.{Bounded, run-start-Bounded}
use eufy_mega_security.Live.Pacer.Order.{played, waiting}
use eufy_mega_security.Live.Pacer.Order.Delivery.{sent, run-start-sent}

-- Exact arithmetic, over units of 1/441 ms, in which the durations at 44.1 kHz are whole.
instance abbrev exact : Arithmetic
exact = record {
  whole = λ n. 441 * n;
  add = λ t n. t + n;
  less = λ t n. t - n;
  lasting = λ samples rate. samples * 441000 / rate;
}

instance exact-IsDouble : IsDouble exact
exact-IsDouble = record {
  whole_rising = λ m n h. omega (arith, h);
  add_rising = λ t m n h. omega (arith, h);
  add_zero = λ t. omega arith;
}

abbrev clock : ℕ → FrameClock
clock t = record { timestamp = t; epoch = 1; format_changed = false }

-- An AAC unit of one byte at 44.1 kHz.
abbrev aac : Bytes
aac = 255 ∷ 241 ∷ 80 ∷ 64 ∷ 1 ∷ 0 ∷ 0 ∷ 5 ∷ []

abbrev viewing : List Call
viewing =
    sends_video 10 (7 ∷ []) none
    ∷ sends_video 20 (8 ∷ []) (some (clock 50))
    ∷ sends_audio 30 aac
    ∷ sends_video 40 (9 ∷ []) (some (clock 80))
    ∷ paces 2646030
    ∷ []

viewing_plays :
    (run 100 (start 0 100) viewing).1
    ≡ admits true
      ∷ plays video (7 ∷ []) 2646000
      ∷ plays video (8 ∷ []) 2646000
      ∷ plays audio aac 2646000
      ∷ []
unfolding run start
viewing_plays = refl

-- A viewer that does not wait for audio.
viewing_is_open : (run 0 (start 0 0) viewing).0.closed ≡ false
unfolding run start
viewing_is_open = refl

jump_closes :
    (run 0 (start 0 0) (
      sends_video 20 (8 ∷ []) (some (clock 50))
      ∷ sends_video 30 (9 ∷ []) (some (clock 6000))
      ∷ [])).1
    ≡ fails clock_discontinuity ∷ []
unfolding run start
jump_closes = refl

run-start-sent_example :
    played (run 0 (start 0 0) viewing).1 ++ waiting (run 0 (start 0 0) viewing).0 ≡ sent viewing
run-start-sent_example = run-start-sent viewing 0 viewing_is_open

run-start-Bounded_example : Bounded (run 100 (start 0 100) viewing).0
run-start-Bounded_example = run-start-Bounded 100 0 viewing
