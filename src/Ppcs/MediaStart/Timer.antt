-- ===== src/Ppcs/MediaStart/Timer.antt =====
-- The repair timer of PpcsMediaStart.
use eufy_mega_security.Prelude.{
  ℕ, ◌≡◌, refl, true, false, ◌||◌, none, List, [], ◌∷◌, is_some, arith,
}
use eufy_mega_security.Prelude.Bytes.{Bytes}
use eufy_mega_security.Ppcs.MediaStart.{
  MediaStart, refused, fresh, start, close, Call, starts, acknowledges, receives_media, stops,
  closes, ticks, step, run,
}

pub record Inv (s : MediaStart) : Type 0 where
  pub armed : s.timer ≡ (is_some s.current || is_some s.displaced)
  pub silent : s.closed ≡ true → (s.current ≡ none) × (s.displaced ≡ none)

step-Inv : (s : MediaStart) (call : Call) → Inv s → Inv (step s call).0
unfolding step
step-Inv s (starts sequence packet now) v = ground (arith, v.armed, v.silent)
step-Inv s (acknowledges sequence) v = ground (arith, v.armed, v.silent)
step-Inv s receives_media v = ground (arith, v.armed)
step-Inv s stops v = ground (arith, v.armed, v.silent)
step-Inv s closes v = ground (arith, v.armed)
step-Inv s (ticks now now') v = ground (arith, v.armed, v.silent)

run-Inv : (s : MediaStart) (calls : List Call) → Inv s → Inv (run s calls).0
unfolding run
run-Inv s [] v = v
run-Inv s (call ∷ calls) v = run-Inv (step s call).0 calls (step-Inv s call v)

-- After any calls and timer ticks on a new tracker, the repair timer is set exactly while a start is
-- outstanding, and a closed tracker has none.
pub run-fresh-Inv : (calls : List Call) → Inv (run fresh calls).0
unfolding fresh
run-fresh-Inv calls = run-Inv _ calls (record { armed = refl; silent = λ h. cc })

record Retired (s : MediaStart) : Type 0 where
  closed : s.closed ≡ true
  idle : s.timer ≡ false
  no_current : s.current ≡ none
  no_displaced : s.displaced ≡ none

step-Retired :
    (s : MediaStart) (call : Call) → Retired s → ((step s call).0 ≡ s) × ((step s call).1 ≡ [])
unfolding step
step-Retired s (starts sequence packet now) r = ground (arith, r.closed)
step-Retired s (acknowledges sequence) r = ground (arith, r.idle, r.no_current, r.no_displaced)
step-Retired s receives_media r = ground (arith, r.idle, r.no_current, r.no_displaced)
step-Retired s stops r = ground (arith, r.idle, r.no_current, r.no_displaced)
step-Retired s closes r = ground (arith, r.idle, r.closed, r.no_current, r.no_displaced)
step-Retired s (ticks now now') r = ground (arith, r.idle)

run-Retired :
    (s : MediaStart) (calls : List Call)
    → Retired s
    → ((run s calls).0 ≡ s) × ((run s calls).1 ≡ [])
unfolding run
run-Retired s [] r = (refl, refl)
run-Retired s (call ∷ calls) r =
    let (same, none_sent) = step-Retired s call r in
    let (later, silent) = run-Retired s calls r in (rw same later, rw (same, none_sent) silent)

close-Retired : (s : MediaStart) → Inv s → Retired (close s)
unfolding close
close-Retired s v = record {
  closed = ground arith;
  idle = ground (arith, v.armed);
  no_current = ground arith;
  no_displaced = ground arith;
}

-- Once a tracker is closed, no later calls or ticks change it or transmit a packet, and it refuses every start.
pub run-close :
    (s : MediaStart) (calls : List Call) (sequence : ℕ) (packet : Bytes) (now : ℕ)
    → Inv s
    → ((run (close s) calls).0 ≡ close s)
      × ((run (close s) calls).1 ≡ [])
      × ((start sequence packet now (close s)).1 ≡ refused)
run-close s calls sequence packet now v =
    let r = close-Retired s v in
    let same = run-Retired (close s) calls r in
    (same.0, same.1, unfold start in ground (arith, r.closed))
