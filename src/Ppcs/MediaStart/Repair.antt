-- ===== src/Ppcs/MediaStart/Repair.antt =====
-- What a repair tick may transmit, and what an acknowledgement retires.
use eufy_mega_security.Prelude.{
  ℕ, ◌+◌, ◌≤◌, ◌<◌, ◌≡◌, ◌⊎◌, inl, inr, refl, Option, none, some, List, [], ◌∷◌, leb, arith, All,
  All-append, Bool-cases,
}
use eufy_mega_security.Prelude.Bytes.{Bytes}
use eufy_mega_security.Ppcs.MediaStart.{
  PendingStart, MediaStart, fresh, retry, retry_slot, Call, starts, acknowledges, receives_media,
  stops, closes, ticks, step, run,
}

-- What is known of the packets and deadlines that wait for repair.
module _ (P : Bytes → ℕ → Type 0) where
  abbrev SlotHas : Option PendingStart → Type 0
  SlotHas none = Unit {0}
  SlotHas (some entry) = P entry.packet entry.deadline

  abbrev StateHas : MediaStart → Type 0
  StateHas s = SlotHas s.current × SlotHas s.displaced

  abbrev CallHas : Call → Type 0
  CallHas (starts sequence packet now) = P packet (now + 3000)
  CallHas (acknowledges sequence) = Unit {0}
  CallHas receives_media = Unit {0}
  CallHas stops = Unit {0}
  CallHas closes = Unit {0}
  CallHas (ticks now now') = Unit {0}

  abbrev CallsHave : List Call → Type 0
  CallsHave [] = Unit {0}
  CallsHave (call ∷ calls) = CallHas call × CallsHave calls

  retry_slot_has : (now : ℕ) (o : Option PendingStart) → SlotHas o → SlotHas (retry_slot now o).slot
  unfolding retry_slot
  retry_slot_has now none h = tt
  retry_slot_has now (some entry) h = ground (arith, h)

  step_has : (s : MediaStart) (call : Call) → CallHas call → StateHas s → StateHas (step s call).0
  unfolding step
  step_has s (starts sequence packet now) h k = ground (arith, h, k.0, k.1)
  step_has s (acknowledges sequence) h k = ground (arith, k.0, k.1)
  step_has s receives_media h k = ground (arith, k.0, k.1)
  step_has s stops h k = ground (arith, k.0, k.1)
  step_has s closes h k = ground (arith, k.0, k.1)
  step_has s (ticks now now') h k =
      ground
        (arith, k.0, k.1, retry_slot_has now' s.current k.0, retry_slot_has now s.displaced k.1)

  run_has :
      (s : MediaStart) (calls : List Call) → CallsHave calls → StateHas s → StateHas (run s calls).0
  unfolding run
  run_has s [] h k = k
  run_has s (call ∷ calls) h k = run_has (step s call).0 calls h.1 (step_has s call h.0 k)

  abbrev Timely : ℕ → Bytes → Type 0
  Timely now packet = (deadline : ℕ) × P packet deadline × (now < deadline)

  slot-Timely :
      (now : ℕ) (o : Option PendingStart) → SlotHas o → All (Timely now) (retry_slot now o).sent
  unfolding retry_slot
  slot-Timely now none h = tt
  slot-Timely now (some entry) h = elim (Bool-cases (leb entry.deadline now)) [
    | inl late ↦ rw late tt
    | inr early ↦ rw early ((entry.deadline, h, ground arith), tt)
  ]

  weaken-Timely :
      (now now' : ℕ) (packets : List Bytes)
      → now ≤ now'
      → All (Timely now') packets
      → All (Timely now) packets
  weaken-Timely now now' [] le h = tt
  weaken-Timely now now' (p ∷ ps) le h =
      ((h.0.0, h.0.1, omega (arith, h.0.2)), weaken-Timely now now' ps le h.1)

  retry-Timely :
      (now now' : ℕ) (s : MediaStart)
      → now ≤ now'
      → StateHas s
      → All (Timely now) (retry now now' s).1
  retry-Timely now now' s le h = elim (Bool-cases s.closed) [
    | inl shut ↦ unfold retry in rw shut tt
    | inr live ↦
        unfold retry in
        rw live (
          All-append (Timely now) (retry_slot now s.displaced).sent _
            (slot-Timely now s.displaced h.1)
            (weaken-Timely now now' _ le (slot-Timely now' s.current h.0)))
  ]

-- The call list has a start of this packet whose repair ends at this time.
abbrev pub Owed : List Call → Bytes → ℕ → Type 0
Owed [] packet deadline = ⊥
Owed (starts sequence p now ∷ calls) packet deadline =
    ((p ≡ packet) × (now + 3000 ≡ deadline)) ⊎ Owed calls packet deadline
Owed (call ∷ calls) packet deadline = Owed calls packet deadline

CallsHave-mono :
    (P Q : Bytes → ℕ → Type 0)
    → ((packet : Bytes) (deadline : ℕ) → P packet deadline → Q packet deadline)
    → (calls : List Call) → CallsHave P calls
    → CallsHave Q calls
CallsHave-mono P Q f [] h = tt
CallsHave-mono P Q f (starts sequence p now ∷ calls) h =
    (f p (now + 3000) h.0, CallsHave-mono P Q f calls h.1)
CallsHave-mono P Q f (acknowledges sequence ∷ calls) h = (tt, CallsHave-mono P Q f calls h.1)
CallsHave-mono P Q f (receives_media ∷ calls) h = (tt, CallsHave-mono P Q f calls h.1)
CallsHave-mono P Q f (stops ∷ calls) h = (tt, CallsHave-mono P Q f calls h.1)
CallsHave-mono P Q f (closes ∷ calls) h = (tt, CallsHave-mono P Q f calls h.1)
CallsHave-mono P Q f (ticks now now' ∷ calls) h = (tt, CallsHave-mono P Q f calls h.1)

calls-Owed : (calls : List Call) → CallsHave (Owed calls) calls
calls-Owed [] = tt
calls-Owed (starts sequence p now ∷ calls) = (
  inl (refl, refl),
  CallsHave-mono (Owed calls) (Owed (starts sequence p now ∷ calls)) (λ q d h. inr h) calls
      (calls-Owed calls),
)
calls-Owed (acknowledges sequence ∷ calls) = (tt, calls-Owed calls)
calls-Owed (receives_media ∷ calls) = (tt, calls-Owed calls)
calls-Owed (stops ∷ calls) = (tt, calls-Owed calls)
calls-Owed (closes ∷ calls) = (tt, calls-Owed calls)
calls-Owed (ticks now now' ∷ calls) = (tt, calls-Owed calls)

-- After any calls on a new tracker, a repair tick whose two clock readings do not go backwards
-- transmits only complete packets that one of these calls started, each less than three seconds
-- after that start.
pub retry_repairs_started :
    (calls : List Call) (now now' : ℕ)
    → now ≤ now'
    → All
        (λ packet. (deadline : ℕ) × Owed calls packet deadline × (now < deadline))
        (retry now now' (run fresh calls).0).1
unfolding fresh
retry_repairs_started calls now now' le =
    retry-Timely (Owed calls) now now' (run _ calls).0 le
      (run_has (Owed calls) _ calls (calls-Owed calls) (tt, tt))
