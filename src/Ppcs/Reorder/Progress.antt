-- ===== src/Ppcs/Reorder/Progress.antt =====
-- What the gap timer of PpcsDatagramReorderBuffer, stream/first-party-ppcs.ts, frees.
use eufy_mega_security.Prelude.{
  ℕ, zero, suc, ◌+◌, ◌<◌, ◌≡◌, refl, ap, inl, inr, sym, ◌∙◌, Bool, true, false, Option, none, some,
  nat_eq, nat_eq-true, nat_eq-false, beq-cases, List, [], ◌∷◌, ◌++◌, arith, Eq_ℕ, if◌then◌else◌,
  length, Bool-cases, Option-cases,
}
use eufy_mega_security.Prelude.Bytes.{Bytes}
use eufy_mega_security.Prelude.JsMap.{get, get-remove_ne, length-remove_old, total-remove_old}
use eufy_mega_security.Ppcs.Reorder.{
  Channel, Outcome, Effect, delivers, skips, repeats, over_gap, next_sequence, before, advance_to,
  after_effect, arm, arm_timer, rearm, drain_loop, drain, skip_to, abandon_hole,
}
use eufy_mega_security.Ppcs.Reorder.Holds.{Sound, advance_to-Sound}
use eufy_mega_security.Ppcs.Reorder.Earliest.{
  Earliest, earliest-Earliest, next_sequence-before, before-Sound,
}

-- The packets among the effects, and their bytes.
unfoldable pub delivered : List Effect → List Bytes
delivered [] = []
delivered (delivers s body t ∷ es) = body ∷ delivered es
delivered (skips t skip ∷ es) = delivered es
delivered (repeats d ∷ es) = delivered es

pub delivered-append : (es fs : List Effect) → delivered (es ++ fs) ≡ delivered es ++ delivered fs
unfolding delivered
delivered-append [] fs = refl
delivered-append (delivers s b t ∷ es) fs = ap (◌∷◌ b) (delivered-append es fs)
delivered-append (skips t k ∷ es) fs = delivered-append es fs
delivered-append (repeats d ∷ es) fs = delivered-append es fs

unfoldable pub bytes_of : List Bytes → ℕ
bytes_of [] = 0
bytes_of (b ∷ bs) = length b + bytes_of bs

-- The packet that is delivered first under a number.
unfoldable pub given : ℕ → List Effect → Option Bytes
given k [] = none
given k (delivers s body t ∷ es) = if nat_eq k s then some body else given k es
given k (skips t skip ∷ es) = given k es
given k (repeats d ∷ es) = given k es

unfoldable pub first_of : Option Bytes → Option Bytes → Option Bytes
first_of (some b) o = some b
first_of none o = o

-- What was held under a number has been delivered under it, or else is still held under it; and nothing
-- is both, or is delivered twice, by the counts.
pub record Splits (c : Channel) (o : Outcome) : Type 0 where
  pub each : (k : ℕ) → get k c.held ≡ first_of (given k o.effects) (get k o.channel.held)
  pub packets : length (delivered o.effects) + length o.channel.held ≡ length c.held
  pub carried : bytes_of (delivered o.effects) + o.channel.bytes ≡ c.bytes

-- What an expired gap does: the gap is reported and the nearest successor delivered, and every other
-- packet is delivered after it under its own number or still held under it, its bytes counted.
pub record Frees (type : ℕ) (c : Channel) (o : Outcome) : Type 0 where
  pub nearest : ℕ
  pub packet : Bytes
  pub rest : List Effect
  pub found : get nearest c.held ≡ some packet
  pub closest : Earliest c.last c.held nearest
  pub begins : o.effects ≡ skips type over_gap ∷ delivers nearest packet type ∷ rest
  pub splits : Splits c o

-- A packet that leaves for delivery.
given_next :
    (c : Channel) (packet : Bytes) (j : ℕ) (later left : Option Bytes)
    → get (next_sequence c.last) c.held ≡ some packet
    → get j (advance_to (next_sequence c.last) packet c).held ≡ first_of later left
    → get j c.held ≡ first_of (if nat_eq j (next_sequence c.last) then some packet else later) left
unfolding advance_to first_of
given_next c packet j later left found h = elim (beq-cases j (next_sequence c.last)) [
  | inl (same, e) ↦ rw (nat_eq-true j (next_sequence c.last) e) (rw e found)
  | inr (other, e) ↦
      rw (nat_eq-false j (next_sequence c.last) e)
        (sym (get-remove_ne j (next_sequence c.last) c.held e) ∙ h)
]

module _ (stops : Bytes → ℕ → Bool) (wait : ℕ) where
  stop-Splits :
      (c : Channel) (b : Bool) (o : Outcome)
      → Splits c o
      → Splits c (if b then record { channel = c; effects = []; stopped = true } else o)
  unfolding delivered bytes_of given first_of
  stop-Splits c true o s = record { each = λ k. refl; packets = omega arith; carried = omega arith }
  stop-Splits c false o s = s

  drain_loop-Splits :
      (fuel type : ℕ) (c : Channel) → Sound c → Splits c (drain_loop stops wait fuel type c)
  unfolding drain_loop delivered bytes_of given first_of
  drain_loop-Splits zero type c s = record {
    each = λ k. refl;
    packets = omega arith;
    carried = omega arith;
  }
  drain_loop-Splits (suc fuel) type c s = elim (Option-cases (get (next_sequence c.last) c.held)) [
    | inl missing ↦
        rw (missing, drain_loop)
          (record { each = λ k. refl; packets = omega arith; carried = omega arith })
    | inr (packet, found) ↦
        let k = next_sequence c.last in
        let c' = advance_to k packet c in
        let s' = advance_to-Sound c packet s found in
        let rest = stop-Splits c' (stops packet type) _ (drain_loop-Splits fuel type c' s') in
        let fewer : length c'.held + 1 ≡ length c.held =
          unfold advance_to in length-remove_old k packet c.held found in
        let lighter : c'.bytes + length packet ≡ c.bytes =
          unfold advance_to in
          omega (arith, total-remove_old length k packet c.held found, s.counted) in
        rw (found, drain_loop)
          (record {
            each = λ j. given_next c packet j _ _ found (rest.each j);
            packets = unfold after_effect delivered in omega (arith, rest.packets, fewer);
            carried =
                unfold after_effect delivered bytes_of in omega (arith, rest.carried, lighter);
          })
  ]

  rearm-Splits :
      (type now : ℕ) (c : Channel) (o : Outcome)
      → Splits c o
      → Splits c (rearm stops wait type now o)
  unfolding rearm
  rearm-Splits type now c o s = elim (Bool-cases o.stopped) [
    | inl stopped ↦ simp (stopped) s
    | inr kept ↦ simp (kept) (record { each = s.each; packets = s.packets; carried = s.carried })
  ]

  drain_loop_first :
      (fuel type : ℕ) (c : Channel) (packet : Bytes)
      → 0 < fuel
      → get (next_sequence c.last) c.held ≡ some packet
      → (rest : List Effect) × ((drain_loop stops wait fuel type c).effects
          ≡ delivers (next_sequence c.last) packet type ∷ rest)
  unfolding drain_loop
  drain_loop_first zero type c packet f found = absurd (omega arith)
  drain_loop_first (suc fuel) type c packet f found = rw (found, drain_loop) (_, refl)

  effects-rearm : (type now : ℕ) (o : Outcome) → (rearm stops wait type now o).effects ≡ o.effects
  unfolding rearm
  effects-rearm type now o = ground arith

  -- When the timer of a channel that holds packets runs out, the gap is reported, the held packet nearest
  -- ahead of the last delivered one is delivered next, and every other held packet is delivered after it
  -- under its own number, or still held under it and counted.
  pub abandon_hole-Frees :
      (type now : ℕ) (c : Channel)
      → Sound c
      → 0 < length c.held
      → Frees type c (abandon_hole stops wait type now c)
  unfolding abandon_hole skip_to drain
  abandon_hole-Frees type now c s p =
      let (e, chosen, v) = earliest-Earliest c.last c.held s.near p in
      let c' : Channel = record c { timer = none; last = before e } in
      let o = drain_loop stops wait (length c.held) type c' in
      let there = next_sequence-before e v.low in
      elim (Option-cases (get e c.held)) [
        | inl missing ↦ absurd (let q = v.present in ground (arith, missing, q))
        | inr (packet, found) ↦
            let (rest, begins) =
              drain_loop_first (length c.held) type c' packet p (rw there found) in
            let inner =
              rearm-Splits type now c' o
                (drain_loop-Splits (length c.held) type c' (before-Sound c e s v)) in
            rw chosen (record {
              nearest = e;
              packet = packet;
              rest = rest;
              found = found;
              closest = v;
              begins = unfold after_effect in rw (effects-rearm type now o, begins, there) refl;
              splits =
                  unfold after_effect delivered given in
                  record { each = inner.each; packets = inner.packets; carried = inner.carried };
            })
      ]

-- A session that never closes the buffer while it takes a delivery.
abbrev pub never : Bytes → ℕ → Bool
never body type = false

-- How long a hole may stay open on a channel, by the session's choice for video, type 1.
unfoldable pub gap_wait : ℕ → ℕ → ℕ
gap_wait wait type = if nat_eq type 1 then wait else 250

module _ (wait : ℕ) where
  drain_loop-never :
      (fuel type : ℕ) (c : Channel) → (drain_loop never wait fuel type c).stopped ≡ false
  unfolding drain_loop
  drain_loop-never zero type c = refl
  drain_loop-never (suc fuel) type c = elim (Option-cases (get (next_sequence c.last) c.held)) [
    | inl missing ↦ rw (missing, drain_loop) refl
    | inr (packet, found) ↦
        rw (found, drain_loop)
          (unfold after_effect in
            drain_loop-never fuel type (advance_to (next_sequence c.last) packet c))
  ]

  pub abandon_hole-never :
      (type now : ℕ) (c : Channel)
      → Sound c
      → 0 < length c.held
      → (abandon_hole never wait type now c).stopped ≡ false
  unfolding abandon_hole
  abandon_hole-never type now c s p =
      let (e, chosen, v) = earliest-Earliest c.last c.held s.near p in
      rw chosen (
        unfold skip_to drain after_effect rearm arm in
        rw (drain_loop-never (length c.held) type (record c { timer = none; last = before e }))
          refl)

  drain_loop-timer :
      (fuel type : ℕ) (c : Channel) → (drain_loop never wait fuel type c).channel.timer ≡ c.timer
  unfolding drain_loop
  drain_loop-timer zero type c = refl
  drain_loop-timer (suc fuel) type c = elim (Option-cases (get (next_sequence c.last) c.held)) [
    | inl missing ↦ rw (missing, drain_loop) refl
    | inr (packet, found) ↦
        rw (found, drain_loop)
          (unfold after_effect in
            drain_loop-timer fuel type (advance_to (next_sequence c.last) packet c)
            ∙ (unfold advance_to in refl))
  ]

  armed_again :
      (type now : ℕ) (c : Channel)
      → c.timer ≡ none
      → 0 < length c.held
      → (arm never wait type now c).timer ≡ some (now + gap_wait wait type)
  unfolding arm arm_timer gap_wait
  armed_again type now c t p =
      rw (t, nat_eq-false (length c.held) 0 (λ e. omega (arith, e, p))) refl

  -- The timer of what is still held is set anew.
  pub abandon_hole-timer :
      (type now : ℕ) (c : Channel)
      → Sound c
      → 0 < length c.held
      → 0 < length (abandon_hole never wait type now c).channel.held
      → (abandon_hole never wait type now c).channel.timer ≡ some (now + gap_wait wait type)
  unfolding abandon_hole
  abandon_hole-timer type now c s p =
      let (e, chosen, v) = earliest-Earliest c.last c.held s.near p in
      let c' : Channel = record c { timer = none; last = before e } in
      rw chosen (
        unfold skip_to drain after_effect rearm in
        rw (drain_loop-never (length c.held) type c') (λ left.
          armed_again type now (drain_loop never wait (length c.held) type c').channel
            (drain_loop-timer (length c.held) type c') left))
