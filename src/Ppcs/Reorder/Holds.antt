-- ===== src/Ppcs/Reorder/Holds.antt =====
-- What the operations of one reorder channel keep: PpcsDatagramReorderBuffer of stream/first-party-ppcs.ts.
use eufy_mega_security.Prelude.{
  ℕ, zero, suc, ◌+◌, ◌≤◌, ◌<◌, ◌≡◌, ◌≢◌, refl, ◌∙◌, inl, inr, Bool, true, false, none, some, [],
  ◌∷◌, arith, Eq_ℕ, length, is_some, beq-cases, Bool-cases, Option-cases,
}
use eufy_mega_security.Prelude.Bytes.{Bytes}
use eufy_mega_security.Prelude.JsMap.{
  JsMap, get, put, remove, Distinct, total, get-remove_self, remove-Distinct, length-remove_old,
  total-remove_old,
}
use eufy_mega_security.Ppcs.Reorder.{
  ahead, Channel, Outcome, next_sequence, drain_loop, rearm, drain, advance_to,
}

-- Every retained packet is 1 to 32768 places ahead of the last delivered one.
abbrev pub Near : ℕ → JsMap ℕ Bytes → Type 0
Near last [] = Unit {0}
Near last ((k, v) ∷ m) = (k < 65536) × (1 ≤ ahead k last) × (ahead k last ≤ 32768) × Near last m

pub Near-remove : (last k : ℕ) (m : JsMap ℕ Bytes) → Near last m → Near last (remove k m)
Near-remove last k [] n = n
Near-remove last k ((j, v) ∷ m) n = ground (arith, Near-remove last k m n.3)

pub Near-put :
    (last k : ℕ) (v : Bytes) (m : JsMap ℕ Bytes)
    → k < 65536
    → 1 ≤ ahead k last
    → ahead k last ≤ 32768
    → Near last m
    → Near last (put k v m)
Near-put last k v [] a b c n = (a, b, c, tt)
Near-put last k v ((j, w) ∷ m) a b c n = ground (arith, Near-put last k v m a b c n.3)

ahead-next :
    (k last : ℕ)
    → k < 65536
    → last < 65536
    → 1 ≤ ahead k last
    → k ≢ next_sequence last
    → (1 ≤ ahead k (next_sequence last)) × (ahead k (next_sequence last) + 1 ≡ ahead k last)
unfolding ahead next_sequence
ahead-next k last a b c d = omega (arith, d)

pub ahead-not-next :
    (k last : ℕ)
    → k < 65536
    → last < 65536
    → 1 ≤ ahead k last
    → k ≢ next_sequence last
    → 2 ≤ ahead k last
unfolding ahead next_sequence
ahead-not-next k last a b c d = omega (arith, d)

pub ahead-zero : (k last : ℕ) → k < 65536 → last < 65536 → ahead k last ≡ 0 → k ≡ last
unfolding ahead
ahead-zero k last a b c = omega arith

pub Near-next :
    (last : ℕ) (m : JsMap ℕ Bytes)
    → last < 65536
    → Near last m
    → get (next_sequence last) m ≡ none
    → Near (next_sequence last) m
Near-next last [] b n h = n
Near-next last ((k, v) ∷ m) b n h =
    ground (arith, beq-cases (next_sequence last) k, ahead-next k last, Near-next last m b n.3)

pub record Sound (c : Channel) : Type 0 where
  pub distinct : Distinct c.held
  pub counted : c.bytes ≡ total length c.held
  pub near : Near c.last c.held
  pub inside : c.last < 65536

-- Nothing waits that could be delivered, little waits, and a timer runs exactly while something waits.
pub record Holds (c : Channel) : Type 0 where
  pub sound : Sound c
  pub few : length c.held < 128
  pub idle : length c.held ≡ 0 → c.timer ≡ none
  pub armed : 0 < length c.held → is_some c.timer ≡ true
  pub blocked : get (next_sequence c.last) c.held ≡ none

pub advance_to-Sound :
    (c : Channel) (packet : Bytes)
    → Sound c
    → get (next_sequence c.last) c.held ≡ some packet
    → Sound (advance_to (next_sequence c.last) packet c)
unfolding advance_to
advance_to-Sound c packet s h =
    let k = next_sequence c.last in
    record {
      distinct = remove-Distinct k c.held s.distinct;
      counted = omega (arith, s.counted, total-remove_old length k packet c.held h);
      near =
          Near-next c.last (remove k c.held) s.inside (Near-remove c.last k c.held s.near)
            (get-remove_self k c.held s.distinct);
      inside = unfold next_sequence in omega arith;
    }

record Drained (c : Channel) (o : Outcome) : Type 0 where
  sound : Sound o.channel
  fewer : length o.channel.held ≤ length c.held
  shrinks :
      is_some (get (next_sequence c.last) c.held) ≡ true → length o.channel.held < length c.held
  same_timer : o.channel.timer ≡ c.timer
  blocked : o.stopped ≡ false → get (next_sequence o.channel.last) o.channel.held ≡ none

pub head_only : (m : JsMap ℕ Bytes) (k : ℕ) → length m ≤ 0 → get k m ≡ none
head_only [] k h = refl
head_only (e ∷ m) k h = absurd (omega arith)

module _ (stops : Bytes → ℕ → Bool) (wait : ℕ) where
  drain_loop-Drained :
      (fuel type : ℕ) (c : Channel)
      → length c.held ≤ fuel
      → Sound c
      → Drained c (drain_loop stops wait fuel type c)
  unfolding drain_loop
  drain_loop-Drained zero type c f s = record {
    sound = s;
    fewer = omega arith;
    shrinks = λ p. absurd (ground (arith, head_only c.held (next_sequence c.last)));
    same_timer = refl;
    blocked = λ _. head_only c.held _ f;
  }
  drain_loop-Drained (suc fuel) type c f s =
      elim (Option-cases (get (next_sequence c.last) c.held)) [
        | inl missing ↦
            rw (missing, drain_loop)
              (record {
                sound = s;
                fewer = omega arith;
                shrinks = λ p. cc;
                same_timer = refl;
                blocked = λ _. missing;
              })
        | inr (packet, found) ↦
            let c' = advance_to (next_sequence c.last) packet c in
            let s' = advance_to-Sound c packet s found in
            let shorter : length c'.held + 1 ≡ length c.held =
              unfold advance_to in length-remove_old _ packet c.held found in
            let timed : c'.timer ≡ c.timer = unfold advance_to in refl in
            let rest = drain_loop-Drained fuel type c' (omega arith) s' in
            rw (found, drain_loop)
              (elim (Bool-cases (stops packet type)) [
                | inl stop ↦ rw stop (record {
                  sound = s';
                  fewer = omega arith;
                  shrinks = λ _. omega arith;
                  same_timer = timed;
                  blocked = λ t. cc;
                })
                | inr go ↦ rw go (record {
                  sound = rest.sound;
                  fewer = omega (arith, rest.fewer);
                  shrinks = λ _. omega (arith, rest.fewer);
                  same_timer = rest.same_timer ∙ timed;
                  blocked = rest.blocked;
                })
              ])
      ]

  rearm-Holds :
      (type now : ℕ) (o : Outcome)
      → Sound o.channel
      → length o.channel.held < 128
      → o.channel.timer ≡ none
      → (o.stopped ≡ false → get (next_sequence o.channel.last) o.channel.held ≡ none)
      → (rearm stops wait type now o).stopped ≡ false
      → Holds (rearm stops wait type now o).channel
  unfolding rearm
  rearm-Holds type now o s l t n h = elim (Bool-cases o.stopped) [
    | inl stopped ↦ absurd (ground (arith, stopped))
    | inr kept ↦ rw kept (record {
      sound = record {
        distinct = s.distinct;
        counted = s.counted;
        near = s.near;
        inside = s.inside;
      };
      few = l;
      idle = λ z. ground (arith, t);
      armed = λ z. ground (arith, t);
      blocked = n kept;
    })
  ]

  -- What `drain` leaves, if its limits hold or it delivers something.
  pub drain-Holds :
      (type now : ℕ) (c : Channel)
      → Sound c
      → length c.held ≤ 128
      → (length c.held ≡ 128 → is_some (get (next_sequence c.last) c.held) ≡ true)
      → (drain stops wait type now c).stopped ≡ false
      → Holds (drain stops wait type now c).channel
  unfolding drain
  drain-Holds type now c s l b h =
      let cleared = record c { timer = none } in
      let s' : Sound cleared = record {
        distinct = s.distinct;
        counted = s.counted;
        near = s.near;
        inside = s.inside;
      } in
      let d = drain_loop-Drained (length c.held) type cleared (omega arith) s' in
      rearm-Holds type now (drain_loop stops wait (length c.held) type cleared) d.sound
        (ground (arith, b, d.fewer, d.shrinks)) d.same_timer d.blocked h
