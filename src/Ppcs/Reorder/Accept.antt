-- ===== src/Ppcs/Reorder/Accept.antt =====
-- The invariant of a reorder channel through `push` and the gap timer: PpcsDatagramReorderBuffer of
-- stream/first-party-ppcs.ts.
use eufy_mega_security.Prelude.{
  ℕ, ◌+◌, ◌≤◌, ◌<◌, ◌≡◌, ◌≢◌, ◌∙◌, ◌||◌, refl, inl, inr, Bool, false, none, some, arith, Eq_ℕ,
  length, leb, Bool-cases, Option-cases,
}
use eufy_mega_security.Prelude.Bytes.{Bytes}
use eufy_mega_security.Prelude.JsMap.{
  get, put, put-Distinct, length-put_new, total-put_new, get-put_ne,
}
use eufy_mega_security.Ppcs.Reorder.{
  Disposition, first, next, gap, duplicate, stale, restart, ahead, sequence_disposition, Channel,
  next_sequence, before, arm, abandon_hole, keep, hold, restarted, continue_with, accept_as, accept,
  open_with,
}
use eufy_mega_security.Ppcs.Reorder.Holds.{Near-put, Near-next, Sound, Holds, drain-Holds}
use eufy_mega_security.Ppcs.Reorder.Earliest.{earliest-Earliest, next_sequence-before, before-Sound}

pub put-Sound :
    (sequence : ℕ) (body : Bytes) (c : Channel)
    → Sound c
    → sequence < 65536
    → 1 ≤ ahead sequence c.last
    → ahead sequence c.last ≤ 32768
    → get sequence c.held ≡ none
    → Sound (record c { held = put sequence body c.held; bytes = c.bytes + length body })
put-Sound sequence body c s a b d h = record {
  distinct = put-Distinct sequence body c.held s.distinct;
  counted = omega (arith, s.counted, total-put_new length sequence body c.held h);
  near = Near-put c.last sequence body c.held a b d s.near;
  inside = s.inside;
}

pub put-blocked :
    (sequence : ℕ) (body : Bytes) (c : Channel)
    → Holds c
    → 2 ≤ ahead sequence c.last
    → get (next_sequence c.last) (put sequence body c.held) ≡ none
put-blocked sequence body c v a =
    let apart : next_sequence c.last ≢ sequence =
      λ e. unfold next_sequence ahead in omega (arith, e, a, v.sound.inside) in
    get-put_ne (next_sequence c.last) sequence body c.held apart ∙ v.blocked

next-Sound :
    (sequence : ℕ) (c : Channel)
    → Holds c
    → sequence ≡ next_sequence c.last
    → Sound (record c { last = sequence })
next-Sound sequence c v e = record {
  distinct = v.sound.distinct;
  counted = v.sound.counted;
  near = rw e (Near-next c.last c.held v.sound.inside v.sound.near v.blocked);
  inside = rw e (unfold next_sequence in omega arith);
}

pub disposition_next :
    (last sequence : ℕ)
    → last < 65536
    → sequence < 65536
    → sequence_disposition (some last) sequence ≡ next
    → sequence ≡ next_sequence last
unfolding sequence_disposition ahead next_sequence
disposition_next last sequence a b h = ground arith

pub disposition_gap :
    (last sequence : ℕ)
    → sequence_disposition (some last) sequence ≡ gap
    → (2 ≤ ahead sequence last) × (ahead sequence last ≤ 32768)
unfolding sequence_disposition
disposition_gap last sequence h = ground arith

pub disposition_restart :
    (last sequence : ℕ)
    → sequence_disposition (some last) sequence ≡ restart
    → (32768 < ahead sequence last) × (ahead sequence last < 64512)
unfolding sequence_disposition ahead
disposition_restart last sequence h = ground arith

pub disposition-ne-first : (last sequence : ℕ) → sequence_disposition (some last) sequence ≢ first
unfolding sequence_disposition
disposition-ne-first last sequence h = ground arith

module _ (stops : Bytes → ℕ → Bool) (wait : ℕ) where
  pub abandon_hole-Holds :
      (type now : ℕ) (c : Channel)
      → Sound c
      → 0 < length c.held
      → length c.held ≤ 128
      → (abandon_hole stops wait type now c).stopped ≡ false
      → Holds (abandon_hole stops wait type now c).channel
  unfolding abandon_hole
  abandon_hole-Holds type now c s some_held l h =
      let (e, found, v) = earliest-Earliest c.last c.held s.near some_held in
      rw found (
        drain-Holds stops wait type now (record c { timer = none; last = before e })
          (before-Sound c e s v) l (λ _. rw (next_sequence-before e v.low) v.present)
          (rw found at h))

  keep-Holds :
      (type now : ℕ) (c : Channel)
      → Sound c
      → 0 < length c.held
      → length c.held ≤ 128
      → get (next_sequence c.last) c.held ≡ none
      → (keep stops wait type now c).stopped ≡ false
      → Holds (keep stops wait type now c).channel
  unfolding keep
  keep-Holds type now c s p l b h =
      elim (Bool-cases (leb 128 (length c.held) || leb 2097152 c.bytes)) [
        | inl over ↦ rw over (abandon_hole-Holds type now c s p l (rw over at h))
        | inr under ↦ rw under (record {
          sound = record {
            distinct = s.distinct;
            counted = s.counted;
            near = s.near;
            inside = s.inside;
          };
          few = ground (arith, under);
          idle = λ z. absurd (omega (arith, z));
          armed = λ z. unfold arm in ground arith;
          blocked = b;
        })
      ]

  hold-Holds :
      (sequence type now : ℕ) (body : Bytes) (c : Channel)
      → Holds c
      → sequence < 65536
      → 2 ≤ ahead sequence c.last
      → ahead sequence c.last ≤ 32768
      → (hold stops wait sequence type now body c).stopped ≡ false
      → Holds (hold stops wait sequence type now body c).channel
  unfolding hold
  hold-Holds sequence type now body c v q a b h = elim (Option-cases (get sequence c.held)) [
    | inl new ↦
        let c' = record c { held = put sequence body c.held; bytes = c.bytes + length body } in
        let longer : length c'.held ≡ length c.held + 1 = length-put_new sequence body c.held new in
        rw new (
          keep-Holds type now c' (put-Sound sequence body c v.sound q (omega arith) b new)
            (omega arith) (omega (arith, v.few)) (put-blocked sequence body c v a) (rw new at h))
    | inr (old, found) ↦ rw found v
  ]

  continue_with-Holds :
      (sequence type now : ℕ) (body : Bytes) (c : Channel)
      → Holds c
      → sequence ≡ next_sequence c.last
      → (continue_with stops wait sequence type now body c).stopped ≡ false
      → Holds (continue_with stops wait sequence type now body c).channel
  unfolding continue_with
  continue_with-Holds sequence type now body c v e h = elim (Bool-cases (stops body type)) [
    | inl stop ↦ absurd (ground (arith, stop))
    | inr go ↦
        let few = v.few in
        rw go (
          drain-Holds stops wait type now (record c { last = sequence }) (next-Sound sequence c v e)
            (omega arith) (λ z. absurd (omega (arith, z))) (rw go at h))
  ]

  pub open_with-Holds :
      (sequence type : ℕ) (body : Bytes)
      → sequence < 65536
      → Holds (open_with stops wait sequence type body).channel
  unfolding open_with
  open_with-Holds sequence type body h = record {
    sound = record { distinct = tt; counted = refl; near = tt; inside = h };
    few = omega arith;
    idle = λ z. refl;
    armed = λ z. absurd (omega (arith, z));
    blocked = refl;
  }

  accept_as-Holds :
      (d : Disposition) (sequence type now : ℕ) (body : Bytes) (c : Channel)
      → Holds c
      → sequence < 65536
      → sequence_disposition (some c.last) sequence ≡ d
      → (accept_as stops wait d sequence type now body c).stopped ≡ false
      → Holds (accept_as stops wait d sequence type now body c).channel
  unfolding accept_as
  accept_as-Holds duplicate sequence type now body c v q e h = v
  accept_as-Holds stale sequence type now body c v q e h = v
  accept_as-Holds restart sequence type now body c v q e h =
      unfold restarted open_with in open_with-Holds sequence type body q
  accept_as-Holds next sequence type now body c v q e h =
      continue_with-Holds sequence type now body c v
        (disposition_next c.last sequence v.sound.inside q e) h
  accept_as-Holds gap sequence type now body c v q e h =
      let (low, high) = disposition_gap c.last sequence e in
      hold-Holds sequence type now body c v q low high h
  accept_as-Holds first sequence type now body c v q e h =
      absurd (disposition-ne-first c.last sequence e)

  pub accept-Holds :
      (sequence type now : ℕ) (body : Bytes) (c : Channel)
      → Holds c
      → sequence < 65536
      → (accept stops wait sequence type now body c).stopped ≡ false
      → Holds (accept stops wait sequence type now body c).channel
  unfolding accept
  accept-Holds sequence type now body c v q h =
      accept_as-Holds (sequence_disposition (some c.last) sequence) sequence type now body c v q
        refl h
