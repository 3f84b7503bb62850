-- ===== src/Ppcs/Reorder/Cursor.antt =====
-- The order in which a channel of PpcsDatagramReorderBuffer, stream/first-party-ppcs.ts, is allowed to
-- deliver, as a cursor that follows its effects.
use eufy_mega_security.Prelude.{
  ℕ, zero, suc, ◌+◌, ◌≤◌, ◌<◌, ◌≡◌, ◌≢◌, refl, sym, ◌∙◌, inl, inr, Bool, true, false, ◌&&◌, ◌||◌,
  Option, none, some, List, [], ◌∷◌, ◌++◌, arith, Eq_ℕ, All, length, ltb, leb, nat_eq, nat_eq-true,
  nat_eq-false, if◌then◌else◌, is_some, Bool-cases, Option-cases, beq-cases,
}
use eufy_mega_security.Prelude.Bytes.{Bytes}
use eufy_mega_security.Prelude.JsMap.{get, put, length-put_new}
use eufy_mega_security.Ppcs.Reorder.{
  Disposition, first, next, gap, duplicate, stale, restart, ahead, sequence_disposition, Channel,
  Outcome, Effect, delivers, skips, repeats, Skip, over_gap, over_restart, next_sequence, before,
  advance_to, arm, after_effect, rearm, drain_loop, drain, abandon_hole, keep, hold, restarted,
  continue_with, accept_as, accept, open_with,
}
use eufy_mega_security.Ppcs.Reorder.Holds.{Sound, Holds, ahead-not-next}
use eufy_mega_security.Ppcs.Reorder.Earliest.{Earliest, earliest-Earliest, next_sequence-before}
use eufy_mega_security.Ppcs.Reorder.Accept.{
  put-Sound, put-blocked, disposition_next, disposition_gap, disposition_restart,
  disposition-ne-first,
}

-- Where a channel stands: nothing delivered, a packet delivered, or a skip reported after that packet.
pub data Cursor : Type 0 where
  unset : Cursor
  at skipped restarting : ℕ → Cursor

unfoldable pub move_to : ℕ → Cursor → Option Cursor
move_to s unset = some (at s)
move_to s (at n) = if nat_eq s (next_sequence n) then some (at s) else none
move_to s (skipped n) = if leb 2 (ahead s n) && leb (ahead s n) 32768 then some (at s) else none
move_to s (restarting n) =
    if ltb 32768 (ahead s n) && ltb (ahead s n) 64512 then some (at s) else none

unfoldable pub leap : Skip → Cursor → Option Cursor
leap over_gap (at n) = some (skipped n)
leap over_restart (at n) = some (restarting n)
leap skip cursor = none

unfoldable pub track : ℕ → Cursor → Effect → Option Cursor
unfolding move_to leap
track type cursor (delivers s body t) = if nat_eq t type then move_to s cursor else some cursor
track type cursor (skips t skip) = if nat_eq t type then leap skip cursor else some cursor
track type cursor (repeats d) = some cursor

-- `none` once an effect was out of order.
unfoldable pub track_from : ℕ → Option Cursor → Effect → Option Cursor
unfolding track
track_from type none e = none
track_from type (some cursor) e = track type cursor e

unfoldable pub follow : ℕ → Option Cursor → List Effect → Option Cursor
unfolding track_from
follow type cursor [] = cursor
follow type cursor (e ∷ es) = follow type (track_from type cursor e) es

pub follow-append :
    (type : ℕ) (cursor : Option Cursor) (es fs : List Effect)
    → follow type cursor (es ++ fs) ≡ follow type (follow type cursor es) fs
unfolding follow
follow-append type cursor [] fs = refl
follow-append type cursor (e ∷ es) fs = follow-append type (track_from type cursor e) es fs

-- The effects of a channel are about it.
abbrev pub Of : ℕ → Effect → Type 0
Of type (delivers s body t) = t ≡ type
Of type (skips t skip) = t ≡ type
Of type (repeats d) = Unit {0}

pub follow_other :
    (type other : ℕ) (cursor : Cursor) (es : List Effect)
    → type ≢ other
    → All (Of type) es
    → follow other (some cursor) es ≡ some cursor
unfolding follow
follow_other type other cursor [] d h = refl
follow_other type other cursor (delivers s body t ∷ es) d h =
    rw (nat_eq-false t other (λ p. d (sym h.0 ∙ p))) (follow_other type other cursor es d h.1)
follow_other type other cursor (skips t skip ∷ es) d h =
    rw (nat_eq-false t other (λ p. d (sym h.0 ∙ p))) (follow_other type other cursor es d h.1)
follow_other type other cursor (repeats r ∷ es) d h = follow_other type other cursor es d h.1

pub record Tracks (type : ℕ) (cursor : Cursor) (o : Outcome) : Type 0 where
  pub own : All (Of type) o.effects
  pub ends : follow type (some cursor) o.effects ≡ some (at o.channel.last)

after_effect-Tracks :
    (type : ℕ) (cursor cursor' : Cursor) (e : Effect) (o : Outcome)
    → Of type e
    → track type cursor e ≡ some cursor'
    → Tracks type cursor' o
    → Tracks type cursor (after_effect e o)
unfolding after_effect follow
after_effect-Tracks type cursor cursor' e o h p t = record {
  own = (h, t.own);
  ends = rw (p, follow) t.ends;
}

delivers-Tracks :
    (type s : ℕ) (cursor : Cursor) (body : Bytes) (o : Outcome)
    → move_to s cursor ≡ some (at s)
    → Tracks type (at s) o
    → Tracks type cursor (after_effect (delivers s body type) o)
delivers-Tracks type s cursor body o m t =
    after_effect-Tracks type cursor (at s) (delivers s body type) o refl
      (unfold track in rw (nat_eq-true type type refl) m) t

move_to-at : (n : ℕ) → move_to (next_sequence n) (at n) ≡ some (at (next_sequence n))
unfolding move_to
move_to-at n = rw (nat_eq-true (next_sequence n) (next_sequence n) refl)

far_enough :
    (c : Channel) (e : ℕ)
    → Sound c
    → get (next_sequence c.last) c.held ≡ none
    → Earliest c.last c.held e
    → 2 ≤ ahead e c.last
far_enough c e s b v = elim (beq-cases e (next_sequence c.last)) [
  | inl (_, same) ↦ absurd (let p = v.present in ground (arith, p, rw (← same) at b))
  | inr (_, apart) ↦ ahead-not-next e c.last v.low s.inside v.ahead_of apart
]

module _ (stops : Bytes → ℕ → Bool) (wait : ℕ) where
  stop-Tracks :
      (type : ℕ) (c : Channel) (b : Bool) (o : Outcome)
      → Tracks type (at c.last) o
      → Tracks type
          (at c.last)
          (if b then record { channel = c; effects = []; stopped = true } else o)
  stop-Tracks type c true o t = record { own = tt; ends = unfold follow in refl }
  stop-Tracks type c false o t = t

  drain_found-Tracks :
      (fuel type : ℕ) (c : Channel) (cursor : Cursor) (packet : Bytes)
      → get (next_sequence c.last) c.held ≡ some packet
      → move_to (next_sequence c.last) cursor ≡ some (at (next_sequence c.last))
      → ((c' : Channel) → Tracks type (at c'.last) (drain_loop stops wait fuel type c'))
      → Tracks type cursor (drain_loop stops wait (suc fuel) type c)
  unfolding drain_loop
  drain_found-Tracks fuel type c cursor packet found m later =
      let c' = advance_to (next_sequence c.last) packet c in
      rw (found, drain_loop)
        (delivers-Tracks type (next_sequence c.last) cursor packet _ m
          (unfold advance_to in stop-Tracks type c' (stops packet type) _ (later c')))

  drain_loop-Tracks :
      (fuel type : ℕ) (c : Channel) → Tracks type (at c.last) (drain_loop stops wait fuel type c)
  unfolding drain_loop
  drain_loop-Tracks zero type c = record { own = tt; ends = unfold follow in refl }
  drain_loop-Tracks (suc fuel) type c = elim (Option-cases (get (next_sequence c.last) c.held)) [
    | inl missing ↦ rw (missing, drain_loop) (record { own = tt; ends = unfold follow in refl })
    | inr (packet, found) ↦
        drain_found-Tracks fuel type c (at c.last) packet found (move_to-at c.last)
          (drain_loop-Tracks fuel type)
  ]

  -- The loop after a skip, which finds its first packet.
  drain_loop_first-Tracks :
      (fuel type : ℕ) (c : Channel) (cursor : Cursor)
      → 0 < fuel
      → is_some (get (next_sequence c.last) c.held) ≡ true
      → move_to (next_sequence c.last) cursor ≡ some (at (next_sequence c.last))
      → Tracks type cursor (drain_loop stops wait fuel type c)
  drain_loop_first-Tracks zero type c cursor f p m = absurd (omega arith)
  drain_loop_first-Tracks (suc fuel) type c cursor f p m =
      elim (Option-cases (get (next_sequence c.last) c.held)) [
        | inl missing ↦ absurd (ground (arith, missing, p))
        | inr (packet, found) ↦
            drain_found-Tracks fuel type c cursor packet found m (drain_loop-Tracks fuel type)
      ]

  rearm-Tracks :
      (type now : ℕ) (cursor : Cursor) (o : Outcome)
      → Tracks type cursor o
      → Tracks type cursor (rearm stops wait type now o)
  unfolding rearm
  rearm-Tracks type now cursor o t = elim (Bool-cases o.stopped) [
    | inl stopped ↦ simp (stopped) t
    | inr kept ↦ simp (kept) (record { own = t.own; ends = t.ends })
  ]

  pub abandon_hole-Tracks :
      (type now : ℕ) (c : Channel)
      → Sound c
      → 0 < length c.held
      → get (next_sequence c.last) c.held ≡ none
      → Tracks type (at c.last) (abandon_hole stops wait type now c)
  unfolding abandon_hole
  abandon_hole-Tracks type now c s p b =
      let (e, found, v) = earliest-Earliest c.last c.held s.near p in
      let c' : Channel = record c { timer = none; last = before e } in
      let there = next_sequence-before e v.low in
      let far : 2 ≤ ahead e c.last = far_enough c e s b v in
      let close : ahead e c.last ≤ 32768 = v.within in
      rw found (
        after_effect-Tracks type (at c.last) (skipped c.last) (skips type over_gap) _ refl
          (unfold track leap in rw (nat_eq-true type type refl))
          (unfold drain in
            rearm-Tracks type now (skipped c.last) _ (
              drain_loop_first-Tracks (length c.held) type c' (skipped c.last) p
                (rw there v.present) (rw there (unfold move_to in ground (arith, far, close))))))

  keep-Tracks :
      (type now : ℕ) (c : Channel)
      → Sound c
      → 0 < length c.held
      → get (next_sequence c.last) c.held ≡ none
      → Tracks type (at c.last) (keep stops wait type now c)
  unfolding keep
  keep-Tracks type now c s p b =
      elim (Bool-cases (leb 128 (length c.held) || leb 2097152 c.bytes)) [
        | inl over ↦ rw over (abandon_hole-Tracks type now c s p b)
        | inr under ↦ rw under (record { own = tt; ends = unfold follow arm in refl })
      ]

  hold-Tracks :
      (sequence type now : ℕ) (body : Bytes) (c : Channel)
      → Holds c
      → sequence < 65536
      → 2 ≤ ahead sequence c.last
      → ahead sequence c.last ≤ 32768
      → Tracks type (at c.last) (hold stops wait sequence type now body c)
  unfolding hold
  hold-Tracks sequence type now body c v q a b = elim (Option-cases (get sequence c.held)) [
    | inl new ↦
        let c' = record c { held = put sequence body c.held; bytes = c.bytes + length body } in
        let longer : length c'.held ≡ length c.held + 1 = length-put_new sequence body c.held new in
        rw new (
          keep-Tracks type now c' (put-Sound sequence body c v.sound q (omega arith) b new)
            (omega arith) (put-blocked sequence body c v a))
    | inr (old, found) ↦ rw found (record { own = (tt, tt); ends = unfold follow track in refl })
  ]

  accept_as-Tracks :
      (d : Disposition) (sequence type now : ℕ) (body : Bytes) (c : Channel)
      → Holds c
      → sequence < 65536
      → sequence_disposition (some c.last) sequence ≡ d
      → Tracks type (at c.last) (accept_as stops wait d sequence type now body c)
  unfolding accept_as
  accept_as-Tracks duplicate sequence type now body c v q e = record {
    own = (tt, tt);
    ends = unfold follow track in refl;
  }
  accept_as-Tracks stale sequence type now body c v q e = record {
    own = (tt, tt);
    ends = unfold follow track in refl;
  }
  accept_as-Tracks restart sequence type now body c v q e =
      let (low, high) = disposition_restart c.last sequence e in
      unfold restarted in
      record {
        own = (refl, (refl, tt));
        ends =
            unfold follow track leap move_to in
            ground (arith, nat_eq-true type type refl, low, high);
      }
  accept_as-Tracks next sequence type now body c v q e =
      let same = disposition_next c.last sequence v.sound.inside q e in
      let c' : Channel = record c { last = sequence } in
      unfold continue_with in
      delivers-Tracks type sequence (at c.last) body _ (rw same (move_to-at c.last)) (
        unfold drain in
        stop-Tracks type (record c { last = sequence; timer = none }) (stops body type) _
          (rearm-Tracks type now (at sequence) _
            (drain_loop-Tracks (length c.held) type (record c' { timer = none }))))
  accept_as-Tracks gap sequence type now body c v q e =
      let (low, high) = disposition_gap c.last sequence e in
      hold-Tracks sequence type now body c v q low high
  accept_as-Tracks first sequence type now body c v q e =
      absurd (disposition-ne-first c.last sequence e)

  pub accept-Tracks :
      (sequence type now : ℕ) (body : Bytes) (c : Channel)
      → Holds c
      → sequence < 65536
      → Tracks type (at c.last) (accept stops wait sequence type now body c)
  unfolding accept
  accept-Tracks sequence type now body c v q =
      accept_as-Tracks (sequence_disposition (some c.last) sequence) sequence type now body c v q
        refl

  pub open_with-Tracks :
      (sequence type : ℕ) (body : Bytes)
      → Tracks type unset (open_with stops wait sequence type body)
  unfolding open_with
  open_with-Tracks sequence type body = record {
    own = (refl, tt);
    ends = unfold follow track move_to in rw (nat_eq-true type type refl);
  }
