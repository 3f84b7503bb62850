-- ===== src/Ppcs/Reorder.antt =====
-- One channel of PpcsDatagramReorderBuffer, with ppcsSequenceDisposition, of
-- stream/first-party-ppcs.ts. The callbacks are the effects that an operation returns, in order. A
-- delivery carries its sequence number, which the callback does not get. `stops` says whether the
-- session closes the buffer while it takes a delivery, as HomeBase sessions do on an error. A timer is
-- its deadline, in milliseconds.
pub mod Arrivals
pub mod Buffer
pub mod Earliest
pub mod Accept
pub mod Cursor
pub mod Evidence
pub mod Progress
pub mod Holds
use eufy_mega_security.Prelude.{
  ℕ, zero, suc, ◌+◌, ◌-◌, ◌%◌, Bool, true, false, ◌||◌, Option, none, some, List, [], ◌∷◌, ltb, leb,
  nat_eq, Eq_ℕ, if◌then◌else◌, length, is_some,
}
use eufy_mega_security.Prelude.Bytes.{Bytes}
use eufy_mega_security.Prelude.JsMap.{JsMap, get, has, put, remove}

pub data Disposition : Type 0 where
  first next gap duplicate stale restart : Disposition

-- `(a - b) & 0xffff`.
unfoldable pub ahead : ℕ → ℕ → ℕ
ahead a b = (a + 65536 - b % 65536) % 65536

pub disposition_at : ℕ → Disposition
disposition_at advance =
    if nat_eq advance 0
    then duplicate
    else if ltb 32768 advance
    then (if ltb 1024 (65536 - advance) then restart else stale)
    else if nat_eq advance 1
    then next
    else gap

unfoldable pub sequence_disposition : Option ℕ → ℕ → Disposition
unfolding disposition_at
sequence_disposition none current = first
sequence_disposition (some previous) current = disposition_at (ahead current previous)

pub record Channel : Type 0 where
  pub last : ℕ
  pub held : JsMap ℕ Bytes
  pub bytes : ℕ
  pub timer : Option ℕ

pub data Skip : Type 0 where
  over_gap over_restart : Skip

pub data Effect : Type 0 where
  delivers : ℕ → Bytes → ℕ → Effect
  skips : ℕ → Skip → Effect
  repeats : Disposition → Effect

-- `stopped` says that the session has closed the buffer.
pub record Outcome : Type 0 where
  pub channel : Channel
  pub effects : List Effect
  pub stopped : Bool

pub after_effect : Effect → Outcome → Outcome
after_effect e o = record o { effects = e ∷ o.effects }

pub next_sequence : ℕ → ℕ
next_sequence last = (last + 1) % 65536

-- `(sequence - 1) & 0xffff`.
pub before : ℕ → ℕ
before sequence = (sequence + 65535) % 65536

pub keys : JsMap ℕ Bytes → List ℕ
keys [] = []
keys ((k, v) ∷ m) = k ∷ keys m

-- The first key of the sort by distance from `last`, which is stable.
pub nearer : ℕ → ℕ → Option ℕ → ℕ
nearer last k none = k
nearer last k (some j) = if ltb (ahead j last) (ahead k last) then j else k

pub earliest : ℕ → List ℕ → Option ℕ
unfolding nearer
earliest last [] = none
earliest last (k ∷ ks) = some (nearer last k (earliest last ks))

-- One round of the loop of `#drain`, once its packet is found.
pub advance_to : ℕ → Bytes → Channel → Channel
advance_to sequence packet c = record c {
  held = remove sequence c.held;
  bytes = c.bytes - length packet;
  last = sequence;
}

module _ (stops : Bytes → ℕ → Bool) (wait : ℕ) where
  pub arm_timer : ℕ → ℕ → Channel → Option ℕ
  arm_timer type now c =
      if is_some c.timer || nat_eq (length c.held) 0
      then c.timer
      else some (now + (if nat_eq type 1 then wait else 250))

  pub arm : ℕ → ℕ → Channel → Channel
  unfolding arm_timer
  arm type now c = record c { timer = arm_timer type now c }

  -- The loop of `#drain`, on fuel.
  pub drain_loop : ℕ → ℕ → Channel → Outcome
  unfolding next_sequence advance_to after_effect
  drain_loop zero type c = record { channel = c; effects = []; stopped = false }
  drain_loop (suc fuel) type c = elim (get (next_sequence c.last) c.held) [
    | none ↦ record { channel = c; effects = []; stopped = false }
    | some packet ↦
        let sequence = next_sequence c.last in
        let c' = advance_to sequence packet c in
        let rest = drain_loop fuel type c' in
        after_effect (delivers sequence packet type) (
          if stops packet type then record { channel = c'; effects = []; stopped = true } else rest)
  ]

  pub rearm : ℕ → ℕ → Outcome → Outcome
  unfolding arm
  rearm type now o = if o.stopped then o else record o { channel = arm type now o.channel }

  pub drain : ℕ → ℕ → Channel → Outcome
  unfolding drain_loop rearm
  drain type now c = rearm type now (drain_loop (length c.held) type (record c { timer = none }))

  pub skip_to : ℕ → ℕ → Channel → Option ℕ → Outcome
  unfolding after_effect before drain
  skip_to type now c none = record {
    channel = record c { timer = none };
    effects = [];
    stopped = false;
  }
  skip_to type now c (some sequence) =
      after_effect (skips type over_gap)
        (drain type now (record c { timer = none; last = before sequence }))

  pub abandon_hole : ℕ → ℕ → Channel → Outcome
  unfolding skip_to
  abandon_hole type now c = skip_to type now c (earliest c.last (keys c.held))

  -- The end of `push`: a successor is kept until the hole before it is filled.
  pub keep : ℕ → ℕ → Channel → Outcome
  unfolding abandon_hole arm
  keep type now c =
      if leb 128 (length c.held) || leb 2097152 c.bytes
      then abandon_hole type now c
      else record { channel = arm type now c; effects = []; stopped = false }

  pub hold : ℕ → ℕ → ℕ → Bytes → Channel → Outcome
  unfolding keep
  hold sequence type now body c =
      if has sequence c.held
      then record { channel = c; effects = repeats duplicate ∷ []; stopped = false }
      else keep type now
          (record c { held = put sequence body c.held; bytes = c.bytes + length body })

  pub restarted : ℕ → ℕ → Bytes → Outcome
  restarted sequence type body = record {
    channel = record { last = sequence; held = []; bytes = 0; timer = none };
    effects = skips type over_restart ∷ delivers sequence body type ∷ [];
    stopped = stops body type;
  }

  -- The branch of "next".
  pub continue_with : ℕ → ℕ → ℕ → Bytes → Channel → Outcome
  unfolding after_effect drain
  continue_with sequence type now body c = after_effect (delivers sequence body type) (
      if stops body type
      then record {
        channel = record c { last = sequence; timer = none };
        effects = [];
        stopped = true;
      }
      else drain type now (record c { last = sequence }))

  pub accept_as : Disposition → ℕ → ℕ → ℕ → Bytes → Channel → Outcome
  unfolding restarted continue_with hold
  accept_as duplicate sequence type now body c = record {
    channel = c;
    effects = repeats duplicate ∷ [];
    stopped = false;
  }
  accept_as stale sequence type now body c = record {
    channel = c;
    effects = repeats stale ∷ [];
    stopped = false;
  }
  accept_as restart sequence type now body c = restarted sequence type body
  accept_as next sequence type now body c = continue_with sequence type now body c
  accept_as gap sequence type now body c = hold sequence type now body c
  accept_as first sequence type now body c = hold sequence type now body c

  -- `push` from the point where the channel is known.
  pub accept : ℕ → ℕ → ℕ → Bytes → Channel → Outcome
  unfolding accept_as sequence_disposition
  accept sequence type now body c =
      accept_as (sequence_disposition (some c.last) sequence) sequence type now body c

  -- `push` of a channel's first packet.
  pub open_with : ℕ → ℕ → Bytes → Outcome
  open_with sequence type body = record {
    channel = record { last = sequence; held = []; bytes = 0; timer = none };
    effects = delivers sequence body type ∷ [];
    stopped = stops body type;
  }
