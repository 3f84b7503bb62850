-- ===== src/Ppcs/Reorder/Buffer.antt =====
-- The whole PpcsDatagramReorderBuffer of stream/first-party-ppcs.ts: push, close and the gap timers.
mod Channels
mod InOrder
mod Liveness
mod Order
mod Runs
use eufy_mega_security.Prelude.{
  ℕ, Bool, true, false, ◌||◌, Option, none, some, List, [], ◌∷◌, ◌++◌, leb, Eq_ℕ, if◌then◌else◌,
}
use eufy_mega_security.Prelude.Bytes.{Bytes}
use eufy_mega_security.Prelude.JsMap.{JsMap, get, put}
use eufy_mega_security.Ppcs.Reorder.{Channel, Effect, Outcome, accept, open_with, abandon_hole}
use eufy_mega_security.Ppcs.Reorder.Evidence.{EvidenceMap, record_arrival, record_effects}

pub record Buffer : Type 0 where
  pub channels : JsMap ℕ Channel
  pub evidence : EvidenceMap
  pub closed : Bool

pub empty : Buffer
empty = record { channels = []; evidence = []; closed = false }

pub close : Buffer → Buffer
close s = record { channels = []; evidence = []; closed = true }

pub last_of : Option Channel → Option ℕ
last_of none = none
last_of (some c) = some c.last

-- What an operation on one channel leaves, unless the session has closed the buffer meanwhile.
pub settle : ℕ → Outcome → Buffer → Buffer
settle type o s = record {
  channels = if o.stopped then [] else put type o.channel s.channels;
  evidence = if o.stopped then [] else record_effects o.effects s.evidence;
  closed = s.closed || o.stopped;
}

pub data Call : Type 0 where
  pushes : Bytes → ℕ → ℕ → ℕ → Call
  elapses : ℕ → ℕ → Call
  closes : Call

module _ (stops : Bytes → ℕ → Bool) (wait : ℕ) where
  pub route : ℕ → ℕ → ℕ → Bytes → Option Channel → Outcome
  unfolding accept open_with
  route sequence type now body none = open_with stops wait sequence type body
  route sequence type now body (some c) = accept stops wait sequence type now body c

  pub arrive : ℕ → ℕ → Option ℕ → Buffer → Buffer
  arrive type sequence previous s = record s {
    evidence = record_arrival type sequence previous s.evidence;
  }

  -- `push`, by whether the buffer is closed.
  unfoldable pub push_when : Bool → Bytes → ℕ → ℕ → ℕ → Buffer → Buffer × List Effect
  unfolding settle route arrive last_of
  push_when true body sequence type now s = (s, [])
  push_when false body sequence type now s =
      let known = get type s.channels in
      let o = route sequence type now body known in
      (settle type o (arrive type sequence (last_of known) s), o.effects)

  unfoldable pub push : Bytes → ℕ → ℕ → ℕ → Buffer → Buffer × List Effect
  unfolding push_when
  push body sequence type now s = push_when s.closed body sequence type now s

  -- The callback of a channel's timer, which runs at its deadline or later.
  pub expire : ℕ → ℕ → Option ℕ → Channel → Buffer → Buffer × List Effect
  unfolding settle abandon_hole
  expire type now none c s = (s, [])
  expire type now (some deadline) c s =
      if leb deadline now
      then (let o = abandon_hole stops wait type now (record c { timer = none }) in
          (settle type o s, o.effects))
      else (s, [])

  pub expire_known : ℕ → ℕ → Option Channel → Buffer → Buffer × List Effect
  unfolding expire
  expire_known type now none s = (s, [])
  expire_known type now (some c) s = expire type now c.timer c s

  unfoldable pub elapse : ℕ → ℕ → Buffer → Buffer × List Effect
  unfolding expire_known
  elapse type now s = expire_known type now (get type s.channels) s

  pub step : Buffer → Call → Buffer × List Effect
  unfolding push elapse close
  step s (pushes body sequence type now) = push body sequence type now s
  step s (elapses type now) = elapse type now s
  step s closes = (close s, [])

  unfoldable pub run : Buffer → List Call → Buffer × List Effect
  unfolding step
  run s [] = (s, [])
  run s (call ∷ calls) = let r = step s call in let rest = run r.0 calls in (rest.0, r.1 ++ rest.1)
