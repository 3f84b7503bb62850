-- ===== src/Ppcs/MediaStart.antt =====
-- PpcsMediaStart of stream/ppcs-media-start.ts. The clock's readings are arguments, and the calls of
-- the `transmit` callback are the packets that an operation returns, in order.
pub mod Timer
pub mod Repair
mod Runs
use eufy_mega_security.Prelude.{
  ℕ, ◌+◌, Bool, true, false, ◌&&◌, ◌||◌, Option, none, some, List, [], ◌∷◌, ◌++◌, ltb, leb, nat_eq,
  if◌then◌else◌, length, is_some,
}
use eufy_mega_security.Prelude.Bytes.{Bytes}

pub record PendingStart : Type 0 where
  pub sequence : ℕ
  pub packet : Bytes
  pub deadline : ℕ

-- `timer` says that the repeating timer is set, `#cancelTimer !== null`.
pub record MediaStart : Type 0 where
  pub current : Option PendingStart
  pub displaced : Option PendingStart
  pub timer : Bool
  pub closed : Bool
  pub acknowledged : ℕ
  pub retransmitted : ℕ
  pub expired : ℕ

pub data Answer : Type 0 where
  accepted refused thrown : Answer

unfoldable pub fresh : MediaStart
fresh = record {
  current = none;
  displaced = none;
  timer = false;
  closed = false;
  acknowledged = 0;
  retransmitted = 0;
  expired = 0;
}

pub pending : MediaStart → Bool
pending s = is_some s.current || is_some s.displaced

pub retire_timer : MediaStart → MediaStart
unfolding pending
retire_timer s = if pending s then s else record s { timer = false }

-- The current start becomes the displaced one, if there is one.
pub displace : MediaStart → Option PendingStart
displace s = elim s.current [ none ↦ s.displaced | some entry ↦ some entry ]

unfoldable pub start : ℕ → Bytes → ℕ → MediaStart → MediaStart × Answer × List Bytes
unfolding displace
start sequence packet now s =
    if s.closed || (is_some s.current && is_some s.displaced)
    then (s, refused, [])
    else if ltb 65535 sequence || ltb 65539 (length packet)
    then (s, thrown, [])
    else (
      record s {
        displaced = displace s;
        current = some (record { sequence = sequence; packet = packet; deadline = now + 3000 });
        timer = true;
      },
      accepted,
      packet ∷ [],
    )

pub holds_sequence : ℕ → Option PendingStart → Bool
holds_sequence sequence none = false
holds_sequence sequence (some entry) = nat_eq entry.sequence sequence

unfoldable pub acknowledge : ℕ → MediaStart → MediaStart
unfolding holds_sequence retire_timer
acknowledge sequence s = retire_timer (
    if holds_sequence sequence s.current
    then record s { current = none; acknowledged = s.acknowledged + 1 }
    else if holds_sequence sequence s.displaced
    then record s { displaced = none; acknowledged = s.acknowledged + 1 }
    else s)

pub media_received : MediaStart → MediaStart
unfolding retire_timer
media_received s = retire_timer (record s { current = none; displaced = none })

pub stop : MediaStart → MediaStart
unfolding retire_timer
stop s = retire_timer (record s { current = none })

pub close : MediaStart → MediaStart
unfolding media_received
close s = media_received (record s { closed = true })

-- One round of the loop of `#retry`, for one slot at one clock reading.
pub record Round : Type 0 where
  pub slot : Option PendingStart
  pub expired : ℕ
  pub sent : List Bytes

pub retry_slot : ℕ → Option PendingStart → Round
retry_slot now none = record { slot = none; expired = 0; sent = [] }
retry_slot now (some entry) =
    if leb entry.deadline now
    then record { slot = none; expired = 1; sent = [] }
    else record { slot = some entry; expired = 0; sent = entry.packet ∷ [] }

-- `#retry`: the displaced start first, each slot with a clock reading of its own.
pub retry : ℕ → ℕ → MediaStart → MediaStart × List Bytes
unfolding retry_slot retire_timer
retry now now' s =
    if s.closed
    then (s, [])
    else let d = retry_slot now s.displaced in
      let c = retry_slot now' s.current in
      (
        retire_timer (record s {
          displaced = d.slot;
          current = c.slot;
          expired = s.expired + d.expired + c.expired;
          retransmitted = s.retransmitted + length d.sent + length c.sent;
        }),
        d.sent ++ c.sent,
      )

-- The calls of the owning session, and the timer's callback, which comes only while it is set.
pub data Call : Type 0 where
  starts : ℕ → Bytes → ℕ → Call
  acknowledges : ℕ → Call
  receives_media stops closes : Call
  ticks : ℕ → ℕ → Call

pub step : MediaStart → Call → MediaStart × List Bytes
unfolding start acknowledge media_received stop close retry
step s (starts sequence packet now) = let r = start sequence packet now s in (r.0, r.2)
step s (acknowledges sequence) = (acknowledge sequence s, [])
step s receives_media = (media_received s, [])
step s stops = (stop s, [])
step s closes = (close s, [])
step s (ticks now now') = if s.timer then retry now now' s else (s, [])

unfoldable pub run : MediaStart → List Call → MediaStart × List Bytes
unfolding step
run s [] = (s, [])
run s (call ∷ calls) = let r = step s call in let rest = run r.0 calls in (rest.0, r.1 ++ rest.1)
