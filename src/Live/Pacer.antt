-- ===== src/Live/Pacer.antt =====
-- LiveFramePacer of stream/live-frame-pacer.ts, for one viewer. A time is a number of units of 2^-1074 ms,
-- of which every nonnegative double is a whole number. The source's sums, differences and quotients of
-- doubles are rounded; they are an argument of the operations that use them. Sums of whole milliseconds
-- below 2^53 are exact and written as sums. Each operation takes one reading of the monotonic clock. The
-- clock that live-frame-clock.ts attaches to a buffer is an argument, an epoch is a number, and a timer is
-- the time it is due at. The callbacks are the effects that an operation returns, in order, and do not call
-- the pacer back. The summary that close returns is fields of the state. Nothing reads the byte count of a
-- closed pacer, which the source may take below 0 and the model leaves at 0.
mod Bounds
pub mod Handlers
pub mod Lined
pub mod Order
mod Runs
use eufy_mega_security.Prelude.{
  ℕ, ◌+◌, ◌-◌, ◌≤◌, ◌≡◌, Bool, true, false, not, ◌&&◌, ◌||◌, Option, none, some, List, [], ◌∷◌,
  ◌++◌, map, ltb, leb, max, if◌then◌else◌, length, is_some,
}
use eufy_mega_security.Prelude.Bytes.{Bytes}

-- The arithmetic of doubles: a whole number of milliseconds, the rounded sum, the rounded difference from
-- an earlier time, and the rounded milliseconds that some samples last at a rate.
pub record Arithmetic : Type 0 where
  pub whole : ℕ → ℕ
  pub add : ℕ → ℕ → ℕ
  pub less : ℕ → ℕ → ℕ
  pub lasting : ℕ → ℕ → ℕ

-- What the order of the video relies on: rounding keeps the order, and a sum with 0 is exact.
pub record IsDouble (a : Arithmetic) : Type 0 where
  pub whole_rising : (m n : ℕ) → m ≤ n → a.whole m ≤ a.whole n
  pub add_rising : (t m n : ℕ) → m ≤ n → a.add t m ≤ a.add t n
  pub add_zero : (t : ℕ) → a.add t (a.whole 0) ≡ t

abbrev pub max_bytes : ℕ
max_bytes = 4194304

abbrev pub max_packets : ℕ
max_packets = 1024

pub data Kind : Type 0 where
  video audio : Kind

pub record Packet : Type 0 where
  pub at_time : ℕ
  pub kind : Kind
  pub body : Bytes

pub record FrameClock : Type 0 where
  pub timestamp : ℕ
  pub epoch : ℕ
  pub format_changed : Bool

pub data Failure : Type 0 where
  clock_missing input_limit epoch_changed clock_discontinuity audio_invalid : Failure

-- A packet that is played carries its time relative to the start of its kind.
pub data Effect : Type 0 where
  plays : Kind → Bytes → ℕ → Effect
  fails : Failure → Effect
  admits : Bool → Effect

pub record Pacer : Type 0 where
  pub queue : List Packet
  pub bootstrap : List Bytes
  pub bytes : ℕ
  pub maximum_bytes : ℕ
  pub epoch : Option ℕ
  pub previous_timestamp : ℕ
  pub video_origin : ℕ
  pub previous_video_step : Option ℕ
  pub video_elapsed : ℕ
  pub audio_origin : Option ℕ
  pub audio_elapsed : ℕ
  pub timer : Option ℕ
  pub admission_timer : Option ℕ
  pub audio_admission_timer : Option ℕ
  pub closed : Bool
  pub late : ℕ
  pub video_packets : ℕ
  pub audio_packets : ℕ
  pub clock_rebases : ℕ
  pub audio_seen : Bool
  pub audio_disabled : Bool
  pub startup_waiting : Bool

module _ ⦃a : Arithmetic⦄ where
  -- The constructor, at `now` and with `audioWaitMilliseconds`.
  unfoldable pub start : ℕ → ℕ → Pacer
  start now audio_wait = record {
    queue = [];
    bootstrap = [];
    bytes = 0;
    maximum_bytes = 0;
    epoch = none;
    previous_timestamp = 0;
    video_origin = 0;
    previous_video_step = none;
    video_elapsed = 0;
    audio_origin = none;
    audio_elapsed = 0;
    timer = none;
    admission_timer = some (a.add now (a.whole 10000));
    audio_admission_timer = none;
    closed = false;
    late = 0;
    video_packets = 0;
    audio_packets = 0;
    clock_rebases = 0;
    audio_seen = false;
    audio_disabled = false;
    startup_waiting = ltb 0 audio_wait;
  }

unfoldable pub close : Pacer → Pacer
close p = record p {
  closed = true;
  timer = none;
  admission_timer = none;
  audio_admission_timer = none;
  queue = [];
  bootstrap = [];
  bytes = 0;
}

-- `#reject`, of a pacer that is open.
pub reject : Failure → Pacer → Pacer × List Effect
unfolding close
reject reason p = (close p, fails reason ∷ [])

-- `#arm`: the head of the queue is due at its time, or at once.
pub due_at : ℕ → Bool → List Packet → Option ℕ
due_at now held [] = none
due_at now held (packet ∷ queue) = if held then none else some (max now packet.at_time)

pub arm : ℕ → Pacer → Pacer
unfolding due_at
arm now p = record p {
  timer = due_at now (p.closed || p.startup_waiting || not (is_some p.epoch)) p.queue;
}

-- The place before the first packet of a later time.
pub insert_packet : Packet → List Packet → List Packet
insert_packet p [] = p ∷ []
insert_packet p (q ∷ qs) = if ltb p.at_time q.at_time then p ∷ q ∷ qs else q ∷ insert_packet p qs

pub over_limit : ℕ → Pacer → Bool
over_limit size p =
    ltb max_bytes (p.bytes + size) || leb max_packets (length p.queue + length p.bootstrap)

pub stored : ℕ → Packet → Pacer → Pacer
unfolding insert_packet
stored now packet p = record p {
  queue = insert_packet packet p.queue;
  bytes = p.bytes + length packet.body;
  maximum_bytes = max p.maximum_bytes (p.bytes + length packet.body);
  late = if not p.startup_waiting && ltb packet.at_time now then p.late + 1 else p.late;
}

-- `#enqueue`. The second check of the limits, in `#checkLimit`, cannot fail after the first.
pub enqueue : ℕ → Packet → Pacer → Pacer × List Effect
unfolding over_limit reject stored arm
enqueue now packet p =
    if p.closed
    then (p, [])
    else if over_limit (length packet.body) p
    then reject input_limit p
    else (arm now (stored now packet p), [])

pub then_ : Pacer × List Effect → (Pacer → Pacer × List Effect) → Pacer × List Effect
then_ r f = let next = f r.0 in (next.0, r.1 ++ next.1)

module _ ⦃a : Arithmetic⦄ where
  -- The time of what comes with an origin, after the buffered six seconds.
  pub buffered : ℕ → ℕ
  buffered origin = a.add origin (a.whole 6000)

  -- The bootstrap buffers leave for the queue one by one.
  pub enqueue_bootstrap : ℕ → List Bytes → Pacer → Pacer × List Effect
  unfolding enqueue then_ buffered
  enqueue_bootstrap now [] p = (p, [])
  enqueue_bootstrap now (body ∷ bodies) p =
      then_
        (enqueue now (record { at_time = buffered p.video_origin; kind = video; body = body })
          (record p { bytes = p.bytes - length body }))
        (enqueue_bootstrap now bodies)

  pub shift_packet : ℕ → ℕ → Packet → Packet
  shift_packet video_shift audio_shift packet = record packet {
    at_time = a.add packet.at_time (elim packet.kind [ video ↦ video_shift | audio ↦ audio_shift ]);
  }

pub insert_sorted : Packet → List Packet → List Packet
insert_sorted p [] = p ∷ []
insert_sorted p (q ∷ qs) = if leb p.at_time q.at_time then p ∷ q ∷ qs else q ∷ insert_sorted p qs

-- The stable sort by time.
pub sort_packets : List Packet → List Packet
unfolding insert_sorted
sort_packets [] = []
sort_packets (p ∷ ps) = insert_sorted p (sort_packets ps)

pub origin_or : ℕ → Option ℕ → ℕ
origin_or d none = d
origin_or d (some n) = n

pub wait_until : ℕ → Option ℕ → Option ℕ
wait_until due none = some due
wait_until due (some set) = some set

module _ ⦃a : Arithmetic⦄ where
  -- `#releaseStartup`, of an open pacer whose startup waits.
  pub release : ℕ → Bool → Pacer → Pacer × List Effect
  unfolding arm sort_packets shift_packet origin_or
  release now with_audio p = (
    arm now (record p {
      startup_waiting = false;
      audio_disabled = not with_audio;
      audio_admission_timer = none;
      queue = sort_packets (
          map (shift_packet (a.less now p.video_origin) (a.less now (origin_or now p.audio_origin)))
            p.queue);
      video_origin = now;
      audio_origin = some now;
    }),
    admits with_audio ∷ [],
  )

  -- `#admitStartup`.
  pub admit_startup : ℕ → ℕ → Pacer → Pacer × List Effect
  unfolding release wait_until
  admit_startup now audio_wait p =
      if p.closed || not p.startup_waiting || not (is_some p.epoch)
      then (p, [])
      else if p.audio_seen
      then release now true p
      else (
        record p {
          audio_admission_timer =
              wait_until (a.add now (a.whole audio_wait)) p.audio_admission_timer;
        },
        [],
      )
