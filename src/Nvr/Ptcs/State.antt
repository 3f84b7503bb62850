-- ===== src/Nvr/Ptcs/State.antt =====
-- The private operations of NvrPtcsReassembler on its maps and counters, and `expire`.
use eufy_mega_security.Prelude.{
  Eq_ℕ, ℕ, ◌+◌, ◌-◌, not, ◌||◌, Option, none, some, [], ◌∷◌, ltb, leb, if◌then◌else◌, length as len,
  min,
}
use eufy_mega_security.Prelude.JsMap.{JsMap, get, put, remove}
use eufy_mega_security.Nvr.Ptcs.{
  Rejection, poisoned, max_safe, FrameKey, PendingFrame, Tombstone, Reassembler, Answer, rejects,
  Eq_Rejection, Eq_FrameKey,
}

abbrev pub Step : Type 0
Step = Reassembler × Answer

-- `#reject`
unfoldable pub reject : Rejection → Reassembler → Step
reject r s =
    let seen : ℕ = elim (get r s.rejected) [ none ↦ 0 | some n ↦ n ] in
    (record s { rejected = put r (min max_safe (seen + 1)) s.rejected }, rejects r)

-- `#release`
unfoldable pub release : FrameKey → PendingFrame → Reassembler → Reassembler
release key p s = record s {
  pending = remove key s.pending;
  buffered_bytes = s.buffered_bytes - p.total;
  retained_fragments = s.retained_fragments - len p.fragments;
}

-- The loop of `#remember`: the first key of the least arrival so far, where there is one.
unfoldable pub oldest : JsMap FrameKey Tombstone → Option (FrameKey × ℕ) → Option (FrameKey × ℕ)
oldest [] best = best
oldest ((key, t) ∷ m) none = oldest m (some (key, t.first_arrival))
oldest ((key, t) ∷ m) (some (k, arrival)) =
    oldest m
      (if ltb t.first_arrival arrival then some (key, t.first_arrival) else some (k, arrival))

unfoldable pub evict_oldest : JsMap FrameKey Tombstone → JsMap FrameKey Tombstone
evict_oldest m = elim (oldest m none) [ none ↦ m | some (key, arrival) ↦ remove key m ]

-- `#remember`
unfoldable pub remember : FrameKey → Tombstone → Reassembler → Reassembler
remember key t s =
    let kept =
      if leb s.limits.max_completed_tombstones (len s.tombstones)
      then evict_oldest s.tombstones
      else s.tombstones in
    record s { tombstones = put key t kept }

-- `#poison`
unfoldable pub poison : FrameKey → PendingFrame → Rejection → Reassembler → Step
poison key p r s =
    reject r (
      remember key (record { first_arrival = p.first_arrival; reason = poisoned })
        (release key p s))

-- The loops of `expire`: what is not old stays, and the counters follow.
unfoldable pub sweep_pending :
    ℕ → ℕ → JsMap FrameKey PendingFrame → ℕ → ℕ → JsMap FrameKey PendingFrame × ℕ × ℕ
sweep_pending expiry now [] buffered retained = ([], buffered, retained)
sweep_pending expiry now ((key, p) ∷ m) buffered retained =
    let old = leb expiry (now - p.first_arrival) in
    let rest =
      sweep_pending expiry now m (if old then buffered - p.total else buffered)
        (if old then retained - len p.fragments else retained) in
    if old then rest else ((key, p) ∷ rest.0, rest.1, rest.2)

unfoldable pub sweep_tombstones : ℕ → ℕ → JsMap FrameKey Tombstone → JsMap FrameKey Tombstone
sweep_tombstones expiry now [] = []
sweep_tombstones expiry now ((key, t) ∷ m) =
    let rest = sweep_tombstones expiry now m in
    if leb expiry (now - t.first_arrival) then rest else (key, t) ∷ rest

unfoldable pub sweep : ℕ → Reassembler → Reassembler
sweep now s =
    let swept =
      sweep_pending s.limits.expiry_milliseconds now s.pending s.buffered_bytes
        s.retained_fragments in
    record s {
      pending = swept.0;
      buffered_bytes = swept.1;
      retained_fragments = swept.2;
      last_now = now;
      tombstones = sweep_tombstones s.limits.expiry_milliseconds now s.tombstones;
    }

-- `expire`; `none` is its RangeError.
unfoldable pub expire : ℕ → Reassembler → Option Reassembler
expire now s = if not (leb now max_safe) || ltb now s.last_now then none else some (sweep now s)
