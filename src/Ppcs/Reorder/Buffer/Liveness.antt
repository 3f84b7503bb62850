-- ===== src/Ppcs/Reorder/Buffer/Liveness.antt =====
-- The gap timers of PpcsDatagramReorderBuffer, stream/first-party-ppcs.ts, bring every held packet out.
use native.Mathlib.Decide.{dec_lt}
use eufy_mega_security.Prelude.{
  ℕ, zero, suc, ◌+◌, ◌≤◌, ◌<◌, ◌≡◌, refl, none, some, List, [], ◌∷◌, ◌++◌, arith, Eq_ℕ, le→leb,
  length, length-append,
}
use eufy_mega_security.Prelude.Bytes.{Bytes}
use eufy_mega_security.Prelude.JsMap.{JsMap, get, total, get-put_self, get-AllValues}
use eufy_mega_security.Ppcs.Reorder.{Channel, Effect, abandon_hole}
use eufy_mega_security.Ppcs.Reorder.Holds.{Sound, Holds}
use eufy_mega_security.Ppcs.Reorder.Progress.{
  delivered, delivered-append, bytes_of, never, abandon_hole-Frees, abandon_hole-never,
  abandon_hole-timer, gap_wait,
}
use eufy_mega_security.Ppcs.Reorder.Buffer.{
  Buffer, settle, expire, elapse, Call, elapses, step, run,
}
use eufy_mega_security.Ppcs.Reorder.Buffer.Channels.{Ordered, step-Ordered}

bytes_of-append : (xs ys : List Bytes) → bytes_of (xs ++ ys) ≡ bytes_of xs + bytes_of ys
unfolding bytes_of
bytes_of-append [] ys = omega arith
bytes_of-append (x ∷ xs) ys = omega (arith, bytes_of-append xs ys)

total_none : (m : JsMap ℕ Bytes) → length m ≡ 0 → total length m ≡ 0
total_none [] h = refl
total_none (e ∷ m) h = absurd (omega arith)

pub firings : ℕ → List ℕ → List Call
firings type [] = []
firings type (t ∷ ts) = elapses type t ∷ firings type ts

-- `n` times, the first at `t` and each `wait` after the one before.
pub every : ℕ → ℕ → ℕ → List ℕ
every wait zero t = []
every wait (suc n) t = t ∷ every wait n (t + wait)

module _ (wait type : ℕ) where
  record Freed (s : Buffer) (c : Channel) (deadline : ℕ) (r : Buffer × List Effect) : Type 0 where
    left : Channel
    known : get type r.0.channels ≡ some left
    packets : length (delivered r.1) + length left.held ≡ length c.held
    carried : bytes_of (delivered r.1) + left.bytes ≡ c.bytes
    some_out : length left.held < length c.held
    set_again : 0 < length left.held → left.timer ≡ some (deadline + gap_wait wait type)

  -- The timer of a waiting channel at its deadline.
  elapse-Freed :
      (s : Buffer) (c : Channel) (deadline : ℕ)
      → Holds c
      → 0 < length c.held
      → get type s.channels ≡ some c
      → c.timer ≡ some deadline
      → Freed s c deadline (elapse never wait type deadline s)
  unfolding elapse expire
  elapse-Freed s c deadline h p e t =
      let c' : Channel = record c { timer = none } in
      let s' : Sound c' = record {
        distinct = h.sound.distinct;
        counted = h.sound.counted;
        near = h.sound.near;
        inside = h.sound.inside;
      } in
      let o = abandon_hole never wait type deadline c' in
      let f = abandon_hole-Frees never wait type deadline c' s' p in
      let kept = abandon_hole-never wait type deadline c' s' p in
      let out : 1 ≤ length (delivered o.effects) = rw f.begins (unfold delivered in omega arith) in
      rw (e, t, le→leb deadline deadline (omega arith))
        (record {
          left = o.channel;
          known = unfold settle in rw (kept, get-put_self type o.channel s.channels) refl;
          packets = f.splits.packets;
          carried = f.splits.carried;
          some_out = omega (arith, f.splits.packets, out);
          set_again = abandon_hole-timer wait type deadline c' s' p;
        })

  -- What firings of the channel's timer leave: nothing held, and every packet delivered.
  pub record Emptied (s : Buffer) (c : Channel) (times : List ℕ) : Type 0 where
    pub few : length times ≤ length c.held
    pub left : Channel
    pub known : get type (run never wait s (firings type times)).0.channels ≡ some left
    pub holds_none : length left.held ≡ 0
    pub packets : length (delivered (run never wait s (firings type times)).1) ≡ length c.held
    pub carried : bytes_of (delivered (run never wait s (firings type times)).1) ≡ c.bytes

  nothing_left :
      (s : Buffer) (c : Channel)
      → length c.held ≡ 0
      → Holds c
      → get type s.channels ≡ some c
      → Emptied s c []
  unfolding run firings delivered bytes_of
  nothing_left s c z h e = record {
    few = omega arith;
    left = c;
    known = e;
    holds_none = z;
    packets = omega arith;
    carried = omega (arith, h.sound.counted, total_none c.held z);
  }

  one_more :
      (s : Buffer) (c : Channel) (deadline : ℕ) (times : List ℕ)
      → (f : Freed s c deadline (elapse never wait type deadline s))
      → Emptied (elapse never wait type deadline s).0 f.left times
      → Emptied s c (deadline ∷ times)
  unfolding run step firings
  one_more s c deadline times f r =
      let es = (elapse never wait type deadline s).1 in
      let later = (run never wait (elapse never wait type deadline s).0 (firings type times)).1 in
      record {
        few = omega (arith, r.few, f.some_out);
        left = r.left;
        known = r.known;
        holds_none = r.holds_none;
        packets =
            rw (delivered-append es later)
              (omega (arith, length-append (delivered es) (delivered later), r.packets, f.packets));
        carried =
            rw (delivered-append es later) (
              omega
                (arith, bytes_of-append (delivered es) (delivered later), r.carried, f.carried));
      }

  empties_within :
      (fuel : ℕ) (s : Buffer) (c : Channel) (deadline : ℕ)
      → length c.held ≤ fuel
      → Ordered s
      → get type s.channels ≡ some c
      → (0 < length c.held → c.timer ≡ some deadline)
      → (n : ℕ) × Emptied s c (every (gap_wait wait type) n deadline)
  unfolding every
  empties_within zero s c deadline f v e t =
      (0, nothing_left s c (omega arith) (get-AllValues Holds type c s.channels v.each e) e)
  empties_within (suc fuel) s c deadline f v e t =
      let h = get-AllValues Holds type c s.channels v.each e in
      elim (dec_lt 0 (length c.held)) [
        | no empty_now ↦ (0, nothing_left s c (omega arith) h e)
        | yes p ↦
            let freed = elapse-Freed s c deadline h p e (t p) in
            let v' : Ordered (elapse never wait type deadline s).0 =
              unfold step in step-Ordered never wait s (elapses type deadline) tt v in
            let (n, rest) =
              empties_within fuel (elapse never wait type deadline s).0 freed.left
                (deadline + gap_wait wait type) (omega (arith, freed.some_out)) v' freed.known
                freed.set_again in
            (
              suc n,
              one_more s c deadline (every (gap_wait wait type) n (deadline + gap_wait wait type))
                  freed rest,
            )
      ]

-- A channel that waits for a lost packet is not stuck, if the session stays open and nothing else comes
-- in: if its timer is set for `deadline`, the timer fires at exactly that time, and then again after each
-- wait of its channel, 250 ms or the video wait, at most once for each held packet until nothing is held;
-- and by then as many packets and bytes are delivered as were held.
pub firings_empty :
    (wait type : ℕ) (s : Buffer) (c : Channel) (deadline : ℕ)
    → Ordered s
    → get type s.channels ≡ some c
    → c.timer ≡ some deadline
    → (n : ℕ) × Emptied wait type s c (every (gap_wait wait type) n deadline)
firings_empty wait type s c deadline v e t =
    empties_within wait type (length c.held) s c deadline (omega arith) v e (λ _. t)
