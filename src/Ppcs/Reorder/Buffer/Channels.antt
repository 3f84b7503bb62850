-- ===== src/Ppcs/Reorder/Buffer/Channels.antt =====
-- The channels of PpcsDatagramReorderBuffer, stream/first-party-ppcs.ts, after any calls.
use eufy_mega_security.Prelude.{
  ℕ, ◌<◌, ◌≡◌, refl, inl, inr, Bool, true, false, Option, none, some, List, [], ◌∷◌, arith, Eq_ℕ,
  leb, length, Bool-cases, All,
}
use eufy_mega_security.Prelude.Bytes.{Bytes}
use eufy_mega_security.Prelude.JsMap.{get, AllValues, get-AllValues, put-AllValues}
use eufy_mega_security.Ppcs.Reorder.{Channel, Outcome, abandon_hole}
use eufy_mega_security.Ppcs.Reorder.Holds.{Sound, Holds}
use eufy_mega_security.Ppcs.Reorder.Accept.{accept-Holds, open_with-Holds, abandon_hole-Holds}
use eufy_mega_security.Ppcs.Reorder.Buffer.{
  Buffer, empty, last_of, settle, route, arrive, push_when, expire, expire_known, Call, pushes,
  elapses, closes, step, run,
}

-- The sequence number is read from 16 bits of the datagram.
abbrev pub InRange : Call → Type 0
InRange (pushes body sequence type now) = sequence < 65536
InRange (elapses type now) = Unit {0}
InRange closes = Unit {0}

pub record Ordered (s : Buffer) : Type 0 where
  pub each : AllValues Holds s.channels
  pub released : s.closed ≡ true → s.channels ≡ []

settle-Ordered :
    (type : ℕ) (o : Outcome) (s : Buffer)
    → Ordered s
    → s.closed ≡ false
    → (o.stopped ≡ false → Holds o.channel)
    → Ordered (settle type o s)
unfolding settle
settle-Ordered type o s v e h = elim (Bool-cases o.stopped) [
  | inl stopped ↦ record { each = rw stopped tt; released = λ _. rw stopped refl }
  | inr kept ↦ record {
    each = rw kept (put-AllValues Holds type o.channel s.channels v.each (h kept));
    released = λ c. absurd (ground (arith, c, kept));
  }
]

pub closed_when_missing :
    (s : Buffer) (type : ℕ) (c : Channel)
    → Ordered s
    → get type s.channels ≡ some c
    → s.closed ≡ false
closed_when_missing s type c v found = elim (Bool-cases s.closed) [
  | inl closed ↦ absurd (ground (arith, v.released closed))
  | inr open_still ↦ open_still
]

module _ (stops : Bytes → ℕ → Bool) (wait : ℕ) where
  route-Holds :
      (sequence type now : ℕ) (body : Bytes) (s : Buffer)
      → Ordered s
      → sequence < 65536
      → (known : Option Channel) → get type s.channels ≡ known
      → (route stops wait sequence type now body known).stopped ≡ false
      → Holds (route stops wait sequence type now body known).channel
  unfolding route
  route-Holds sequence type now body s v q none e h =
      open_with-Holds stops wait sequence type body q
  route-Holds sequence type now body s v q (some c) e h =
      accept-Holds stops wait sequence type now body c
        (get-AllValues Holds type c s.channels v.each e) q h

  expire-Ordered :
      (type now : ℕ) (timer : Option ℕ) (c : Channel) (s : Buffer)
      → Ordered s
      → get type s.channels ≡ some c
      → c.timer ≡ timer
      → Ordered (expire stops wait type now timer c s).0
  unfolding expire
  expire-Ordered type now none c s v e t = v
  expire-Ordered type now (some deadline) c s v e t = elim (Bool-cases (leb deadline now)) [
    | inr early ↦ rw early v
    | inl due ↦
        let h = get-AllValues Holds type c s.channels v.each e in
        let c' : Channel = record c { timer = none } in
        let s' : Sound c' = record {
          distinct = h.sound.distinct;
          counted = h.sound.counted;
          near = h.sound.near;
          inside = h.sound.inside;
        } in
        let waiting : 0 < length c.held = ground (arith, h.idle, t) in
        rw due (
          settle-Ordered type (abandon_hole stops wait type now c') s v
            (closed_when_missing s type c v e)
            (abandon_hole-Holds stops wait type now c' s' waiting (omega (arith, h.few))))
  ]

  push_when-Ordered :
      (closed : Bool) (body : Bytes) (sequence type now : ℕ) (s : Buffer)
      → s.closed ≡ closed
      → sequence < 65536
      → Ordered s
      → Ordered (push_when stops wait closed body sequence type now s).0
  unfolding push_when arrive
  push_when-Ordered true body sequence type now s e q v = v
  push_when-Ordered false body sequence type now s e q v =
      let known = get type s.channels in
      let s' = arrive stops wait type sequence (last_of known) s in
      let v' : Ordered s' = record { each = v.each; released = v.released } in
      settle-Ordered type (route stops wait sequence type now body known) s' v' e
        (route-Holds sequence type now body s v q known refl)

  expire_known-Ordered :
      (type now : ℕ) (known : Option Channel) (s : Buffer)
      → Ordered s
      → get type s.channels ≡ known
      → Ordered (expire_known stops wait type now known s).0
  unfolding expire_known
  expire_known-Ordered type now none s v e = v
  expire_known-Ordered type now (some c) s v e = expire-Ordered type now c.timer c s v e refl

  pub step-Ordered :
      (s : Buffer) (call : Call) → InRange call → Ordered s → Ordered (step stops wait s call).0
  unfolding step
  step-Ordered s (pushes body sequence type now) q v =
      push_when-Ordered s.closed body sequence type now s refl q v
  step-Ordered s (elapses type now) q v =
      expire_known-Ordered type now (get type s.channels) s v refl
  step-Ordered s closes q v = record { each = tt; released = λ _. refl }

  run-Ordered :
      (s : Buffer) (calls : List Call)
      → All InRange calls
      → Ordered s
      → Ordered (run stops wait s calls).0
  unfolding run
  run-Ordered s [] q v = v
  run-Ordered s (call ∷ calls) q v =
      run-Ordered (step stops wait s call).0 calls q.1 (step-Ordered s call q.0 v)

  -- After any pushes, timer ticks and closes on a new buffer, each channel holds fewer than 128 packets
  -- of distinct sequence numbers, each 1 to 32768 places ahead of the last delivered one and none of
  -- them the next one; its byte count is theirs; and its timer is set exactly while it holds any.
  pub run-empty-Ordered :
      (calls : List Call) → All InRange calls → Ordered (run stops wait empty calls).0
  unfolding empty
  run-empty-Ordered calls q = run-Ordered _ calls q (record { each = tt; released = λ h. cc })
