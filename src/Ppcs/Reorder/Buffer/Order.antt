-- ===== src/Ppcs/Reorder/Buffer/Order.antt =====
-- The order of what PpcsDatagramReorderBuffer, stream/first-party-ppcs.ts, delivers.
use eufy_mega_security.Prelude.{
  ℕ, ◌<◌, ◌≡◌, ◌⊎◌, refl, sym, ap, ◌∙◌, inl, inr, Bool, true, false, Option, none, some, List, [],
  ◌∷◌, arith, Eq_ℕ, All, leb, length, is_some, Bool-cases, beq-cases,
}
use eufy_mega_security.Prelude.Bytes.{Bytes}
use eufy_mega_security.Prelude.JsMap.{get, get-put_self, get-put_ne, get-AllValues}
use eufy_mega_security.Ppcs.Reorder.{Channel, Outcome, Effect, abandon_hole}
use eufy_mega_security.Ppcs.Reorder.Holds.{Sound, Holds}
use eufy_mega_security.Ppcs.Reorder.Cursor.{
  Cursor, unset, at, follow, follow-append, follow_other, Tracks, accept-Tracks, open_with-Tracks,
  abandon_hole-Tracks,
}
use eufy_mega_security.Ppcs.Reorder.Buffer.{
  Buffer, empty, close, last_of, settle, route, arrive, push, push_when, elapse, expire,
  expire_known, Call, pushes, elapses, closes, step, run,
}
use eufy_mega_security.Ppcs.Reorder.Buffer.Channels.{InRange, Ordered, step-Ordered}

pub cursor_of : Option Channel → Cursor
cursor_of none = unset
cursor_of (some c) = at c.last

pub record Follows (type : ℕ) (s : Buffer) (r : Buffer × List Effect) : Type 0 where
  cursor : Cursor
  ends : follow type (some (cursor_of (get type s.channels))) r.1 ≡ some cursor
  stands : (r.0.closed ≡ true) ⊎ (cursor ≡ cursor_of (get type r.0.channels))

quiet : (type : ℕ) (s : Buffer) → Follows type s (s, [])
quiet type s = record {
  cursor = cursor_of (get type s.channels);
  ends = unfold follow in refl;
  stands = inr refl;
}

settle-Follows :
    (type : ℕ) (o : Outcome) (s t : Buffer) (watched : ℕ)
    → t.channels ≡ s.channels
    → Tracks type (cursor_of (get type s.channels)) o
    → Follows watched s (settle type o t, o.effects)
unfolding settle cursor_of
settle-Follows type o s t watched e k = elim (beq-cases watched type) [
  | inl (_, same) ↦ record {
    cursor = at o.channel.last;
    ends = rw same k.ends;
    stands = elim (Bool-cases o.stopped) [
      | inl stopped ↦ inl (ground (arith, stopped))
      | inr kept ↦ inr (rw (same, kept, get-put_self type o.channel t.channels) refl)
    ];
  }
  | inr (_, apart) ↦ record {
    cursor = cursor_of (get watched s.channels);
    ends = follow_other type watched _ o.effects (λ p. apart (sym p)) k.own;
    stands = elim (Bool-cases o.stopped) [
      | inl stopped ↦ inl (ground (arith, stopped))
      | inr kept ↦ inr (rw (kept, get-put_ne watched type o.channel t.channels apart, e) refl)
    ];
  }
]

module _ (stops : Bytes → ℕ → Bool) (wait : ℕ) where
  route-Tracks :
      (sequence type now : ℕ) (body : Bytes) (s : Buffer)
      → Ordered s
      → sequence < 65536
      → (known : Option Channel) → get type s.channels ≡ known
      → Tracks type (cursor_of known) (route stops wait sequence type now body known)
  unfolding route cursor_of
  route-Tracks sequence type now body s v q none e = open_with-Tracks stops wait sequence type body
  route-Tracks sequence type now body s v q (some c) e =
      accept-Tracks stops wait sequence type now body c
        (get-AllValues Holds type c s.channels v.each e) q

  push_when-Follows :
      (closed : Bool) (body : Bytes) (sequence type now : ℕ) (s : Buffer) (watched : ℕ)
      → sequence < 65536
      → Ordered s
      → Follows watched s (push_when stops wait closed body sequence type now s)
  unfolding push_when
  push_when-Follows true body sequence type now s watched q v = quiet watched s
  push_when-Follows false body sequence type now s watched q v =
      let known = get type s.channels in
      settle-Follows type (route stops wait sequence type now body known) s
        (arrive stops wait type sequence (last_of known) s) watched (unfold arrive in refl)
        (route-Tracks sequence type now body s v q known refl)

  expire-Follows :
      (type now : ℕ) (timer : Option ℕ) (c : Channel) (s : Buffer) (watched : ℕ)
      → Ordered s
      → get type s.channels ≡ some c
      → c.timer ≡ timer
      → Follows watched s (expire stops wait type now timer c s)
  unfolding expire
  expire-Follows type now none c s watched v e t = quiet watched s
  expire-Follows type now (some deadline) c s watched v e t = elim (Bool-cases (leb deadline now)) [
    | inr early ↦ rw early (quiet watched s)
    | inl due ↦
        let h = get-AllValues Holds type c s.channels v.each e in
        let c' : Channel = record c { timer = none } in
        let s' : Sound c' = record {
          distinct = h.sound.distinct;
          counted = h.sound.counted;
          near = h.sound.near;
          inside = h.sound.inside;
        } in
        let waiting : 0 < length c.held = ground (arith, h.idle, t) in
        rw due (
          settle-Follows type (abandon_hole stops wait type now c') s s watched refl (
            rw e (
              unfold cursor_of in abandon_hole-Tracks stops wait type now c' s' waiting h.blocked)))
  ]

  expire_known-Follows :
      (type now : ℕ) (known : Option Channel) (s : Buffer) (watched : ℕ)
      → Ordered s
      → get type s.channels ≡ known
      → Follows watched s (expire_known stops wait type now known s)
  unfolding expire_known
  expire_known-Follows type now none s watched v e = quiet watched s
  expire_known-Follows type now (some c) s watched v e =
      expire-Follows type now c.timer c s watched v e refl

  step-Follows :
      (s : Buffer) (call : Call) (watched : ℕ)
      → InRange call
      → Ordered s
      → Follows watched s (step stops wait s call)
  unfolding step
  step-Follows s (pushes body sequence type now) watched q v =
      push_when-Follows s.closed body sequence type now s watched q v
  step-Follows s (elapses type now) watched q v =
      expire_known-Follows type now (get type s.channels) s watched v refl
  step-Follows s closes watched q v = record {
    cursor = cursor_of (get watched s.channels);
    ends = unfold follow in refl;
    stands = inl (unfold close in refl);
  }

  push_when_closed :
      (b : Bool) (body : Bytes) (sequence type now : ℕ) (s : Buffer)
      → b ≡ true
      → push_when stops wait b body sequence type now s ≡ (s, [])
  unfolding push_when
  push_when_closed true body sequence type now s h = refl
  push_when_closed false body sequence type now s h = cc

  expire_known_closed :
      (type now : ℕ) (known : Option Channel) (s : Buffer)
      → known ≡ none
      → expire_known stops wait type now known s ≡ (s, [])
  unfolding expire_known
  expire_known_closed type now none s h = refl
  expire_known_closed type now (some c) s h = cc

  -- A closed buffer stays closed and says nothing.
  step_closed :
      (s : Buffer) (call : Call)
      → s.closed ≡ true
      → Ordered s
      → ((step stops wait s call).0.closed ≡ true) × ((step stops wait s call).1 ≡ [])
  unfolding step push elapse close
  step_closed s (pushes body sequence type now) h v =
      let e = push_when_closed s.closed body sequence type now s h in
      (ap (λ r. r.0.closed) e ∙ h, ap (λ r. r.1) e)
  step_closed s (elapses type now) h v =
      let e = expire_known_closed type now (get type s.channels) s (rw (v.released h) refl) in
      (ap (λ r. r.0.closed) e ∙ h, ap (λ r. r.1) e)
  step_closed s closes h v = (refl, refl)

  run_closed :
      (s : Buffer) (calls : List Call)
      → All InRange calls
      → s.closed ≡ true
      → Ordered s
      → (run stops wait s calls).1 ≡ []
  unfolding run
  run_closed s [] q h v = refl
  run_closed s (call ∷ calls) q h v =
      let (still, silent) = step_closed s call h v in
      rw silent (
        run_closed (step stops wait s call).0 calls q.1 still
          (step-Ordered stops wait s call q.0 v))

  run-Follows :
      (s : Buffer) (calls : List Call) (watched : ℕ)
      → All InRange calls
      → Ordered s
      → is_some
          (follow watched (some (cursor_of (get watched s.channels))) (run stops wait s calls).1)
        ≡ true
  unfolding run
  run-Follows s [] watched q v = unfold follow in refl
  run-Follows s (call ∷ calls) watched q v =
      let r = step stops wait s call in
      let f = step-Follows s call watched q.0 v in
      let v' = step-Ordered stops wait s call q.0 v in
      rw
        (
          follow-append watched (some (cursor_of (get watched s.channels))) r.1
              (run stops wait r.0 calls).1,
          f.ends,
        )
        (elim f.stands [
          | inl closed ↦ rw (run_closed r.0 calls q.1 closed v') (unfold follow in refl)
          | inr same ↦ rw same (run-Follows r.0 calls watched q.1 v')
        ])

  -- Whatever order packets arrive in, each channel of a new buffer delivers in sequence: a delivery is the
  -- successor, modulo 65536, of the one before it on its channel, or it follows a reported gap and is 2 to
  -- 32768 places ahead, or it follows a reported restart and is 1025 to 32767 places behind.
  pub run-empty-follow :
      (calls : List Call) (watched : ℕ)
      → All InRange calls
      → is_some (follow watched (some unset) (run stops wait empty calls).1) ≡ true
  unfolding cursor_of empty
  run-empty-follow calls watched q =
      run-Follows empty calls watched q (record { each = tt; released = λ h. cc })
