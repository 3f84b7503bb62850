-- ===== src/Ppcs/Reorder/Arrivals/Accept.antt =====
-- One arrival in a channel of PpcsDatagramReorderBuffer, stream/first-party-ppcs.ts.
use native.Mathlib.Decide.{dec_lt, ℕ_discrete}
use eufy_mega_security.Prelude.{
  ℕ, ◌+◌, ◌≤◌, ◌<◌, ◌≡◌, refl, sym, ◌∙◌, inl, inr, true, false, some, [], ◌∷◌, arith, Eq_ℕ, length,
  Bool-cases, nat_eq-false, nat_eq-true, leb-false,
}
use eufy_mega_security.Prelude.Bytes.{Bytes}
use eufy_mega_security.Prelude.JsMap.{put, get-put_self, get-put_ne, length-put-le}
use eufy_mega_security.Ppcs.Reorder.{
  Disposition, next, gap, duplicate, stale, sequence_disposition, Channel, repeats, arm, keep, hold,
  continue_with, accept_as, accept,
}
use eufy_mega_security.Ppcs.Reorder.Progress.{delivered, never}
use eufy_mega_security.Ppcs.Reorder.Arrivals.{
  Arrivals, arrived, place, sizes, Partly, Ran, stay, one_out, drain-Ran, place-ne,
  disposition_same, disposition_old, disposition_following, disposition_early,
}

module _ (sent : ℕ → Bytes) (base wait type now : ℕ) where
  -- An arrival that adds no place after `k`.
  again :
      (xs : Arrivals) (k j : ℕ) (c : Channel)
      → ((i : ℕ) → k < i → arrived i ((j, now) ∷ xs) ≡ arrived i xs)
      → Partly sent base xs k c
      → Partly sent base ((j, now) ∷ xs) k c
  unfolding arrived sizes
  again xs k j c same p = record {
    last = p.last;
    bounded = p.bounded;
    kept = λ i h l. rw (same i h) (p.kept i h l);
    seen = λ i h l. ground (arith, p.seen i h l);
    few = omega (arith, p.few);
    light = omega (arith, p.light);
  }

  old_place : (xs : Arrivals) (k j i : ℕ) → j ≤ k → k < i → arrived i ((j, now) ∷ xs) ≡ arrived i xs
  unfolding arrived
  old_place xs k j i h l = rw (nat_eq-false j i (λ e. omega (arith, e))) refl

  known_place :
      (xs : Arrivals) (j i : ℕ) → arrived j xs ≡ true → arrived i ((j, now) ∷ xs) ≡ arrived i xs
  unfolding arrived
  known_place xs j i h = elim (ℕ_discrete j i) [
    | yes e ↦ rw (nat_eq-true j i e, ← e, h) refl
    | no e ↦ rw (nat_eq-false j i e) refl
  ]

  repeat-Ran :
      (xs : Arrivals) (k j : ℕ) (c : Channel) (d : Disposition)
      → ((i : ℕ) → k < i → arrived i ((j, now) ∷ xs) ≡ arrived i xs)
      → Partly sent base xs k c
      → arrived (k + 1) xs ≡ false
      → Ran sent base
          ((j, now) ∷ xs)
          k
          (record { channel = c; effects = repeats d ∷ []; stopped = false })
  repeat-Ran xs k j c d same p h =
      stay sent base ((j, now) ∷ xs) k c (repeats d ∷ []) (unfold delivered in refl)
        (again xs k j c same p) (same (k + 1) (omega arith) ∙ h)

  following-Ran :
      (xs : Arrivals) (k : ℕ) (c : Channel)
      → k + 1 ≤ 1024
      → arrived 1025 xs ≡ false
      → Partly sent base xs k c
      → Ran sent base
          ((k + 1, now) ∷ xs)
          k
          (continue_with never wait (place base (k + 1)) type now (sent (k + 1)) c)
  unfolding continue_with
  following-Ran xs k c b top p =
      let c' : Channel = record c { last = place base (k + 1) } in
      let p' : Partly sent base ((k + 1, now) ∷ xs) (k + 1) c' = record {
        last = refl;
        bounded = b;
        kept =
            λ i h l. rw (old_place xs (k + 1) (k + 1) i (omega arith) h) (p.kept i (omega arith) l);
        seen = λ i h l. elim (dec_lt k i) [
          | yes late ↦ unfold arrived in rw (nat_eq-true (k + 1) i (omega arith)) refl
          | no early ↦ unfold arrived in ground (arith, p.seen i h (omega arith))
        ];
        few = omega (arith, p.few);
        light = unfold sizes in omega (arith, p.light);
      } in
      one_out sent base ((k + 1, now) ∷ xs) k (place base (k + 1)) type _ (
        drain-Ran sent base wait type now ((k + 1, now) ∷ xs) (k + 1) c'
          (old_place xs (k + 1) (k + 1) 1025 (omega arith) (omega arith) ∙ top) p')

  held_place :
      (xs : Arrivals) (k j : ℕ) (c : Channel)
      → k < j
      → j ≤ 1024
      → Partly sent base xs k c
      → Partly sent base ((j, now) ∷ xs) k (record c {
        held = put (place base j) (sent j) c.held;
        bytes = c.bytes + length (sent j);
      })
  unfolding arrived sizes
  held_place xs k j c a b p = record {
    last = p.last;
    bounded = p.bounded;
    kept = λ i h l. elim (ℕ_discrete j i) [
      | yes e ↦ rw (nat_eq-true j i e, ← e) (get-put_self (place base j) (sent j) c.held)
      | no e ↦ rw (nat_eq-false j i e) (
          get-put_ne (place base i) (place base j) (sent j) c.held
            (place-ne base i j l (omega arith) (λ q. e (sym q)))
          ∙ p.kept i h l)
    ];
    seen = λ i h l. ground (arith, p.seen i h l);
    few = omega (arith, p.few, length-put-le (place base j) (sent j) c.held);
    light = omega (arith, p.light);
  }

  under_limits :
      (xs : Arrivals) (k : ℕ) (c : Channel)
      → length xs < 128
      → sizes sent xs < 2097152
      → Partly sent base xs k c
      → arrived (k + 1) xs ≡ false
      → Ran sent base xs k (keep never wait type now c)
  unfolding keep
  under_limits xs k c few light p h =
      rw
        (
          leb-false 128 (length c.held) (omega (arith, p.few)),
          leb-false 2097152 c.bytes (omega (arith, p.light)),
        )
        (stay sent base xs k (arm never wait type now c) [] (unfold delivered in refl)
          (unfold arm in
            record {
              last = p.last;
              bounded = p.bounded;
              kept = p.kept;
              seen = p.seen;
              few = p.few;
              light = p.light;
            })
          h)

  early-Ran :
      (xs : Arrivals) (k j : ℕ) (c : Channel)
      → k + 1 < j
      → j ≤ 1024
      → length xs + 1 < 128
      → sizes sent ((j, now) ∷ xs) < 2097152
      → Partly sent base xs k c
      → arrived (k + 1) xs ≡ false
      → Ran sent base ((j, now) ∷ xs) k (hold never wait (place base j) type now (sent j) c)
  unfolding hold
  early-Ran xs k j c a b few light p h = elim (Bool-cases (arrived j xs)) [
    | inl known ↦
        rw (p.kept j (omega arith) (omega arith), known)
          (repeat-Ran xs k j c duplicate (λ i _. known_place xs j i known) p h)
    | inr new ↦
        rw (p.kept j (omega arith) (omega arith), new)
          (under_limits ((j, now) ∷ xs) k _ (omega arith) light
            (held_place xs k j c (omega arith) b p)
            (unfold arrived in rw (nat_eq-false j (k + 1) (λ e. omega (arith, e))) h))
  ]

  disposition_of :
      (xs : Arrivals) (k j : ℕ) (c : Channel)
      → Partly sent base xs k c
      → (d : Disposition) → sequence_disposition (some (place base k)) (place base j) ≡ d
      → sequence_disposition (some c.last) (place base j) ≡ d
  disposition_of xs k j c p d e = rw p.last e

  -- One arrival: the places that it completes come out, and the next one is missing.
  pub accept-Ran :
      (xs : Arrivals) (k j : ℕ) (c : Channel)
      → j ≤ 1024
      → length xs + 1 < 128
      → sizes sent ((j, now) ∷ xs) < 2097152
      → arrived 1025 xs ≡ false
      → Partly sent base xs k c
      → arrived (k + 1) xs ≡ false
      → Ran sent base ((j, now) ∷ xs) k (accept never wait (place base j) type now (sent j) c)
  unfolding accept accept_as
  accept-Ran xs k j c b few light top p h = elim (dec_lt k j) [
    | no behind ↦ elim (dec_lt j k) [
      | yes old ↦
          rw (disposition_of xs k j c p stale (disposition_old base j k old p.bounded))
            (repeat-Ran xs k j c stale (λ i l. old_place xs k j i (omega arith) l) p h)
      | no same ↦
          let e : j ≡ k = omega arith in
          rw (disposition_of xs k j c p duplicate (rw e (disposition_same base k)))
            (repeat-Ran xs k j c duplicate (λ i l. old_place xs k j i (omega arith) l) p h)
    ]
    | yes front ↦ elim (dec_lt (k + 1) j) [
      | yes early ↦
          rw (disposition_of xs k j c p gap (disposition_early base j k early b))
            (early-Ran xs k j c early b few light p h)
      | no following ↦
          let e : j ≡ k + 1 = omega arith in
          rw (e, disposition_of xs k (k + 1) c p next (disposition_following base k))
            (following-Ran xs k c (omega (arith, e)) top p)
    ]
  ]
