-- ===== src/Ppcs/Reorder/Arrivals.antt =====
-- Packets of one channel that arrive out of order and more than once: PpcsDatagramReorderBuffer of
-- stream/first-party-ppcs.ts, one channel.
pub mod Accept
use native.Mathlib.Decide.{dec_lt}
use eufy_mega_security.Prelude.{
  ℕ, zero, suc, ◌+◌, ◌%◌, ◌≤◌, ◌<◌, ◌≡◌, ◌≢◌, refl, sym, subst, ap, ◌∙◌, inl, inr, Bool, true,
  false, ◌||◌, none, some, List, [], ◌∷◌, ◌++◌, arith, Eq_ℕ, nat_eq, if◌then◌else◌, length,
  Bool-cases,
}
use eufy_mega_security.Prelude.Bytes.{Bytes}
use eufy_mega_security.Prelude.JsMap.{JsMap, get, get-remove_ne, length-remove_old}
use eufy_mega_security.Ppcs.Reorder.{
  next, gap, duplicate, stale, ahead, sequence_disposition, Channel, Outcome, Effect, delivers,
  next_sequence, advance_to, after_effect, arm, rearm, drain_loop, drain,
}
use eufy_mega_security.Ppcs.Reorder.Progress.{delivered, never}

-- An arrival is a packet's place after the first one, with the clock's reading.
abbrev pub Arrivals : Type 0
Arrivals = List (ℕ × ℕ)

unfoldable pub arrived : ℕ → Arrivals → Bool
arrived j [] = false
arrived j ((i, now) ∷ xs) = nat_eq i j || arrived j xs

-- The sequence number of place `j`, where the first packet has `base`.
unfoldable pub place : ℕ → ℕ → ℕ
place base j = (base + j) % 65536

module _ (sent : ℕ → Bytes) where
  -- The `n` packets after place `k`.
  unfoldable pub span : ℕ → ℕ → List Bytes
  span k zero = []
  span k (suc n) = sent (k + 1) ∷ span (k + 1) n

  pub span-append : (k m n : ℕ) → span k m ++ span (k + m) n ≡ span k (m + n)
  unfolding span
  span-append k zero n =
      ap (λ (i : ℕ). span i n) {x = k + 0} {y = k} (omega arith) ∙ ap (span k) {x = n} (omega arith)
  span-append k (suc m) n =
      ap (◌∷◌ (sent (k + 1))) (
        ap (λ (i : ℕ). span (k + 1) m ++ span i n) {x = k + suc m} {y = (k + 1) + m} (omega arith)
        ∙ span-append (k + 1) m n)
      ∙ ap (span k) {x = suc (m + n)} (omega arith)

  unfoldable pub sizes : Arrivals → ℕ
  sizes [] = 0
  sizes ((i, now) ∷ xs) = length (sent i) + sizes xs

disposition_same :
    (base j : ℕ) → sequence_disposition (some (place base j)) (place base j) ≡ duplicate
unfolding sequence_disposition ahead place
disposition_same base j = ground arith

disposition_old :
    (base j k : ℕ)
    → j < k
    → k ≤ 1024
    → sequence_disposition (some (place base k)) (place base j) ≡ stale
unfolding sequence_disposition ahead place
disposition_old base j k a b = ground arith

disposition_following :
    (base k : ℕ) → sequence_disposition (some (place base k)) (place base (k + 1)) ≡ next
unfolding sequence_disposition ahead place
disposition_following base k = ground arith

disposition_early :
    (base j k : ℕ)
    → k + 1 < j
    → j ≤ 1024
    → sequence_disposition (some (place base k)) (place base j) ≡ gap
unfolding sequence_disposition ahead place
disposition_early base j k a b = ground arith

next_sequence-place : (base k : ℕ) → next_sequence (place base k) ≡ place base (k + 1)
unfolding next_sequence place
next_sequence-place base k = omega arith

place-ne : (base i j : ℕ) → i ≤ 1025 → j ≤ 1025 → i ≢ j → place base i ≢ place base j
unfolding place
place-ne base i j a b h e = omega (arith, h, e)

not_last :
    (xs : Arrivals) (k : ℕ)
    → arrived (k + 1) xs ≡ true
    → arrived 1025 xs ≡ false
    → k ≤ 1024
    → k + 1 ≤ 1024
not_last xs k there top b = elim (dec_lt k 1024) [
  | yes p ↦ omega arith
  | no p ↦ let e : k + 1 ≡ 1025 = omega arith in absurd (ground (arith, rw e at there, top))
]

module _ (sent : ℕ → Bytes) (base : ℕ) where
  -- Where a channel stands once `k` places are delivered and the arrivals `xs` seen.
  pub record Partly (xs : Arrivals) (k : ℕ) (c : Channel) : Type 0 where
    pub last : c.last ≡ place base k
    pub bounded : k ≤ 1024
    pub kept :
        ((j : ℕ)
          → k < j
          → j ≤ 1025
          → get (place base j) c.held ≡ (if arrived j xs then some (sent j) else none))
    pub seen : ((j : ℕ) → 1 ≤ j → j ≤ k → arrived j xs ≡ true)
    pub few : length c.held ≤ length xs
    pub light : c.bytes ≤ sizes sent xs

  pub record Ran (xs : Arrivals) (k : ℕ) (o : Outcome) : Type 0 where
    pub count : ℕ
    pub out : delivered o.effects ≡ span sent k count
    pub now_at : Partly xs (k + count) o.channel
    pub missing : arrived (k + count + 1) xs ≡ false
    pub open_still : o.stopped ≡ false

  get-none : (m : JsMap ℕ Bytes) (j : ℕ) → length m ≤ 0 → get j m ≡ none
  get-none [] j h = refl
  get-none (e ∷ m) j h = absurd (omega arith)

  stay :
      (xs : Arrivals) (k : ℕ) (c : Channel) (es : List Effect)
      → delivered es ≡ []
      → Partly xs k c
      → arrived (k + 1) xs ≡ false
      → Ran xs k (record { channel = c; effects = es; stopped = false })
  unfolding span
  stay xs k c es d p h = record {
    count = 0;
    out = d;
    now_at = subst (λ (i : ℕ). Partly xs i c) (omega arith) p;
    missing = subst (λ (i : ℕ). arrived i xs ≡ false) {x = k + 1} (omega arith) h;
    open_still = refl;
  }

  one_out :
      (xs : Arrivals) (k s type : ℕ) (o : Outcome)
      → Ran xs (k + 1) o
      → Ran xs k (after_effect (delivers s (sent (k + 1)) type) o)
  unfolding span delivered after_effect
  one_out xs k s type o r = record {
    count = suc r.count;
    out = ap (◌∷◌ (sent (k + 1))) r.out;
    now_at = subst (λ (i : ℕ). Partly xs i o.channel) {x = k + 1 + r.count} (omega arith) r.now_at;
    missing =
        subst (λ (i : ℕ). arrived i xs ≡ false) {x = k + 1 + r.count + 1} (omega arith) r.missing;
    open_still = r.open_still;
  }

  moved :
      (xs : Arrivals) (k : ℕ) (c : Channel)
      → Partly xs k c
      → k + 1 ≤ 1024
      → arrived (k + 1) xs ≡ true
      → get (place base (k + 1)) c.held ≡ some (sent (k + 1))
      → Partly xs (k + 1) (advance_to (place base (k + 1)) (sent (k + 1)) c)
  unfolding advance_to
  moved xs k c p b a g = record {
    last = refl;
    bounded = b;
    kept = λ j h l.
        get-remove_ne (place base j) (place base (k + 1)) c.held
          (place-ne base j (k + 1) l (omega arith) (omega (arith, h)))
        ∙ p.kept j (omega arith) l;
    seen = λ j h l. elim (dec_lt k j) [
      | yes late ↦ subst (λ (i : ℕ). arrived i xs ≡ true) {x = k + 1} (omega arith) a
      | no early ↦ p.seen j h (omega arith)
    ];
    few = omega (arith, p.few, length-remove_old (place base (k + 1)) (sent (k + 1)) c.held g);
    light = omega (arith, p.light);
  }

  upcoming :
      (xs : Arrivals) (k : ℕ) (c : Channel)
      → Partly xs k c
      → next_sequence c.last ≡ place base (k + 1)
  upcoming xs k c p = ap next_sequence p.last ∙ next_sequence-place base k

  not_yet :
      (xs : Arrivals) (k : ℕ) (c : Channel)
      → Partly xs k c
      → get (place base (k + 1)) c.held ≡ none
      → arrived (k + 1) xs ≡ false
  not_yet xs k c p h = elim (Bool-cases (arrived (k + 1) xs)) [
    | inr no_such ↦ no_such
    | inl there ↦
        absurd (ground (arith, there, h, p.kept (k + 1) (omega arith) (omega (arith, p.bounded))))
  ]

  module _ (wait : ℕ) where
    drain_loop-Ran :
        (fuel type : ℕ) (xs : Arrivals) (k : ℕ) (c : Channel)
        → length c.held ≤ fuel
        → arrived 1025 xs ≡ false
        → Partly xs k c
        → Ran xs k (drain_loop never wait fuel type c)
    unfolding drain_loop
    drain_loop-Ran zero type xs k c f top p =
        stay xs k c [] (unfold delivered in refl) p
          (not_yet xs k c p (get-none c.held (place base (k + 1)) f))
    drain_loop-Ran (suc fuel) type xs k c f top p = elim (Bool-cases (arrived (k + 1) xs)) [
      | inr no_such ↦
          let none_held : get (next_sequence c.last) c.held ≡ none =
            ap (λ (i : ℕ). get i c.held) (upcoming xs k c p)
            ∙ p.kept (k + 1) (omega arith) (omega (arith, p.bounded))
            ∙ rw no_such refl in
          rw (none_held, drain_loop) (stay xs k c [] (unfold delivered in refl) p no_such)
      | inl there ↦
          let held : get (place base (k + 1)) c.held ≡ some (sent (k + 1)) =
            p.kept (k + 1) (omega arith) (omega (arith, p.bounded)) ∙ rw there refl in
          let held_next : get (next_sequence c.last) c.held ≡ some (sent (k + 1)) =
            ap (λ (i : ℕ). get i c.held) (upcoming xs k c p) ∙ held in
          let inside : k + 1 ≤ 1024 = not_last xs k there top p.bounded in
          let c' = advance_to (next_sequence c.last) (sent (k + 1)) c in
          let p' : Partly xs (k + 1) c' =
            subst (λ (i : ℕ). Partly xs (k + 1) (advance_to i (sent (k + 1)) c))
              (sym (upcoming xs k c p)) (moved xs k c p inside there held) in
          let fewer : length c'.held + 1 ≡ length c.held =
            unfold advance_to in
            length-remove_old (next_sequence c.last) (sent (k + 1)) c.held held_next in
          rw (held_next, drain_loop)
            (one_out xs k (next_sequence c.last) type _
              (drain_loop-Ran fuel type xs (k + 1) c' (omega arith) top p'))
    ]

    rearm-Ran :
        (type now : ℕ) (xs : Arrivals) (k : ℕ) (o : Outcome)
        → Ran xs k o
        → Ran xs k (rearm never wait type now o)
    unfolding rearm arm
    rearm-Ran type now xs k o r = simp (r.open_still) (record {
      count = r.count;
      out = r.out;
      now_at = record {
        last = r.now_at.last;
        bounded = r.now_at.bounded;
        kept = r.now_at.kept;
        seen = r.now_at.seen;
        few = r.now_at.few;
        light = r.now_at.light;
      };
      missing = r.missing;
      open_still = refl;
    })

    drain-Ran :
        (type now : ℕ) (xs : Arrivals) (k : ℕ) (c : Channel)
        → arrived 1025 xs ≡ false
        → Partly xs k c
        → Ran xs k (drain never wait type now c)
    unfolding drain
    drain-Ran type now xs k c top p = rearm-Ran type now xs k _ (
        drain_loop-Ran (length c.held) type xs k (record c { timer = none }) (omega arith) top
          (record {
            last = p.last;
            bounded = p.bounded;
            kept = p.kept;
            seen = p.seen;
            few = p.few;
            light = p.light;
          }))
