-- ===== src/Ppcs/Reorder/Earliest.antt =====
-- The packet that `#abandonHole` of PpcsDatagramReorderBuffer, stream/first-party-ppcs.ts, goes on with.
use eufy_mega_security.Prelude.{
  ℕ, ◌≤◌, ◌<◌, ◌≡◌, refl, inl, inr, true, none, some, [], ◌∷◌, arith, Eq_ℕ, length, ltb, is_some,
  beq-cases, Bool-cases,
}
use eufy_mega_security.Prelude.Bytes.{Bytes}
use eufy_mega_security.Prelude.JsMap.{JsMap, get}
use eufy_mega_security.Ppcs.Reorder.{ahead, Channel, next_sequence, before, keys, earliest}
use eufy_mega_security.Ppcs.Reorder.Holds.{Near, Sound}

abbrev Closest : ℕ → ℕ → JsMap ℕ Bytes → Type 0
Closest last e [] = Unit {0}
Closest last e ((k, v) ∷ m) = (ahead e last ≤ ahead k last) × Closest last e m

Closest-le :
    (last e k : ℕ) (m : JsMap ℕ Bytes)
    → ahead k last ≤ ahead e last
    → Closest last e m
    → Closest last k m
Closest-le last e k [] h c = tt
Closest-le last e k ((j, v) ∷ m) h c = (omega arith, Closest-le last e k m h c.1)

pub record Earliest (last : ℕ) (m : JsMap ℕ Bytes) (e : ℕ) : Type 0 where
  pub present : is_some (get e m) ≡ true
  pub low : e < 65536
  pub ahead_of : 1 ≤ ahead e last
  pub within : ahead e last ≤ 32768
  pub closest : Closest last e m

pub earliest-Earliest :
    (last : ℕ) (m : JsMap ℕ Bytes)
    → Near last m
    → 0 < length m
    → (e : ℕ) × (earliest last (keys m) ≡ some e) × Earliest last m e
unfolding earliest keys
earliest-Earliest last [] n h = absurd (omega arith)
earliest-Earliest last ((k, v) ∷ []) n h = (
  k,
  refl,
  record {
    present = ground (arith, beq-cases k k);
    low = n.0;
    ahead_of = n.1;
    within = n.2;
    closest = (omega arith, tt);
  },
)
earliest-Earliest last ((k, v) ∷ (j, w) ∷ m) n h =
    let (e, found, v') = earliest-Earliest last ((j, w) ∷ m) n.3 (omega arith) in
    elim (Bool-cases (ltb (ahead e last) (ahead k last))) [
      | inl closer ↦ (
        e,
        ground (arith, found, closer),
        record {
          present = ground (arith, beq-cases e k, v'.present);
          low = v'.low;
          ahead_of = v'.ahead_of;
          within = v'.within;
          closest = (ground (arith, closer), v'.closest);
        },
      )
      | inr farther ↦ (
        k,
        ground (arith, found, farther),
        record {
          present = ground (arith, beq-cases k k);
          low = n.0;
          ahead_of = n.1;
          within = n.2;
          closest =
              (omega arith, Closest-le last e k ((j, w) ∷ m) (ground (arith, farther)) v'.closest);
        },
      )
    ]

pub next_sequence-before : (e : ℕ) → e < 65536 → next_sequence (before e) ≡ e
unfolding next_sequence before
next_sequence-before e h = omega arith

ahead-before :
    (k e last : ℕ)
    → k < 65536
    → e < 65536
    → last < 65536
    → 1 ≤ ahead e last
    → ahead e last ≤ ahead k last
    → ahead k last ≤ 32768
    → (1 ≤ ahead k (before e)) × (ahead k (before e) ≤ 32768)
unfolding ahead before
ahead-before k e last a b c d f g = omega arith

pub Near-before :
    (last e : ℕ) (m : JsMap ℕ Bytes)
    → e < 65536
    → last < 65536
    → 1 ≤ ahead e last
    → Closest last e m
    → Near last m
    → Near (before e) m
Near-before last e [] a b c d n = tt
Near-before last e ((k, v) ∷ m) a b c d n =
    let (low, high) = ahead-before k e last n.0 a b c d.0 n.2 in
    (n.0, low, high, Near-before last e m a b c d.1 n.3)

-- The channel from which `#abandonHole` drains is sound, and its next packet is there.
pub before-Sound :
    (c : Channel) (e : ℕ)
    → Sound c
    → Earliest c.last c.held e
    → Sound (record c { timer = none; last = before e })
before-Sound c e s v = record {
  distinct = s.distinct;
  counted = s.counted;
  near = Near-before c.last e c.held v.low s.inside v.ahead_of v.closest s.near;
  inside = unfold before in omega arith;
}
