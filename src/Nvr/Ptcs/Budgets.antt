-- ===== src/Nvr/Ptcs/Budgets.antt =====
-- The budgets and the counters of NvrPtcsReassembler.
pub mod Flow
pub mod Calls
use eufy_mega_security.Prelude.{
  Eq_ℕ, ℕ, ◌+◌, ◌-◌, ◌≤◌, ◌<◌, ◌≡◌, ◌⊎◌, refl, inl, inr, arith, true, none, some, [], ◌∷◌, ltb, leb,
  length, Bool-cases, Option-cases, beq-cases,
}
use eufy_mega_security.Prelude.JsMap.{
  JsMap, get, remove, has, total, total-remove_old, length-put-le, length-remove_old, AllValues,
  remove-AllValues,
}
use eufy_mega_security.Nvr.Ptcs.{
  Rejection, FrameKey, Fragment, PendingFrame, Tombstone, Reassembler, Eq_Rejection, Eq_FrameKey,
}
use eufy_mega_security.Nvr.Ptcs.State.{
  reject, release, oldest, evict_oldest, remember, poison, sweep_pending, sweep_tombstones, sweep,
}

abbrev pub frame_total : PendingFrame → ℕ
frame_total p = p.total

abbrev pub frame_fragments : PendingFrame → ℕ
frame_fragments p = length p.fragments

abbrev pub fragment_size : Fragment → ℕ
fragment_size f = length f.bytes

-- The payload bytes of a frame are counted, and do not exceed what was reserved for it.
abbrev pub GoodFrame : PendingFrame → Type 0
GoodFrame p = (p.received_bytes ≡ total fragment_size p.fragments) × (p.received_bytes ≤ p.total)

-- The counters and the budgets.
pub record Counted (s : Reassembler) : Type 0 where
  pub buffered : s.buffered_bytes ≡ total frame_total s.pending
  pub retained : s.retained_fragments ≡ total frame_fragments s.pending
  pub few_frames : length s.pending ≤ s.limits.max_pending_frames
  pub few_bytes : s.buffered_bytes ≤ s.limits.max_buffered_bytes
  pub few_fragments : s.retained_fragments ≤ s.limits.max_retained_fragments
  pub few_tombstones : length s.tombstones ≤ s.limits.max_completed_tombstones
  pub some_tombstones : 1 ≤ s.limits.max_completed_tombstones

pub record Inv (s : Reassembler) : Type 0 where
  pub counted : Counted s
  pub good : AllValues GoodFrame s.pending

-- The frame under `key` is `p`, and all others are good.
pub record Loose (key : FrameKey) (p : PendingFrame) (s : Reassembler) : Type 0 where
  pub counted : Counted s
  pub here : get key s.pending ≡ some p
  pub others : AllValues GoodFrame (remove key s.pending)

pub Inv-Loose :
    (key : FrameKey) (p : PendingFrame) (s : Reassembler)
    → Inv s
    → get key s.pending ≡ some p
    → Loose key p s
Inv-Loose key p s v h = record {
  counted = v.counted;
  here = h;
  others = remove-AllValues GoodFrame key s.pending v.good;
}

pub reject-Inv : (r : Rejection) (s : Reassembler) → Inv s → Inv (reject r s).0
unfolding reject
reject-Inv r s v = record {
  counted = record {
    buffered = v.counted.buffered;
    retained = v.counted.retained;
    few_frames = v.counted.few_frames;
    few_bytes = v.counted.few_bytes;
    few_fragments = v.counted.few_fragments;
    few_tombstones = v.counted.few_tombstones;
    some_tombstones = v.counted.some_tombstones;
  };
  good = v.good;
}

-- `oldest` answers with a key of the map.
oldest_found :
    (m : JsMap FrameKey Tombstone) (k : FrameKey) (a : ℕ)
    → (j : FrameKey) × (b : ℕ) × (oldest m (some (k, a)) ≡ some (j, b))
      × ((j ≡ k) ⊎ (has j m ≡ true))
unfolding oldest
oldest_found [] k a = (k, a, refl, inl refl)
oldest_found ((key, t) ∷ m) k a = elim (Bool-cases (ltb t.first_arrival a)) [
  | inl older ↦
      let (j, b, e, where_) = oldest_found m key t.first_arrival in
      (j, b, rw older e, inr (ground (arith, where_, beq-cases j key)))
  | inr newer ↦
      let (j, b, e, where_) = oldest_found m k a in
      (j, b, rw newer e, ground (arith, where_, beq-cases j key))
]

length-evict_oldest :
    (m : JsMap FrameKey Tombstone) → 0 < length m → length (evict_oldest m) + 1 ≡ length m
unfolding evict_oldest
length-evict_oldest [] h = absurd (omega arith)
length-evict_oldest ((key, t) ∷ m) h =
    let (j, b, e, where_) = oldest_found m key t.first_arrival in
    let there : has j ((key, t) ∷ m) ≡ true = ground (arith, where_, beq-cases j key) in
    let first : oldest ((key, t) ∷ m) none ≡ some (j, b) = unfold oldest in e in
    elim (Option-cases (get j ((key, t) ∷ m))) [
      | inl missing ↦ absurd (ground (arith, there, missing))
      | inr (w, found) ↦ rw (first, evict_oldest) (length-remove_old j w ((key, t) ∷ m) found)
    ]

pub remember-Inv :
    (key : FrameKey) (t : Tombstone) (s : Reassembler) → Inv s → Inv (remember key t s)
unfolding remember
remember-Inv key t s v = record {
  counted = record {
    buffered = v.counted.buffered;
    retained = v.counted.retained;
    few_frames = v.counted.few_frames;
    few_bytes = v.counted.few_bytes;
    few_fragments = v.counted.few_fragments;
    few_tombstones =
        elim (Bool-cases (leb s.limits.max_completed_tombstones (length s.tombstones))) [
          | inl full ↦ rw full (
              let some_held : 0 < length s.tombstones =
                ground (arith, full, v.counted.some_tombstones) in
              omega (
                arith,
                length-put-le key t (evict_oldest s.tombstones),
                length-evict_oldest s.tombstones some_held,
                v.counted.few_tombstones,
              ))
          | inr room ↦ rw room (ground (arith, room, length-put-le key t s.tombstones))
        ];
    some_tombstones = v.counted.some_tombstones;
  };
  good = v.good;
}

pub release-Inv :
    (key : FrameKey) (p : PendingFrame) (s : Reassembler) → Loose key p s → Inv (release key p s)
unfolding release
release-Inv key p s l = record {
  counted = record {
    buffered =
        omega (arith, l.counted.buffered, total-remove_old frame_total key p s.pending l.here);
    retained =
        omega (arith, l.counted.retained, total-remove_old frame_fragments key p s.pending l.here);
    few_frames = omega (arith, l.counted.few_frames, length-remove_old key p s.pending l.here);
    few_bytes = omega (arith, l.counted.few_bytes);
    few_fragments = omega (arith, l.counted.few_fragments);
    few_tombstones = l.counted.few_tombstones;
    some_tombstones = l.counted.some_tombstones;
  };
  good = l.others;
}

pub poison-Inv :
    (key : FrameKey) (p : PendingFrame) (r : Rejection) (s : Reassembler)
    → Loose key p s
    → Inv (poison key p r s).0
unfolding poison
poison-Inv key p r s l = reject-Inv r _ (remember-Inv key _ _ (release-Inv key p s l))

-- What `expire` keeps is counted as before.
record Swept (old : JsMap FrameKey PendingFrame) (b f : ℕ) (r : JsMap FrameKey PendingFrame × ℕ × ℕ)
    : Type 0 where
  bytes : r.1 + total frame_total old ≡ b + total frame_total r.0
  fragments : r.2 + total frame_fragments old ≡ f + total frame_fragments r.0
  fewer : length r.0 ≤ length old
  less_bytes : r.1 ≤ b
  less_fragments : r.2 ≤ f
  good : AllValues GoodFrame old → AllValues GoodFrame r.0

sweep_pending-Swept :
    (expiry now : ℕ) (m : JsMap FrameKey PendingFrame) (b f : ℕ)
    → total frame_total m ≤ b
    → total frame_fragments m ≤ f
    → Swept m b f (sweep_pending expiry now m b f)
unfolding sweep_pending
sweep_pending-Swept expiry now [] b f hb hf = record {
  bytes = refl;
  fragments = refl;
  fewer = omega arith;
  less_bytes = omega arith;
  less_fragments = omega arith;
  good = λ g. g;
}
sweep_pending-Swept expiry now ((key, p) ∷ m) b f hb hf =
    elim (Bool-cases (leb expiry (now - p.first_arrival))) [
      | inl old ↦
          let ih =
            sweep_pending-Swept expiry now m (b - p.total) (f - length p.fragments) (omega arith)
              (omega arith) in
          rw old (record {
            bytes = omega (arith, ih.bytes);
            fragments = omega (arith, ih.fragments);
            fewer = omega (arith, ih.fewer);
            less_bytes = omega (arith, ih.less_bytes);
            less_fragments = omega (arith, ih.less_fragments);
            good = λ g. ih.good g.1;
          })
      | inr fresh ↦
          let ih = sweep_pending-Swept expiry now m b f (omega arith) (omega arith) in
          rw fresh (record {
            bytes = omega (arith, ih.bytes);
            fragments = omega (arith, ih.fragments);
            fewer = omega (arith, ih.fewer);
            less_bytes = omega (arith, ih.less_bytes);
            less_fragments = omega (arith, ih.less_fragments);
            good = λ g. (g.0, ih.good g.1);
          })
    ]

length-sweep_tombstones :
    (expiry now : ℕ) (m : JsMap FrameKey Tombstone)
    → length (sweep_tombstones expiry now m) ≤ length m
unfolding sweep_tombstones
length-sweep_tombstones expiry now [] = omega arith
length-sweep_tombstones expiry now ((key, t) ∷ m) =
    ground (arith, length-sweep_tombstones expiry now m)

pub sweep-Inv : (now : ℕ) (s : Reassembler) → Inv s → Inv (sweep now s)
unfolding sweep
sweep-Inv now s v =
    let w =
      sweep_pending-Swept s.limits.expiry_milliseconds now s.pending s.buffered_bytes
        s.retained_fragments (omega (arith, v.counted.buffered))
        (omega (arith, v.counted.retained)) in
    record {
      counted = record {
        buffered = omega (arith, w.bytes, v.counted.buffered);
        retained = omega (arith, w.fragments, v.counted.retained);
        few_frames = omega (arith, w.fewer, v.counted.few_frames);
        few_bytes = omega (arith, w.less_bytes, v.counted.few_bytes);
        few_fragments = omega (arith, w.less_fragments, v.counted.few_fragments);
        few_tombstones = omega (
          arith,
          length-sweep_tombstones s.limits.expiry_milliseconds now s.tombstones,
          v.counted.few_tombstones,
        );
        some_tombstones = v.counted.some_tombstones;
      };
      good = w.good v.good;
    }
