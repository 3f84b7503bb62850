-- ===== src/Push/Deduplicator/Window.antt =====
-- PushEventDeduplicator over sequences of deliveries.
use Prim.Native.String.{String}
use eufy_mega_security.Prelude.{
  Eq_String, ℕ, ◌-◌, ◌+◌, ◌≤◌, ◌≡◌, refl, inl, inr, arith, Bool, true, false, ◌&&◌, ◌||◌, none,
  some, List, [], ◌∷◌, ltb, All, beq-cases, Bool-cases, Option-cases,
}
use eufy_mega_security.Prelude.JsMap.{get, put, has, get-put_self, get-put_ne}
use eufy_mega_security.Push.Deduplicator.{
  Observation, Recent, expire, Delivery, identity, key_of, was_seen, classify, observe,
}

abbrev AllSince : ℕ → Recent → Type 0
AllSince t m = All (λ e. t ≤ e.1.observed_at) m

-- Nothing that was observed since `t` expires up to `t + window`.
expire_none :
    (window t now : ℕ) (m : Recent) → now ≤ t + window → AllSince t m → expire window now m ≡ m
unfolding expire
expire_none window t now [] h a = refl
expire_none window t now ((key, o) ∷ m) h a = ground (arith, a.0, expire_none window t now m h a.1)

put-AllSince :
    (t : ℕ) (key : String) (o : Observation) (m : Recent)
    → t ≤ o.observed_at
    → AllSince t m
    → AllSince t (put key o m)
put-AllSince t key o [] h a = (h, tt)
put-AllSince t key o ((k, p) ∷ m) h a = elim (Bool-cases (Eq_String.same key k)) [
  | inl same ↦ rw same (h, a.1)
  | inr other ↦ rw other (a.0, put-AllSince t key o m h a.1)
]

abbrev pub run : ℕ → List Delivery → Recent → Recent
run window [] m = m
run window (d ∷ ds) m = run window ds (observe window d m).0

-- Whether a delivery is of the event under `key`.
abbrev pub concerns : String → Delivery → Bool
concerns key d = elim (identity d.event_id) [
  | none ↦ false
  | some id ↦ Eq_String.same key (key_of d.camera_serial id d.event_type)
]

abbrev pub one_if : Bool → ℕ
one_if true = 1
one_if false = 0

-- How often the deliveries under `key` are handled, and how often they keep a picture.
abbrev pub handled : ℕ → String → List Delivery → Recent → ℕ
handled window key [] m = 0
handled window key (d ∷ ds) m =
    one_if (concerns key d && (observe window d m).1.handle_state)
    + handled window key ds (observe window d m).0

abbrev pub pictures : ℕ → String → List Delivery → Recent → ℕ
pictures window key [] m = 0
pictures window key (d ∷ ds) m =
    one_if (concerns key d && (observe window d m).1.retain_picture)
    + pictures window key ds (observe window d m).0

abbrev pub Within : ℕ → ℕ → List Delivery → Type 0
Within window t ds = All (λ d. (t ≤ d.now) × (d.now ≤ t + window)) ds

-- One delivery inside the window, on a cache whose entries are of the window.
record Observed (window t : ℕ) (key : String) (d : Delivery) (m : Recent) : Type 0 where
  since : AllSince t (observe window d m).0
  count :
      one_if (concerns key d && (observe window d m).1.handle_state) + one_if (has key m)
      ≡ one_if (has key (observe window d m).0)
  seen :
      one_if (concerns key d && (observe window d m).1.retain_picture)
        + one_if (was_seen (get key m))
      ≡ one_if (was_seen (get key (observe window d m).0))

classify_lem :
    (window t : ℕ) (key : String) (d : Delivery) (id : String) (m : Recent)
    → (t ≤ d.now) × (d.now ≤ t + window)
    → AllSince t m
    → identity d.event_id ≡ some id
    → Observed window t key d m
classify_lem window t key d id m h a e =
    let j = key_of d.camera_serial id d.event_type in
    let o : Observation = record {
      observed_at = d.now;
      picture_seen = d.has_picture || was_seen (get j m);
    } in
    let keep = expire_none window t d.now m h.1 a in
    record {
      since = unfold observe classify in rw (e, observe, keep) (put-AllSince t j o m h.0 a);
      count =
          unfold observe classify in
          ground (arith, e, keep, beq-cases key j, get-put_self j o m, get-put_ne key j o m);
      seen =
          unfold observe classify was_seen in
          ground (arith, e, keep, beq-cases key j, get-put_self j o m, get-put_ne key j o m);
    }

observe_lem :
    (window t : ℕ) (key : String) (d : Delivery) (m : Recent)
    → (t ≤ d.now) × (d.now ≤ t + window)
    → AllSince t m
    → Observed window t key d m
observe_lem window t key d m h a = elim (Option-cases (identity d.event_id)) [
  | inr (id, e) ↦ classify_lem window t key d id m h a e
  | inl e ↦ record {
    since = unfold observe in rw (e, observe) a;
    count = unfold observe in ground (arith, e);
    seen = unfold observe in ground (arith, e);
  }
]

counts :
    (window t : ℕ) (key : String) (ds : List Delivery) (m : Recent)
    → Within window t ds
    → AllSince t m
    → (handled window key ds m + one_if (has key m) ≡ one_if (has key (run window ds m)))
      × (pictures window key ds m + one_if (was_seen (get key m))
          ≡ one_if (was_seen (get key (run window ds m))))
counts window t key [] m h a = (omega arith, omega arith)
counts window t key (d ∷ ds) m h a =
    let o = observe_lem window t key d m h.0 a in
    let rest = counts window t key ds (observe window d m).0 h.1 o.since in
    (omega (arith, o.count, rest.0), omega (arith, o.seen, rest.1))

has_kept :
    (window t : ℕ) (key : String) (ds : List Delivery) (m : Recent)
    → Within window t ds
    → AllSince t m
    → has key m ≡ true
    → has key (run window ds m) ≡ true
has_kept window t key ds m h a e = ground (arith, (counts window t key ds m h a).0, e)

seen_kept :
    (window t : ℕ) (key : String) (ds : List Delivery) (m : Recent)
    → Within window t ds
    → AllSince t m
    → was_seen (get key m) ≡ true
    → was_seen (get key (run window ds m)) ≡ true
seen_kept window t key ds m h a e = ground (arith, (counts window t key ds m h a).1, e)

-- Whether some delivery is of the event, and whether one of those has a picture.
abbrev pub concerned : String → List Delivery → Bool
concerned key [] = false
concerned key (d ∷ ds) = concerns key d || concerned key ds

abbrev pub pictured : String → List Delivery → Bool
pictured key [] = false
pictured key (d ∷ ds) = (concerns key d && d.has_picture) || pictured key ds

-- After a delivery the cache knows its event, and its picture if it had one.
observe_self :
    (window t : ℕ) (key : String) (d : Delivery) (m : Recent)
    → (t ≤ d.now) × (d.now ≤ t + window)
    → AllSince t m
    → (has key (observe window d m).0 ≡ (concerns key d || has key m))
      × (was_seen (get key (observe window d m).0)
          ≡ ((concerns key d && d.has_picture) || was_seen (get key m)))
observe_self window t key d m h a = elim (Option-cases (identity d.event_id)) [
  | inl e ↦ unfold observe in (ground (arith, e), ground (arith, e))
  | inr (id, e) ↦
      let j = key_of d.camera_serial id d.event_type in
      let o : Observation = record {
        observed_at = d.now;
        picture_seen = d.has_picture || was_seen (get j m);
      } in
      let keep = expire_none window t d.now m h.1 a in
      unfold observe classify was_seen in
      (
        ground (arith, e, keep, beq-cases key j, get-put_self j o m, get-put_ne key j o m),
        ground (arith, e, keep, beq-cases key j, get-put_self j o m, get-put_ne key j o m),
      )
]

run_knows :
    (window t : ℕ) (key : String) (ds : List Delivery) (m : Recent)
    → Within window t ds
    → AllSince t m
    → (has key (run window ds m) ≡ (concerned key ds || has key m))
      × (was_seen (get key (run window ds m)) ≡ (pictured key ds || was_seen (get key m)))
run_knows window t key [] m h a = (refl, refl)
run_knows window t key (d ∷ ds) m h a =
    let s = observe_self window t key d m h.0 a in
    let m' = (observe window d m).0 in
    let r = run_knows window t key ds m' h.1 (observe_lem window t key d m h.0 a).since in
    (ground (arith, s.0, r.0), ground (arith, s.1, r.1))

-- Of any deliveries within one window on a new cache, those of other events among them, the ones
-- of a given event are handled exactly once if there is one, and their picture is kept exactly once if one of
-- them has a picture.
pub observe_once :
    (window t : ℕ) (key : String) (ds : List Delivery)
    → Within window t ds
    → (handled window key ds [] ≡ one_if (concerned key ds))
      × (pictures window key ds [] ≡ one_if (pictured key ds))
unfolding was_seen
observe_once window t key ds h =
    let c = counts window t key ds [] h tt in
    let k = run_knows window t key ds [] h tt in
    (ground (arith, c.0, k.0), ground (arith, c.1, k.1))

expire-fresh :
    (window now : ℕ) (m : Recent) → All (λ e. now - e.1.observed_at ≤ window) (expire window now m)
unfolding expire
expire-fresh window now [] = tt
expire-fresh window now ((key, o) ∷ m) = elim (Bool-cases (ltb window (now - o.observed_at))) [
  | inl old ↦ rw old (expire-fresh window now m)
  | inr fresh ↦ rw fresh (ground arith, expire-fresh window now m)
]

put-fresh :
    (window now : ℕ) (key : String) (seen : Bool) (m : Recent)
    → All (λ e. now - e.1.observed_at ≤ window) m
    → All
        (λ e. now - e.1.observed_at ≤ window)
        (put key (record { observed_at = now; picture_seen = seen }) m)
put-fresh window now key seen [] a = (omega arith, tt)
put-fresh window now key seen ((k, p) ∷ m) a = elim (Bool-cases (Eq_String.same key k)) [
  | inl same ↦ rw same (omega arith, a.1)
  | inr other ↦ rw other (a.0, put-fresh window now key seen m a.1)
]

-- A delivery that has an identity leaves no entry in the cache that is older than the window.
pub observe_bounded :
    (window : ℕ) (d : Delivery) (id : String) (m : Recent)
    → identity d.event_id ≡ some id
    → All (λ e. d.now - e.1.observed_at ≤ window) (observe window d m).0
observe_bounded window d id m e =
    unfold observe classify in
    rw (e, observe)
      (put-fresh window d.now _ _ (expire window d.now m) (expire-fresh window d.now m))
