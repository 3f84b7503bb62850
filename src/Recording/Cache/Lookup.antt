-- ===== src/Recording/Cache/Lookup.antt =====
-- Reading the cache back, and its state after any sequence of calls.
use Prim.Native.String.{String}
use eufy_mega_security.Prelude.{
  Eq_String, ℕ, ◌+◌, ◌≤◌, ◌<◌, ◌≡◌, ◌≢◌, sym, ap, ◌∙◌, All, beq-cases, subst, ◌⊎◌, inl, inr, none,
  some, List, [], ◌∷◌, arith, leb, Bool-cases, Option-cases,
}
use eufy_mega_security.Prelude.Bytes.{Bytes}
use eufy_mega_security.Prelude.JsMap.{
  get, get-remove_self, get-remove_ne, length-remove_old, remove_missing,
}
use eufy_mega_security.Recording.Cache.{
  Cache, Outcome, stored, thrown, running, empty, delete, put_clip, get_clip, clear, Inv,
  lifetime_ms,
}
use eufy_mega_security.Recording.Cache.Eviction.{
  delete-Counted, clip, IsClip, put_clip_stores, put_clip_throws,
}

delete-Inv : (key : String) (c : Cache) → Inv c → Inv (delete key c)
delete-Inv key c v =
    let d = delete-Counted key c (record { distinct = v.distinct; counted = v.counted }) in
    record {
      distinct = d.distinct;
      counted = d.counted;
      few_bytes = unfold delete in ground (arith, v.few_bytes);
      few_items = elim (Option-cases (get key c.items)) [
        | inl e ↦ unfold delete in ground (arith, remove_missing key c.items e, v.few_items)
        | inr (item, e) ↦
            unfold delete in omega (arith, length-remove_old key item c.items e, v.few_items)
      ];
    }

get_clip-Inv : (key : String) (now : ℕ) (c : Cache) → Inv c → Inv (get_clip key now c).0
unfolding get_clip
get_clip-Inv key now c v = elim (Option-cases (get key c.items)) [
  | inl e ↦ rw (e, get_clip) v
  | inr (item, e) ↦ elim (Bool-cases (leb item.expires_at now)) [
    | inl old ↦ rw (e, get_clip, old) (delete-Inv key c v)
    | inr fresh ↦ rw (e, get_clip, fresh) v
  ]
]

pub data Call : Type 0 where
  puts : String → Bytes → ℕ → Call
  gets : String → ℕ → Call
  clears : Call

-- A `put` that throws has changed nothing.
abbrev after : Cache → Outcome → Cache
after c (stored d) = d
after c thrown = c
after c running = c

unfoldable pub step : Cache → Call → Cache
step c (puts key content now) = after c (put_clip key content now c)
step c (gets key now) = (get_clip key now c).0
step c clears = clear c

unfoldable pub run : Cache → List Call → Cache
run c [] = c
run c (call ∷ calls) = run (step c call) calls

empty-Inv : Inv empty
unfolding empty
empty-Inv = omega arith

puts-Inv :
    (key : String) (content : Bytes) (now : ℕ) (c : Cache)
    → Inv c
    → Inv (after c (put_clip key content now c))
puts-Inv key content now c v = elim (dec_clip content) [
  | inl h ↦ let r = put_clip_stores key content now c v h in rw r.1 r.2
  | inr h ↦ rw ((put_clip_throws key content now c v).1 h) v
]
  where
    dec_clip : (content : Bytes) → IsClip content ⊎ ¬ IsClip content
    dec_clip content = grind arith

step-Inv : (c : Cache) (call : Call) → Inv c → Inv (step c call)
unfolding step clear
step-Inv c (puts key content now) v = puts-Inv key content now c v
step-Inv c (gets key now) v = get_clip-Inv key now c v
step-Inv c clears v = empty-Inv

run-Inv : (c : Cache) (calls : List Call) → Inv c → Inv (run c calls)
unfolding run
run-Inv c [] v = v
run-Inv c (call ∷ calls) v = run-Inv (step c call) calls (step-Inv c call v)

-- After any sequence of `put`, `get` and `clear` calls on a new cache, the byte counter is the sum of
-- the clips held, at most 64 MiB and four clips are held, and no key is held twice.
pub run_empty-Inv : (calls : List Call) → Inv (run empty calls)
run_empty-Inv calls = run-Inv empty calls empty-Inv

-- `get` calls, each of a key at a time.
pub asked : List (String × ℕ) → List Call
asked [] = []
asked ((key, now) ∷ gets_of) = gets key now ∷ asked gets_of

module _ (key : String) (content : Bytes) (now : ℕ) where
  -- A `get` of another key, or before the clip of `key` is too old.
  abbrev pub Early : String × ℕ → Type 0
  Early (k, t) = (k ≢ key) ⊎ (t < now + lifetime_ms)

  get_clip-held :
      (k : String) (t : ℕ) (c : Cache)
      → Early (k, t)
      → get key c.items ≡ some (clip content now)
      → get key (get_clip k t c).0.items ≡ some (clip content now)
  unfolding get_clip delete
  get_clip-held k t c early held = elim (Option-cases (get k c.items)) [
    | inl e ↦ rw (e, get_clip) held
    | inr (item, e) ↦ elim (Bool-cases (leb item.expires_at t)) [
      | inr fresh ↦ rw (e, get_clip, fresh) held
      | inl old ↦
          rw (e, get_clip, old)
            (elim early [
              | inl other ↦ get-remove_ne key k c.items (λ same. other (sym same)) ∙ held
              | inr soon ↦ elim (beq-cases k key) [
                | inl (_, same) ↦ absurd (
                    let i : some item ≡ some (clip content now) = sym e ∙ (rw same held) in
                    let x : item.expires_at ≡ now + lifetime_ms =
                      ap (λ o. elim o [ none ↦ 0 | some i ↦ i.expires_at ]) i in
                    ground (arith, x, old, soon))
                | inr (_, other) ↦ get-remove_ne key k c.items (λ same. other (sym same)) ∙ held
              ]
            ])
    ]
  ]

  asked-held :
      (between : List (String × ℕ)) (c : Cache)
      → All Early between
      → Inv c
      → get key c.items ≡ some (clip content now)
      → (get key (run c (asked between)).items ≡ some (clip content now))
        × Inv (run c (asked between))
  unfolding asked run step
  asked-held [] c early v held = (held, v)
  asked-held ((k, t) ∷ between) c early v held =
      asked-held between (get_clip k t c).0 early.1 (get_clip-Inv k t c v)
        (get_clip-held k t c early.0 held)

-- A clip that `put` stored, with only `get` calls since, none of its own key after ten minutes, is read
-- back unchanged, and without renewing its lifetime, while ten minutes have not passed since the `put`;
-- from then on the first `get` returns nothing and forgets it.
pub get-put_clip :
    (key : String) (content : Bytes) (now later : ℕ) (c c' : Cache) (between : List (String × ℕ))
    → Inv c
    → IsClip content
    → put_clip key content now c ≡ stored c'
    → All (Early key content now) between
    → (later < now + lifetime_ms
        → get_clip key later (run c' (asked between)) ≡ (run c' (asked between), some content))
      × (now + lifetime_ms ≤ later
          → ((get_clip key later (run c' (asked between))).1 ≡ none)
            × (get key (get_clip key later (run c' (asked between))).0.items ≡ none))
unfolding get_clip delete
get-put_clip key content now later c c' between v h stores early =
    let r = put_clip_stores key content now c v h in
    let same : r.0 ≡ c' = cc (r.1, stores) in
    let (held, valid) =
      asked-held key content now between c' early (subst Inv same r.2) (rw same at r.3) in
    (
      λ soon. ground (arith, held),
      λ late. (
        ground (arith, held),
        ground (arith, held, get-remove_self key (run c' (asked between)).items valid.distinct),
      ),
    )
