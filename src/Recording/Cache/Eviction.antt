-- ===== src/Recording/Cache/Eviction.antt =====
-- What `put` leaves in the cache: its limits, and the clip that was just stored.
use Prim.Native.String.{String}
use eufy_mega_security.Prelude.{
  Eq_String, ℕ, zero, suc, ◌+◌, ◌-◌, ◌≤◌, ◌≡◌, refl, ap, ◌∙◌, ◌↔◌, inl, inr, false, none, some, [],
  ◌∷◌, arith, length, drop, beq-cases, Bool-cases, Option-cases,
}
use eufy_mega_security.Prelude.Bytes.{Bytes}
use eufy_mega_security.Prelude.JsMap.{
  JsMap, get, put, remove, Distinct, total-remove_old, total-put_new, get-remove_self,
  remove-Distinct, put-Distinct, remove_missing,
}
use eufy_mega_security.Recording.Cache.{
  Item, Cache, stored, thrown, item_bytes, delete, is_over, delete_oldest, evict, insert, put_clip,
  Counted, Inv, max_clip_bytes, lifetime_ms,
}

pub delete-Counted : (key : String) (c : Cache) → Counted c → Counted (delete key c)
unfolding delete
delete-Counted key c v = record {
  distinct = remove-Distinct key c.items v.distinct;
  counted = elim (Option-cases (get key c.items)) [
    | inl e ↦ rw (e, delete) (ground (arith, remove_missing key c.items e, v.counted))
    | inr (item, e) ↦
        rw (e, delete) (omega (arith, total-remove_old item_bytes key item c.items e, v.counted))
  ];
}

-- The newest entry is the last one.
abbrev Ends : String → Item → JsMap String Item → Type 0
Ends key item [] = ⊥
Ends key item ((k, v) ∷ []) = (k ≡ key) × (v ≡ item)
Ends key item (e ∷ f ∷ m) = Ends key item (f ∷ m)

Ends-put :
    (key : String) (item : Item) (m : JsMap String Item)
    → get key m ≡ none
    → Ends key item (put key item m)
Ends-put key item [] h = (refl, refl)
Ends-put key item ((k, v) ∷ []) h = ground (arith, beq-cases key k)
Ends-put key item ((k, v) ∷ (j, w) ∷ m) h =
    ground (arith, beq-cases key k, beq-cases key j, Ends-put key item ((j, w) ∷ m))

Ends-get :
    (key : String) (item : Item) (m : JsMap String Item)
    → Distinct m
    → Ends key item m
    → get key m ≡ some item
Ends-get key item [] d h = absurd h
Ends-get key item ((k, v) ∷ []) d h = ground (arith, beq-cases key k)
Ends-get key item ((k, v) ∷ (j, w) ∷ m) d h =
    ground (arith, beq-cases key k, Ends-get key item ((j, w) ∷ m) d.1 h)

delete_oldest_lem :
    (k : String) (v : Item) (m : JsMap String Item) (b : ℕ)
    → delete_oldest (record { items = (k, v) ∷ m; bytes = b })
      ≡ record { items = m; bytes = b - item_bytes v }
unfolding delete_oldest
delete_oldest_lem k v m b = ground (arith, beq-cases k k)

-- What the loop ends with, from entries whose newest is `item` under `key`.
record Kept (key : String) (item : Item) (m : JsMap String Item) (c : Cache) : Type 0 where
  limits : Inv c
  newest : get key c.items ≡ some item
  evicted : ℕ
  survivors : c.items ≡ drop evicted m

Kept-drop :
    (key : String) (item : Item) (k : String) (v : Item) (m : JsMap String Item) (c : Cache)
    → Kept key item m c
    → Kept key item ((k, v) ∷ m) c
Kept-drop key item k v m c h = record {
  limits = h.limits;
  newest = h.newest;
  evicted = suc h.evicted;
  survivors = h.survivors;
}

stop_here :
    (key : String) (item : Item) (c : Cache)
    → Counted c
    → Ends key item c.items
    → is_over c ≡ false
    → Kept key item c.items c
unfolding is_over
stop_here key item c v ends h = record {
  limits = record {
    distinct = v.distinct;
    counted = v.counted;
    few_bytes = ground arith;
    few_items = ground arith;
  };
  newest = Ends-get key item c.items v.distinct ends;
  evicted = 0;
  survivors = refl;
}

one_fits :
    (key k : String) (item v : Item) (b : ℕ)
    → b ≡ item_bytes v + 0
    → v ≡ item
    → item_bytes item ≤ max_clip_bytes
    → is_over (record { items = (k, v) ∷ []; bytes = b }) ≡ false
unfolding is_over
one_fits key k item v b h e small = ground (arith, e)

evict_keeps :
    (fuel : ℕ) (key : String) (item : Item) (m : JsMap String Item) (b : ℕ)
    → Counted (record { items = m; bytes = b })
    → Ends key item m
    → item_bytes item ≤ max_clip_bytes
    → length m ≤ fuel
    → (c : Cache) × (evict fuel (record { items = m; bytes = b }) ≡ stored c) × Kept key item m c
unfolding evict
evict_keeps fuel key item [] b v ends small enough = absurd ends
evict_keeps zero key item (x ∷ m) b v ends small enough = absurd (omega arith)
evict_keeps (suc fuel) key item ((k, w) ∷ []) b v ends small enough =
    let fits = one_fits key k item w b v.counted ends.1 small in
    (record { items = (k, w) ∷ []; bytes = b }, rw (fits, evict), stop_here key item _ v ends fits)
evict_keeps (suc fuel) key item ((k, w) ∷ (j, x) ∷ m) b v ends small enough =
    elim (Bool-cases (is_over (record { items = (k, w) ∷ (j, x) ∷ m; bytes = b }))) [
      | inr fits ↦ (_, rw (fits, evict), stop_here key item _ v ends fits)
      | inl over ↦
          let rest : JsMap String Item = (j, x) ∷ m in
          let counted' : Counted (record { items = rest; bytes = b - item_bytes w }) = record {
            distinct = v.distinct.1;
            counted = omega (arith, v.counted);
          } in
          let (c, e, h) =
            evict_keeps fuel key item ((j, x) ∷ m) (b - item_bytes w) counted' ends small
              (omega arith) in
          (
            c,
            rw (over, evict, delete_oldest_lem k w ((j, x) ∷ m) b) e,
            Kept-drop key item k w rest c h,
          )
    ]

abbrev pub clip : Bytes → ℕ → Item
clip content now = record { content = content; expires_at = now + lifetime_ms }

insert-Counted :
    (key : String) (content : Bytes) (now : ℕ) (c : Cache)
    → Counted c
    → Counted (insert key content now c)
unfolding insert delete
insert-Counted key content now c v =
    let d : Counted (delete key c) = delete-Counted key c v in
    let gone = get-remove_self key c.items v.distinct in
    record {
      distinct = put-Distinct key (clip content now) (remove key c.items) d.distinct;
      counted = omega (
        arith,
        total-put_new item_bytes key (clip content now) (remove key c.items) gone,
        d.counted,
      );
    }

insert-Ends :
    (key : String) (content : Bytes) (now : ℕ) (c : Cache)
    → Counted c
    → Ends key (clip content now) (insert key content now c).items
unfolding insert delete
insert-Ends key content now c v =
    Ends-put key (clip content now) (remove key c.items) (get-remove_self key c.items v.distinct)

insert_items :
    (key : String) (content : Bytes) (now : ℕ) (c : Cache)
    → (insert key content now c).items ≡ put key (clip content now) (remove key c.items)
unfolding insert delete
insert_items key content now c = refl

abbrev pub IsClip : Bytes → Type 0
IsClip content = (1 ≤ length content) × (length content ≤ max_clip_bytes)

-- A clip of 1 byte to 32 MiB is always stored: the eviction loop ends within the model's fuel, the
-- cache then keeps its byte counter exact and both of its limits, the new clip is held with its
-- ten-minute lifetime, and what else is held is a later part of the insertion order, so that
-- only the oldest clips were evicted.
pub put_clip_stores :
    (key : String) (content : Bytes) (now : ℕ) (c : Cache)
    → Inv c
    → IsClip content
    → (c' : Cache) × (put_clip key content now c ≡ stored c')
      × Inv c'
      × (get key c'.items ≡ some (clip content now))
      × ((n : ℕ) × (c'.items ≡ drop n (put key (clip content now) (remove key c.items))))
unfolding put_clip
put_clip_stores key content now c v h =
    let counted : Counted c = record { distinct = v.distinct; counted = v.counted } in
    let e = insert key content now c in
    let (c', p, k) =
      evict_keeps (length e.items + 1) key (clip content now) e.items e.bytes
        (insert-Counted key content now c counted) (insert-Ends key content now c counted) h.1
        (omega arith) in
    (
      c',
      ground (arith, p),
      k.limits,
      k.newest,
      (k.evicted, k.survivors ∙ ap (drop k.evicted) (insert_items key content now c)),
    )

-- `put` throws exactly on an empty clip and on one of more than 32 MiB, whatever is cached.
pub put_clip_throws :
    (key : String) (content : Bytes) (now : ℕ) (c : Cache)
    → Inv c
    → (put_clip key content now c ≡ thrown) ↔ ¬ IsClip content
put_clip_throws key content now c v =
    (λ e h. let r = put_clip_stores key content now c v h in absurd (cc (e, r.1)), λ h. refused h)
  where
    refused : ¬ IsClip content → put_clip key content now c ≡ thrown
    refused h = unfold put_clip in ground (arith, h)
