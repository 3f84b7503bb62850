-- ===== src/Recording/Cache.antt =====
-- RecordingCache of storage/recording-cache.ts. Time is the argument `now`, in milliseconds.
pub mod Eviction
pub mod Lookup
mod Runs
use Prim.Native.String.{String}
use eufy_mega_security.Prelude.{
  Eq_String, ℕ, zero, suc, ◌+◌, ◌-◌, ◌*◌, ◌≤◌, ◌≡◌, Bool, true, false, ◌||◌, Option, none, some, [],
  ◌∷◌, ltb, leb, nat_eq, if◌then◌else◌, length,
}
use eufy_mega_security.Prelude.Bytes.{Bytes}
use eufy_mega_security.Prelude.JsMap.{JsMap, get, put, remove, Distinct, total}

abbrev pub max_clip_bytes : ℕ
max_clip_bytes = 32 * 1024 * 1024

abbrev pub max_bytes : ℕ
max_bytes = 64 * 1024 * 1024

abbrev pub max_items : ℕ
max_items = 4

abbrev pub lifetime_ms : ℕ
lifetime_ms = 10 * 60000

pub record Item : Type 0 where
  pub content : Bytes
  pub expires_at : ℕ

pub record Cache : Type 0 where
  pub items : JsMap String Item
  pub bytes : ℕ

-- `running` is no value of the program: the eviction loop has not ended within its fuel.
pub data Outcome : Type 0 where
  stored : Cache → Outcome
  thrown : Outcome
  running : Outcome

abbrev pub item_bytes : Item → ℕ
item_bytes i = length i.content

pub empty : Cache
empty = record { items = []; bytes = 0 }

-- `#delete(key)`
pub delete : String → Cache → Cache
delete key c = record {
  items = remove key c.items;
  bytes = elim (get key c.items) [ none ↦ c.bytes | some item ↦ c.bytes - item_bytes item ];
}

pub is_over : Cache → Bool
is_over c = ltb max_bytes c.bytes || ltb max_items (length c.items)

-- `this.#delete(this.#items.keys().next().value!)`; with no entry the key is undefined.
pub delete_oldest : Cache → Cache
unfolding delete
delete_oldest c = elim c.items [ [] ↦ c | (key, item) ∷ rest ↦ delete key c ]

pub evict : ℕ → Cache → Outcome
evict zero c = running
evict (suc fuel) c = elim (is_over c) [ true ↦ evict fuel (delete_oldest c) | false ↦ stored c ]

-- What `put` has stored before it evicts.
pub insert : String → Bytes → ℕ → Cache → Cache
unfolding delete
insert key content now c =
    let d = delete key c in
    record {
      items = put key (record { content = content; expires_at = now + lifetime_ms }) d.items;
      bytes = d.bytes + length content;
    }

pub put_clip : String → Bytes → ℕ → Cache → Outcome
put_clip key content now c =
    let e = insert key content now c in
    let rest = evict (length e.items + 1) e in
    if nat_eq (length content) 0 || ltb max_clip_bytes (length content) then thrown else rest

-- `get(key)`: an expired clip is deleted when it is asked for.
pub get_clip : String → ℕ → Cache → Cache × Option Bytes
unfolding delete
get_clip key now c = elim (get key c.items) [
  | none ↦ (c, none)
  | some item ↦ if leb item.expires_at now then (delete key c, none) else (c, some item.content)
]

pub clear : Cache → Cache
clear c = empty

-- The counter is the bytes that are held.
pub record Counted (c : Cache) : Type 0 where
  pub distinct : Distinct c.items
  pub counted : c.bytes ≡ total item_bytes c.items

pub record Inv (c : Cache) : Type 0 where
  pub distinct : Distinct c.items
  pub counted : c.bytes ≡ total item_bytes c.items
  pub few_bytes : c.bytes ≤ max_bytes
  pub few_items : length c.items ≤ max_items
