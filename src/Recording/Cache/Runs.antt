-- ===== src/Recording/Cache/Runs.antt =====
-- Concrete caches, and the theorems at concrete inputs.
use eufy_mega_security.Prelude.{
  Eq_String, ℕ, ◌+◌, ◌≤◌, ◌<◌, ◌≡◌, ◌↔◌, refl, inl, inr, All, List, true, false, none, some, [],
  ◌∷◌, arith, drop,
}
use Prim.Native.String.{String}
use eufy_mega_security.Prelude.JsMap.{get, put, remove}
use eufy_mega_security.Recording.Cache.{
  Cache, stored, thrown, lifetime_ms, empty, is_over, delete_oldest, evict, insert, put_clip,
  get_clip, Inv,
}
use eufy_mega_security.Recording.Cache.Eviction.{clip, IsClip, put_clip_stores, put_clip_throws}
use eufy_mega_security.Recording.Cache.Lookup.{
  asked, Early, get-put_clip, puts, gets, step, run, run_empty-Inv,
}

abbrev held : Cache
held = record { items = ("a", clip (1 ∷ 2 ∷ []) 5) ∷ []; bytes = 2 }

held-Inv : Inv held
held-Inv = record {
  distinct = (refl, tt);
  counted = refl;
  few_bytes = omega arith;
  few_items = omega arith;
}

abbrev two_held : Cache
two_held = record { items = ("a", clip (1 ∷ 2 ∷ []) 5) ∷ ("b", clip (9 ∷ []) 7) ∷ []; bytes = 3 }

put_second : put_clip "b" (9 ∷ []) 7 held ≡ stored two_held
unfolding put_clip insert evict is_over
put_second = refl

-- A fifth clip evicts the first.
five_clips :
    (run empty (
      puts "a" (1 ∷ []) 0
      ∷ puts "b" (2 ∷ []) 0
      ∷ puts "c" (3 ∷ []) 0
      ∷ puts "d" (4 ∷ []) 0
      ∷ puts "e" (5 ∷ []) 0
      ∷ gets "c" 1
      ∷ [])).items
    ≡ ("b", clip (2 ∷ []) 0)
      ∷ ("c", clip (3 ∷ []) 0)
      ∷ ("d", clip (4 ∷ []) 0)
      ∷ ("e", clip (5 ∷ []) 0)
      ∷ []
unfolding run step empty put_clip insert evict is_over delete_oldest get_clip
five_clips = refl

put_clip_stores_example :
    (c' : Cache) × (put_clip "b" (9 ∷ []) 7 held ≡ stored c')
    × Inv c'
    × (get "b" c'.items ≡ some (clip (9 ∷ []) 7))
    × ((n : ℕ) × (c'.items ≡ drop n (put "b" (clip (9 ∷ []) 7) (remove "b" held.items))))
put_clip_stores_example = put_clip_stores "b" (9 ∷ []) 7 held held-Inv (omega arith, omega arith)

put_clip_throws_example : (put_clip "b" [] 7 held ≡ thrown) ↔ ¬ IsClip []
put_clip_throws_example = put_clip_throws "b" [] 7 held held-Inv

-- Another clip and the clip itself are asked for in between.
abbrev between : List (String × ℕ)
between = ("a", 700000) ∷ ("b", 600006) ∷ []

between-Early : All (Early "b" (9 ∷ []) 7) between
between-Early = (
  inl (λ e. absurd (let q : false ≡ true = (Eq_String.same_iff "a" "b").1 e in cc)),
  (inr (omega arith), tt),
)

get-put_clip_example :
    (600006 < 7 + lifetime_ms
      → get_clip "b" 600006 (run two_held (asked between))
        ≡ (run two_held (asked between), some (9 ∷ [])))
    × (7 + lifetime_ms ≤ 600006
        → ((get_clip "b" 600006 (run two_held (asked between))).1 ≡ none)
          × (get "b" (get_clip "b" 600006 (run two_held (asked between))).0.items ≡ none))
get-put_clip_example =
    get-put_clip "b" (9 ∷ []) 7 600006 held two_held between held-Inv (omega arith, omega arith)
      put_second between-Early

run_empty-Inv_example : Inv (run empty (puts "a" (1 ∷ []) 0 ∷ gets "a" 3 ∷ []))
run_empty-Inv_example = run_empty-Inv (puts "a" (1 ∷ []) 0 ∷ gets "a" 3 ∷ [])
