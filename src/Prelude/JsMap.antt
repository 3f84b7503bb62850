-- ===== src/Prelude/JsMap.antt =====
-- JavaScript's Map: the entries in insertion order. `set` on a present key keeps its place.
use Prim.Native.Nat.{ℕ, ◌+◌, ◌≤◌}
use mathlib.Core.Path.{◌≡◌, refl, subst}
use mathlib.Core.Logic.{◌≢◌, inl, inr}
use mathlib.Core.Bool.{Bool, false}
use mathlib.Core.List.{List, [], ◌∷◌}
use mathlib.Core.Option.{Option, none, some, some-injective}
use native.Mathlib.Omega.{arith}
use eufy_mega_security.Prelude.Tests.{Eq, if◌then◌else◌, is_some, beq-cases}
use eufy_mega_security.Prelude.Lists.{length, any}

abbrev pub JsMap {ℓ κ} : Type ℓ → Type κ → Type (ℓ ⊔ κ)
JsMap K V = List (K × V)

module _ {ℓ κ} {K : Type ℓ} {V : Type κ} ⦃e : Eq K⦄ where
  abbrev pub get : K → JsMap K V → Option V
  get k [] = none
  get k ((j, v) ∷ m) = if e.same k j then some v else get k m

  abbrev pub has : K → JsMap K V → Bool
  has k m = is_some (get k m)

  abbrev pub put : K → V → JsMap K V → JsMap K V
  put k v [] = (k, v) ∷ []
  put k v ((j, w) ∷ m) = if e.same k j then (j, v) ∷ m else (j, w) ∷ put k v m

  abbrev pub remove : K → JsMap K V → JsMap K V
  remove k [] = []
  remove k ((j, w) ∷ m) = if e.same k j then m else (j, w) ∷ remove k m

  -- What Map guarantees of its keys.
  abbrev pub Distinct : JsMap K V → Type κ
  Distinct [] = Unit
  Distinct ((k, v) ∷ m) = (get k m ≡ none) × Distinct m

module _ {ℓ κ} {K : Type ℓ} {V : Type κ} ⦃e : Eq K⦄ where
  pub get-put_self : (k : K) (v : V) (m : JsMap K V) → get k (put k v m) ≡ some v
  get-put_self k v [] = ground (arith, beq-cases k k)
  get-put_self k v ((j, w) ∷ m) = ground (arith, beq-cases k j, get-put_self k v m)

  pub get-put_ne : (k j : K) (v : V) (m : JsMap K V) → k ≢ j → get k (put j v m) ≡ get k m
  get-put_ne k j v [] h = ground (arith, beq-cases k j)
  get-put_ne k j v ((i, w) ∷ m) h =
      ground (arith, beq-cases j i, beq-cases k i, beq-cases k j, get-put_ne k j v m h)

  pub get-remove_ne : (k j : K) (m : JsMap K V) → k ≢ j → get k (remove j m) ≡ get k m
  get-remove_ne k j [] h = refl
  get-remove_ne k j ((i, w) ∷ m) h =
      ground (arith, beq-cases j i, beq-cases k i, get-remove_ne k j m h)

  pub get-remove_self : (k : K) (m : JsMap K V) → Distinct m → get k (remove k m) ≡ none
  get-remove_self k [] d = refl
  get-remove_self k ((j, w) ∷ m) d = ground (arith, beq-cases k j, get-remove_self k m d.1)

  get-remove-none : (k j : K) (m : JsMap K V) → get k m ≡ none → get k (remove j m) ≡ none
  get-remove-none k j [] h = refl
  get-remove-none k j ((i, w) ∷ m) h =
      ground (arith, beq-cases j i, beq-cases k i, get-remove-none k j m)

  pub remove-Distinct : (k : K) (m : JsMap K V) → Distinct m → Distinct (remove k m)
  remove-Distinct k [] d = tt
  remove-Distinct k ((j, w) ∷ m) d =
      ground (arith, get-remove-none j k m d.0, remove-Distinct k m d.1)

  pub put-Distinct : (k : K) (v : V) (m : JsMap K V) → Distinct m → Distinct (put k v m)
  put-Distinct k v [] d = (refl, tt)
  put-Distinct k v ((j, w) ∷ m) d =
      ground (arith, beq-cases k j, beq-cases j k, get-put_ne j k v m, put-Distinct k v m d.1)

  pub length-put_new :
      (k : K) (v : V) (m : JsMap K V) → get k m ≡ none → length (put k v m) ≡ length m + 1
  length-put_new k v [] h = omega arith
  length-put_new k v ((j, w) ∷ m) h = ground (arith, beq-cases k j, length-put_new k v m)

  pub length-put_old :
      (k : K) (v w : V) (m : JsMap K V) → get k m ≡ some w → length (put k v m) ≡ length m
  length-put_old k v w [] h = ground arith
  length-put_old k v w ((j, x) ∷ m) h = ground (arith, beq-cases k j, length-put_old k v w m)

  pub length-remove_old :
      (k : K) (w : V) (m : JsMap K V) → get k m ≡ some w → length (remove k m) + 1 ≡ length m
  length-remove_old k w [] h = ground arith
  length-remove_old k w ((j, x) ∷ m) h = ground (arith, beq-cases k j, length-remove_old k w m)

  pub remove_missing : (k : K) (m : JsMap K V) → get k m ≡ none → remove k m ≡ m
  remove_missing k [] h = refl
  remove_missing k ((j, x) ∷ m) h = ground (arith, beq-cases k j, remove_missing k m)

  pub length-put-le : (k : K) (v : V) (m : JsMap K V) → length (put k v m) ≤ length m + 1
  length-put-le k v [] = omega arith
  length-put-le k v ((j, x) ∷ m) = ground (arith, length-put-le k v m)

  pub remove-put_old :
      (k : K) (v w : V) (m : JsMap K V) → get k m ≡ some w → remove k (put k v m) ≡ remove k m
  remove-put_old k v w [] h = ground arith
  remove-put_old k v w ((j, x) ∷ m) h = ground (arith, beq-cases k j, remove-put_old k v w m)

  pub put-put : (k : K) (v w : V) (m : JsMap K V) → put k w (put k v m) ≡ put k w m
  put-put k v w [] = ground (arith, beq-cases k k)
  put-put k v w ((j, x) ∷ m) = ground (arith, beq-cases k j, put-put k v w m)

  pub any-put :
      (p : K × V → Bool) (k : K) (v : V) (m : JsMap K V)
      → any p m ≡ false
      → p (k, v) ≡ false
      → any p (put k v m) ≡ false
  any-put p k v [] h g = ground (arith, g)
  any-put p k v ((j, x) ∷ m) h g = elim (beq-cases k j) [
    | inl (same, e) ↦
        let moved : p (j, v) ≡ false = rw (← e) g in rw (same, moved) (ground (arith, h))
    | inr (other, _) ↦ rw other (ground (arith, h, any-put p k v m (ground (arith, h)) g))
  ]

  -- A total over the values, such as retained bytes.
  module _ (f : V → ℕ) where
    abbrev pub total : JsMap K V → ℕ
    total [] = 0
    total ((k, v) ∷ m) = f v + total m

    pub total-remove_old :
        (k : K) (w : V) (m : JsMap K V) → get k m ≡ some w → total (remove k m) + f w ≡ total m
    total-remove_old k w [] h = ground arith
    total-remove_old k w ((j, x) ∷ m) h = ground (arith, beq-cases k j, total-remove_old k w m)

    pub total-put_new :
        (k : K) (v : V) (m : JsMap K V) → get k m ≡ none → total (put k v m) ≡ total m + f v
    total-put_new k v [] h = omega arith
    total-put_new k v ((j, x) ∷ m) h = ground (arith, beq-cases k j, total-put_new k v m)

    pub total-put_old :
        (k : K) (v w : V) (m : JsMap K V)
        → get k m ≡ some w
        → total (put k v m) + f w ≡ total m + f v
    total-put_old k v w [] h = ground arith
    total-put_old k v w ((j, x) ∷ m) h = ground (arith, beq-cases k j, total-put_old k v w m)

    pub le-total : (k : K) (w : V) (m : JsMap K V) → get k m ≡ some w → f w ≤ total m
    le-total k w m h = omega (arith, total-remove_old k w m h)

module _ {ℓ κ} {K : Type ℓ} {V : Type κ} ⦃e : Eq K⦄ (P : V → Type 0) where
  abbrev pub AllValues : JsMap K V → Type 0
  AllValues [] = Unit {0}
  AllValues ((k, v) ∷ m) = P v × AllValues m

  pub get-AllValues : (k : K) (v : V) (m : JsMap K V) → AllValues m → get k m ≡ some v → P v
  get-AllValues k v [] a h = absurd (ground arith)
  get-AllValues k v ((j, w) ∷ m) a h = elim (beq-cases k j) [
    | inl (same, _) ↦ subst P (some-injective w v (rw same at h)) a.0
    | inr (other, _) ↦ get-AllValues k v m a.1 (rw other at h)
  ]

  pub put-AllValues : (k : K) (v : V) (m : JsMap K V) → AllValues m → P v → AllValues (put k v m)
  put-AllValues k v [] a h = (h, tt)
  put-AllValues k v ((j, w) ∷ m) a h = elim (beq-cases k j) [
    | inl (same, _) ↦ rw same (h, a.1)
    | inr (other, _) ↦ rw other (a.0, put-AllValues k v m a.1 h)
  ]

  pub remove-AllValues : (k : K) (m : JsMap K V) → AllValues m → AllValues (remove k m)
  remove-AllValues k [] a = tt
  remove-AllValues k ((j, w) ∷ m) a = elim (beq-cases k j) [
    | inl (same, _) ↦ rw same a.1
    | inr (other, _) ↦ rw other (a.0, remove-AllValues k m a.1)
  ]
