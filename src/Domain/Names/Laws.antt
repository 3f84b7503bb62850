-- ===== src/Domain/Names/Laws.antt =====
-- The results of normalizePersonName of domain/gateway-state.ts.
mod Runs
use mathlib.Core.List.{cons≢nil}
use eufy_mega_security.Prelude.{
  ℕ, false, none, some, [], ◌∷◌, ◌≡◌, ◌≢◌, refl, sym, ap, ◌∙◌, arith, Bool-cases, inl, inr,
}
use eufy_mega_security.Domain.Names.{
  Text, is_space, trim_start, cons_trimmed, trim_end, trim, is_placeholder, accept_name,
  normalize_person_name,
}

cons_trimmed-nonempty : (u v : ℕ) (t : Text) → cons_trimmed u (v ∷ t) ≡ u ∷ v ∷ t
unfolding cons_trimmed
cons_trimmed-nonempty u v t = refl

trim_end-cons_trimmed :
    (u : ℕ) (t : Text) → trim_end t ≡ t → trim_end (cons_trimmed u t) ≡ cons_trimmed u t
unfolding trim_end cons_trimmed
trim_end-cons_trimmed u [] h = elim (Bool-cases (is_space u)) [
  | inl blank ↦ rw blank refl
  | inr solid ↦ rw (solid, solid) refl
]
trim_end-cons_trimmed u (v ∷ t) h = ap (cons_trimmed u) h

trim_end-trim_end : (t : Text) → trim_end (trim_end t) ≡ trim_end t
unfolding trim_end
trim_end-trim_end [] = refl
trim_end-trim_end (u ∷ t) = trim_end-cons_trimmed u (trim_end t) (trim_end-trim_end t)

-- Text that starts with no blank.
StartsSolid : Text → Type 0
StartsSolid [] = Unit
StartsSolid (u ∷ t) = is_space u ≡ false

trim_start-StartsSolid : (t : Text) → StartsSolid (trim_start t)
unfolding trim_start StartsSolid
trim_start-StartsSolid [] = tt
trim_start-StartsSolid (u ∷ t) = elim (Bool-cases (is_space u)) [
  | inl blank ↦ rw blank (trim_start-StartsSolid t)
  | inr solid ↦ rw (solid) solid
]

trim_start-solid : (t : Text) → StartsSolid t → trim_start t ≡ t
unfolding trim_start StartsSolid
trim_start-solid [] h = refl
trim_start-solid (u ∷ t) h = rw h refl

cons_trimmed-StartsSolid : (u : ℕ) (t : Text) → is_space u ≡ false → StartsSolid (cons_trimmed u t)
unfolding cons_trimmed StartsSolid
cons_trimmed-StartsSolid u [] h = rw h h
cons_trimmed-StartsSolid u (v ∷ t) h = h

trim_end-StartsSolid : (t : Text) → StartsSolid t → StartsSolid (trim_end t)
unfolding trim_end StartsSolid
trim_end-StartsSolid [] h = tt
trim_end-StartsSolid (u ∷ t) h = cons_trimmed-StartsSolid u (trim_end t) h

pub trim-trim : (t : Text) → trim (trim t) ≡ trim t
unfolding trim
trim-trim t =
    ap trim_end (
      trim_start-solid (trim_end (trim_start t))
        (trim_end-StartsSolid (trim_start t) (trim_start-StartsSolid t)))
    ∙ trim_end-trim_end (trim_start t)

accept_name-some :
    (t s : Text) → accept_name t ≡ some s → (s ≡ t) × ((is_placeholder s ≡ false) × (s ≢ []))
unfolding accept_name
accept_name-some [] s h = ground arith
accept_name-some (u ∷ t) s h = elim (Bool-cases (is_placeholder (u ∷ t))) [
  | inl bad ↦ let no : none ≡ some s = sym (rw bad refl) ∙ h in ground arith
  | inr fine ↦
      let e : some (u ∷ t) ≡ some s = (rw fine refl) ∙ h in
      let same : u ∷ t ≡ s = ground arith in
      (sym same, (ap is_placeholder (sym same) ∙ fine, λ empty. cons≢nil (same ∙ empty)))
]

-- A name that normalizePersonName accepts is not empty, is no placeholder, is its own trimmed text, and
-- is accepted unchanged when it is normalised again.
pub normalize_person_name-normal :
    (t s : Text)
    → normalize_person_name (some t) ≡ some s
    → (s ≢ [])
      × ((is_placeholder s ≡ false) × ((trim s ≡ s) × (normalize_person_name (some s) ≡ some s)))
unfolding normalize_person_name
normalize_person_name-normal t s h =
    let a = accept_name-some (trim t) s h in
    let e : trim s ≡ s = ap trim a.0 ∙ trim-trim t ∙ sym a.0 in
    (a.1.1, (a.1.0, (e, ap accept_name (e ∙ a.0) ∙ h)))
