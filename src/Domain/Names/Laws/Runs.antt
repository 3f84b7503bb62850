-- ===== src/Domain/Names/Laws/Runs.antt =====
-- " Ann" is trimmed.
use eufy_mega_security.Prelude.{false, none, some, [], ◌∷◌, ◌≡◌, ◌≢◌, refl}
use eufy_mega_security.Domain.Names.{Text, is_space, trim, is_placeholder, normalize_person_name}
use eufy_mega_security.Domain.Names.Laws.{normalize_person_name-normal}

abbrev ann : Text
ann = 65 ∷ 110 ∷ 110 ∷ []

blank_ann : normalize_person_name (some (32 ∷ 65 ∷ 110 ∷ 110 ∷ 9 ∷ [])) ≡ some ann
unfolding normalize_person_name is_space
blank_ann = refl

normalize_person_name-normal_example :
    (ann ≢ [])
    × ((is_placeholder ann ≡ false)
        × ((trim ann ≡ ann) × (normalize_person_name (some ann) ≡ some ann)))
normalize_person_name-normal_example =
    normalize_person_name-normal (32 ∷ 65 ∷ 110 ∷ 110 ∷ 9 ∷ []) ann blank_ann

-- "UNKNOWN" is refused in any case.
unknown_refused : normalize_person_name (some (85 ∷ 78 ∷ 75 ∷ 78 ∷ 79 ∷ 87 ∷ 78 ∷ [])) ≡ none
unfolding normalize_person_name is_space
unknown_refused = refl
