-- ===== src/Domain/Names.antt =====
-- normalizePersonName of domain/gateway-state.ts. A name is the list of its UTF-16 code units.
pub mod Laws
use eufy_mega_security.Prelude.{
  ℕ, ◌+◌, Bool, true, false, ◌&&◌, ◌||◌, Option, none, some, List, [], ◌∷◌, leb, nat_eq,
  if◌then◌else◌,
}

abbrev pub Text : Type 0
Text = List ℕ

-- What String.prototype.trim removes: the white space and the line ends of ECMAScript.
unfoldable pub is_space : ℕ → Bool
is_space u =
    (leb 9 u && leb u 13)
    || nat_eq u 32
    || nat_eq u 160
    || nat_eq u 5760
    || (leb 8192 u && leb u 8202)
    || nat_eq u 8232
    || nat_eq u 8233
    || nat_eq u 8239
    || nat_eq u 8287
    || nat_eq u 12288
    || nat_eq u 65279

unfoldable pub trim_start : Text → Text
trim_start [] = []
trim_start (u ∷ t) = if is_space u then trim_start t else u ∷ t

-- A unit in front of the trimmed rest goes only when it is blank and nothing is left behind it.
unfoldable pub cons_trimmed : ℕ → Text → Text
cons_trimmed u [] = if is_space u then [] else u ∷ []
cons_trimmed u (v ∷ t) = u ∷ v ∷ t

unfoldable pub trim_end : Text → Text
unfolding cons_trimmed
trim_end [] = []
trim_end (u ∷ t) = cons_trimmed u (trim_end t)

unfoldable pub trim : Text → Text
unfolding trim_start trim_end
trim t = trim_end (trim_start t)

-- The flag `i` on the letters of the pattern, which are ASCII.
unfoldable pub lower : ℕ → ℕ
lower u = if leb 65 u && leb u 90 then u + 32 else u

unfoldable pub matches_text : Text → Text → Bool
unfolding lower
matches_text [] [] = true
matches_text [] (v ∷ s) = false
matches_text (u ∷ t) [] = false
matches_text (u ∷ t) (v ∷ s) = nat_eq (lower u) v && matches_text t s

abbrev pub unknown_text : Text
unknown_text = 117 ∷ 110 ∷ 107 ∷ 110 ∷ 111 ∷ 119 ∷ 110 ∷ []

abbrev pub unknown_person_text : Text
unknown_person_text =
    117 ∷ 110 ∷ 107 ∷ 110 ∷ 111 ∷ 119 ∷ 110 ∷ 32 ∷ 112 ∷ 101 ∷ 114 ∷ 115 ∷ 111 ∷ 110 ∷ []

abbrev pub no_person_text : Text
no_person_text = 110 ∷ 111 ∷ 32 ∷ 112 ∷ 101 ∷ 114 ∷ 115 ∷ 111 ∷ 110 ∷ []

-- /^(unknown|unknown person|no person)$/i
unfoldable pub is_placeholder : Text → Bool
unfolding matches_text
is_placeholder t =
    matches_text t unknown_text
    || matches_text t unknown_person_text
    || matches_text t no_person_text

unfoldable pub accept_name : Text → Option Text
unfolding is_placeholder
accept_name [] = none
accept_name (u ∷ t) = if is_placeholder (u ∷ t) then none else some (u ∷ t)

unfoldable pub normalize_person_name : Option Text → Option Text
unfolding trim accept_name
normalize_person_name none = none
normalize_person_name (some t) = accept_name (trim t)
