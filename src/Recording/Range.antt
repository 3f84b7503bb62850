-- ===== src/Recording/Range.antt =====
-- recordingByteRange of storage/recording-cache.ts. A header value is its list of UTF-16 units.
pub mod Laws
mod Runs
use eufy_mega_security.Prelude.{
  ℕ, ◌+◌, ◌-◌, ◌*◌, ◌^◌, Bool, not, ◌&&◌, ◌||◌, Option, none, some, min, List, [], ◌∷◌, ltb, leb,
  nat_eq, if◌then◌else◌, length,
}

pub record ByteRange : Type 0 where
  pub start : ℕ
  pub last : ℕ

abbrev pub is_digit : ℕ → Bool
is_digit c = leb 48 c && leb c 57

-- `Number(text)` of a text of decimal digits, before the rounding of a value that is not safe.
pub number_from : ℕ → List ℕ → ℕ
number_from acc [] = acc
number_from acc (c ∷ cs) = number_from (acc * 10 + (c - 48)) cs

abbrev pub number : List ℕ → ℕ
number = number_from 0

abbrev pub is_safe : ℕ → Bool
is_safe n = ltb n (2 ^ 53)

-- `\d*`: the digits in front, and what follows them.
pub span_digits : List ℕ → List ℕ × List ℕ
span_digits [] = ([], [])
span_digits (c ∷ cs) =
    let (ds, rest) = span_digits cs in if is_digit c then (c ∷ ds, rest) else ([], c ∷ cs)

pub strip_prefix : List ℕ → List ℕ → Option (List ℕ)
strip_prefix [] value = some value
strip_prefix (p ∷ ps) [] = none
strip_prefix (p ∷ ps) (c ∷ cs) = if nat_eq p c then strip_prefix ps cs else none

abbrev pub bytes_prefix : List ℕ
bytes_prefix = b'b' ∷ b'y' ∷ b't' ∷ b'e' ∷ b's' ∷ b'=' ∷ []

-- The end of the pattern: no unit is left.
pub finish : List ℕ → List ℕ × List ℕ → Option (List ℕ × List ℕ)
finish left (right, []) = some (left, right)
finish left (right, c ∷ cs) = none

pub after_left : List ℕ × List ℕ → Option (List ℕ × List ℕ)
unfolding finish span_digits
after_left (left, []) = none
after_left (left, c ∷ cs) = if nat_eq c b'-' then finish left (span_digits cs) else none

-- `/^bytes=\d*-\d*$/`, with the two texts that `slice(6).split("-")` gives.
pub match_range : List ℕ → Option (List ℕ × List ℕ)
unfolding after_left strip_prefix
match_range value = elim (strip_prefix bytes_prefix value) [
  | none ↦ none
  | some rest ↦ after_left (span_digits rest)
]

pub select : List ℕ → List ℕ → ℕ → Option ByteRange
unfolding number_from
select [] [] size = none
select [] (d ∷ right) size =
    let suffix = number (d ∷ right) in
    if not (is_safe suffix) || nat_eq suffix 0
    then none
    else some (record { start = size - suffix; last = size - 1 })
select (d ∷ left) right size =
    let start = number (d ∷ left) in
    let last : ℕ = elim right [ [] ↦ size - 1 | c ∷ cs ↦ number (c ∷ cs) ] in
    if not (is_safe start) || not (is_safe last) || leb size start || ltb last start
    then none
    else some (record { start = start; last = min last (size - 1) })

pub byte_range : List ℕ → ℕ → Option ByteRange
unfolding match_range select
byte_range value size = if ltb 64 (length value) then none else elim (match_range value) [
  | none ↦ none
  | some (left, right) ↦ if nat_eq size 0 then none else select left right size
]
