-- ===== src/Recording/Range/Laws.antt =====
-- The bounds of an accepted range, and what each form of the header selects.
use eufy_mega_security.Prelude.{
  ℕ, ◌+◌, ◌-◌, ◌^◌, ◌≤◌, ◌<◌, ◌≡◌, refl, true, false, some, min, List, [], ◌∷◌, ◌++◌, length,
  length-append, All, arith, inl, inr, Option-cases, sym, ap, ◌∙◌,
}
use mathlib.Core.List.{append-nil}
use eufy_mega_security.Recording.Range.{
  ByteRange, is_digit, number, span_digits, bytes_prefix, finish, match_range, select, byte_range,
}

select_within :
    (left right : List ℕ) (size : ℕ) (r : ByteRange)
    → 0 < size
    → select left right size ≡ some r
    → (r.start ≤ r.last) × (r.last < size)
unfolding select
select_within [] [] size r h e = cc
select_within [] (d ∷ right) size r h e = ground arith
select_within (d ∷ left) [] size r h e = ground arith
select_within (d ∷ left) (c ∷ right) size r h e = ground arith

-- Every range that is returned is in order and lies within the recording.
pub byte_range_within :
    (value : List ℕ) (size : ℕ) (r : ByteRange)
    → byte_range value size ≡ some r
    → (r.start ≤ r.last) × (r.last < size)
unfolding byte_range
byte_range_within value size r e = elim (Option-cases (match_range value)) [
  | inl q ↦ ground (arith, q)
  | inr ((left, right), q) ↦ ground (arith, q, select_within left right size r)
]

abbrev pub AreDigits : List ℕ → Type 0
AreDigits ds = All (λ c. is_digit c ≡ true) ds

abbrev pub NoDigit : List ℕ → Type 0
NoDigit [] = Unit {0}
NoDigit (c ∷ cs) = is_digit c ≡ false

span_digits-append :
    (ds rest : List ℕ) → AreDigits ds → NoDigit rest → span_digits (ds ++ rest) ≡ (ds, rest)
unfolding span_digits
span_digits-append [] [] h n = refl
span_digits-append [] (c ∷ cs) h n = ground arith
span_digits-append (d ∷ ds) rest h n = ground (arith, span_digits-append ds rest h.1 n)

-- The header `bytes=LEFT-RIGHT`.
abbrev pub header : List ℕ → List ℕ → List ℕ
header left right = bytes_prefix ++ (left ++ (b'-' ∷ right))

match_range-header :
    (left right : List ℕ)
    → AreDigits left
    → AreDigits right
    → match_range (header left right) ≡ some (left, right)
unfolding match_range finish
match_range-header left right hl hr =
    let right_all : span_digits right ≡ (right, []) =
      ap span_digits (sym (append-nil right)) ∙ span_digits-append right [] hr tt in
    ground (arith, span_digits-append left (b'-' ∷ right) hl refl, right_all)

-- A header `bytes=LEFT-RIGHT` of at most 64 units whose two numbers are safe integers, in order, with
-- the first inside the recording, selects exactly these bytes, cut at the recording's end.
pub byte_range-header :
    (l : ℕ) (left : List ℕ) (r : ℕ) (right : List ℕ) (size : ℕ)
    → AreDigits (l ∷ left)
    → AreDigits (r ∷ right)
    → length left + length right ≤ 55
    → number (l ∷ left) ≤ number (r ∷ right)
    → number (r ∷ right) < 2 ^ 53
    → number (l ∷ left) < size
    → byte_range (header (l ∷ left) (r ∷ right)) size
      ≡ some (record { start = number (l ∷ left); last = min (number (r ∷ right)) (size - 1) })
unfolding byte_range
byte_range-header l left r right size hl hr short ordered safe inside =
    ground (
      arith,
      match_range-header (l ∷ left) (r ∷ right) hl hr,
      length-append left (b'-' ∷ r ∷ right),
    )
