-- ===== src/Ppcs/Commands/Streams/Markers.antt =====
-- Markers, whole and cut off, as ppcsCommandMagicOffset and ppcsPartialCommandPrefix of
-- stream/first-party-ppcs.ts find them.
use native.Mathlib.Decide.{dec_lt}
use eufy_mega_security.Prelude.{
  ℕ, zero, suc, ◌-◌, ◌≤◌, ◌<◌, ◌≡◌, refl, sym, ap, ◌∙◌, ◌⊎◌, inl, inr, true, false, none, some,
  List, [], ◌∷◌, ◌++◌, arith, All, le→leb, leb-false, nat_eq-false, Eq_ℕ, min, length, take,
}
use eufy_mega_security.Prelude.Bytes.{Bytes, bytes_eq, bytes_eq_refl}
use eufy_mega_security.Ppcs.Commands.{
  command_magic, Frame, begins_with_magic, longest_prefix, partial_command_prefix, magic_offset,
}
use eufy_mega_security.Ppcs.Commands.Streams.{WellFormed, flat, prefix_of}

pub bytes_eq-eq : (xs ys : Bytes) → bytes_eq xs ys ≡ true → xs ≡ ys
bytes_eq-eq [] [] h = refl
bytes_eq-eq [] (y ∷ ys) h = cc
bytes_eq-eq (x ∷ xs) [] h = cc
bytes_eq-eq (x ∷ xs) (y ∷ ys) h = ground (arith, bytes_eq-eq xs ys)

pub take-take_le : (m n : ℕ) (xs : Bytes) → m ≤ n → take m (take n xs) ≡ take m xs
take-take_le zero n xs h = refl
take-take_le (suc m) zero xs h = absurd (omega arith)
take-take_le (suc m) (suc n) [] h = refl
take-take_le (suc m) (suc n) (x ∷ xs) h = ap (◌∷◌ x) (take-take_le m n xs (omega arith))

pub not_magic : (b : Bytes) → length b < 4 → begins_with_magic b ≡ false
unfolding begins_with_magic
not_magic [] h = refl
not_magic (a ∷ []) h = ground arith
not_magic (a ∷ b ∷ []) h = ground arith
not_magic (a ∷ b ∷ c ∷ []) h = ground arith
not_magic (a ∷ b ∷ c ∷ d ∷ e) h = absurd (omega arith)

pub no_offset : (b : Bytes) → length b < 4 → magic_offset b ≡ none
unfolding magic_offset
no_offset [] h = refl
no_offset (x ∷ b) h = rw (not_magic (x ∷ b) h, no_offset b (omega arith)) refl

pub offset_zero : (b : Bytes) → 4 ≤ length b → begins_with_magic b ≡ true → magic_offset b ≡ some 0
unfolding magic_offset
offset_zero [] h m = absurd (omega arith)
offset_zero (x ∷ b) h m = rw m refl

pub prefix_long :
    (b : Bytes)
    → 4 ≤ length b
    → length b < 16
    → begins_with_magic b ≡ true
    → partial_command_prefix b ≡ some b
unfolding partial_command_prefix
prefix_long b h l m =
    rw
      (
        nat_eq-false (length b) 0 (λ e. omega (arith, e)),
        leb-false 16 (length b) l,
        le→leb 4 (length b) h,
        m,
      )
      refl

pub longest_whole :
    (b : Bytes) (n : ℕ)
    → length b ≡ suc n
    → b ≡ take (suc n) command_magic
    → longest_prefix (suc n) b ≡ some b
unfolding longest_prefix
longest_whole b n e m =
    let start : length b - suc n ≡ 0 = omega (arith, e) in rw (start, ← m, bytes_eq_refl b) refl

pub prefix_short :
    (b : Bytes) (n : ℕ)
    → length b ≡ suc n
    → length b < 4
    → b ≡ take (suc n) command_magic
    → partial_command_prefix b ≡ some b
unfolding partial_command_prefix
prefix_short b n e l m =
    let fewest : min (length b) 4 ≡ suc n = omega (arith, e) in
    rw
      (
        nat_eq-false (length b) 0 (λ z. omega (arith, e, z)),
        leb-false 16 (length b) (omega arith),
        leb-false 4 (length b) l,
        fewest,
      )
      (longest_whole b n e m)

pub magic_of : (h : Bytes) → begins_with_magic h ≡ true → take 4 h ≡ command_magic
unfolding begins_with_magic
magic_of h m = bytes_eq-eq (take 4 h) command_magic m

pub marks : (h : Bytes) → take 4 h ≡ command_magic → begins_with_magic h ≡ true
unfolding begins_with_magic
marks h m = rw m refl

-- A part of a header is kept whole, and no marker is found behind its start.
pub record IsPart (b : Bytes) : Type 0 where
  pub kept : partial_command_prefix b ≡ some b
  pub no_marker : (magic_offset b ≡ none) ⊎ (magic_offset b ≡ some 0)

pub IsPart-of_header :
    (b rest : Bytes) (fs : List Frame)
    → 0 < length b
    → length b < 16
    → All WellFormed fs
    → b ++ rest ≡ flat fs
    → IsPart b
unfolding flat
IsPart-of_header [] rest fs p l v e = absurd (omega arith)
IsPart-of_header (x ∷ b) rest [] p l v e = cc
IsPart-of_header (x ∷ b) rest (f ∷ fs) p l v e =
    let w = v.0 in
    let same : x ∷ b ≡ take (length (x ∷ b)) f.header =
      prefix_of (x ∷ b) rest f.header (f.payload ++ flat fs) e (omega (arith, w.sixteen)) in
    let marked : take 4 f.header ≡ command_magic = magic_of f.header w.marked in
    elim (dec_lt (length (x ∷ b)) 4) [
      | yes few ↦
          let short : x ∷ b ≡ take (suc (length b)) command_magic =
            same
            ∙ sym (take-take_le (suc (length b)) 4 f.header (omega arith))
            ∙ ap (take (suc (length b))) marked in
          record {
            kept = prefix_short (x ∷ b) (length b) refl few short;
            no_marker = inl (no_offset (x ∷ b) few);
          }
      | no many ↦
          let front : take 4 (x ∷ b) ≡ command_magic =
            ap (take 4) same ∙ take-take_le 4 (length (x ∷ b)) f.header (omega arith) ∙ marked in
          record {
            kept = prefix_long (x ∷ b) (omega arith) l (marks (x ∷ b) front);
            no_marker = inr (offset_zero (x ∷ b) (omega arith) (marks (x ∷ b) front));
          }
    ]
