-- ===== src/Recording/Range/Runs.antt =====
-- Concrete headers, and the theorems at concrete inputs.
use eufy_mega_security.Prelude.{ℕ, ◌≤◌, ◌<◌, ◌≡◌, refl, Option, none, some, List, [], ◌∷◌, arith}
use eufy_mega_security.Recording.Range.{ByteRange, byte_range}
use eufy_mega_security.Recording.Range.Laws.{header, byte_range_within, byte_range-header}

abbrev range_of : ℕ → ℕ → Option ByteRange
range_of first final = some (record { start = first; last = final })

abbrev ten_to_99 : List ℕ
ten_to_99 = header (b'1' ∷ b'0' ∷ []) (b'9' ∷ b'9' ∷ [])

cut_at_end : byte_range ten_to_99 50 ≡ range_of 10 49
unfolding byte_range
cut_at_end = refl

open_range : byte_range (header (b'7' ∷ []) []) 50 ≡ range_of 7 49
unfolding byte_range
open_range = refl

no_numbers : byte_range (header [] []) 50 ≡ none
unfolding byte_range
no_numbers = refl

reversed : byte_range (header (b'9' ∷ []) (b'3' ∷ [])) 50 ≡ none
unfolding byte_range
reversed = refl

byte_range_within_example : (10 ≤ 49) × (49 < 50)
byte_range_within_example =
    byte_range_within ten_to_99 50 (record { start = 10; last = 49 }) cut_at_end

byte_range-header_example : byte_range ten_to_99 50 ≡ range_of 10 49
unfolding byte_range
byte_range-header_example =
    byte_range-header b'1' (b'0' ∷ []) b'9' (b'9' ∷ []) 50 (refl, (refl, tt)) (refl, (refl, tt))
      (omega arith) (omega arith) (omega arith) (omega arith)
