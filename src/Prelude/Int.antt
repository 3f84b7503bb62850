-- ===== src/Prelude/Int.antt =====
-- The integers, over the native numbers. `negsuc n` is -(n + 1).
use Prim.Native.Nat.{ℕ, ◌-◌}
use eufy_mega_security.Prelude.Tests.{ltb, if◌then◌else◌}
use eufy_mega_security.Prelude.Bytes.{Bytes, read_u16}

pub data ℤ : Type 0 where
  pos : ℕ → ℤ
  negsuc : ℕ → ℤ

-- The number that a 16-bit pattern stands for, as `readInt16LE` reads it.
abbrev pub signed16 : ℕ → ℤ
signed16 w = if ltb w 32768 then pos w else negsuc (65535 - w)

abbrev pub read_i16 : Bytes → ℕ → ℤ
read_i16 b i = signed16 (read_u16 b i)
