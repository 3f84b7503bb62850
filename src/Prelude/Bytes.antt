-- ===== src/Prelude/Bytes.antt =====
-- Node's Buffer as a list of numbers, each below 256 where `AreBytes` says so.
use Prim.Native.Nat.{ℕ, ◌+◌, ◌-◌, ◌*◌, ◌/◌, ◌%◌, ◌^◌, ◌<◌}
use mathlib.Core.Path.{◌≡◌, refl}
use mathlib.Core.Bool.{Bool, true, false, ◌&&◌}
use mathlib.Core.List.{List, [], ◌∷◌}
use native.Mathlib.Omega.{arith}
use eufy_mega_security.Prelude.Tests.{nat_eq}
use eufy_mega_security.Prelude.Lists.{get_or, take, drop}

abbrev pub Bytes : Type 0
Bytes = List ℕ

abbrev pub IsByte : ℕ → Type 0
IsByte b = b < 256

-- `buffer[i]`; every read of the model stands behind the length check of the source.
abbrev pub byte_at : Bytes → ℕ → ℕ
byte_at b i = get_or b i 0

-- `readUInt16LE` and `readUInt32LE`.
abbrev pub read_u16 : Bytes → ℕ → ℕ
read_u16 b i = byte_at b i + 256 * byte_at b (i + 1)

abbrev pub read_u32 : Bytes → ℕ → ℕ
read_u32 b i = read_u16 b i + 65536 * read_u16 b (i + 2)

-- `writeUInt16LE` and `writeUInt32LE`, as the bytes written.
abbrev pub u16_bytes : ℕ → Bytes
u16_bytes n = (n % 256) ∷ (n / 256 % 256) ∷ []

abbrev pub u32_bytes : ℕ → Bytes
u32_bytes n = (n % 256) ∷ (n / 256 % 256) ∷ (n / 65536 % 256) ∷ (n / 16777216 % 256) ∷ []

-- `x & (1 << k)` is not 0.
abbrev pub bit : ℕ → ℕ → Bool
bit k x = nat_eq (x / 2 ^ k % 2) 1

-- `buffer.subarray(a, b)`.
abbrev pub subarray : Bytes → ℕ → ℕ → Bytes
subarray xs a b = take (b - a) (drop a xs)

-- `a.equals(b)`.
abbrev pub bytes_eq : Bytes → Bytes → Bool
bytes_eq [] [] = true
bytes_eq [] (y ∷ ys) = false
bytes_eq (x ∷ xs) [] = false
bytes_eq (x ∷ xs) (y ∷ ys) = nat_eq x y && bytes_eq xs ys

pub bytes_eq_refl : (xs : Bytes) → bytes_eq xs xs ≡ true
bytes_eq_refl [] = refl
bytes_eq_refl (x ∷ xs) = ground (arith, bytes_eq_refl xs)

pub read_u16-bytes : (n : ℕ) → n < 65536 → n % 256 + 256 * (n / 256 % 256) ≡ n
read_u16-bytes n h = omega arith

pub u32_split :
    (n : ℕ)
    → n < 4294967296
    → n % 256 + 256 * (n / 256 % 256) + 65536 * (n / 65536 % 256 + 256 * (n / 16777216 % 256)) ≡ n
u32_split n h = omega arith
