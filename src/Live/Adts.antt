-- ===== src/Live/Adts.antt =====
-- parseAdtsAccessUnits and decodePpcsAac of stream/ppcs-audio.ts.
pub mod Batches
mod Runs
use eufy_mega_security.Prelude.{
  ℕ, zero, suc, ◌+◌, ◌-◌, ◌*◌, ◌/◌, ◌%◌, Bool, not, ◌&&◌, ◌||◌, Option, none, some, List, [], ◌∷◌,
  ltb, leb, nat_eq, if◌then◌else◌, length, drop, get_or, is_some,
}
use eufy_mega_security.Prelude.Bytes.{Bytes, byte_at, read_u32, subarray}

pub record AdtsAccessUnit : Type 0 where
  pub payload : Bytes
  pub sample_rate : ℕ
  pub channels : ℕ
  pub configuration : ℕ
  pub samples : ℕ

abbrev pub sample_rates : List ℕ
sample_rates =
    96000 ∷ 88200 ∷ 64000 ∷ 48000 ∷ 44100 ∷ 32000 ∷ 24000 ∷ 22050 ∷ 16000 ∷ 12000 ∷ 11025 ∷ 8000
    ∷ 7350 ∷ []

-- The shifts and masks of a header, as quotients and remainders of its bytes.
pub frequency_of : Bytes → ℕ
frequency_of h = byte_at h 2 / 4 % 16

pub channels_of : Bytes → ℕ
channels_of h = byte_at h 2 % 2 * 4 + byte_at h 3 / 64

pub size_of : Bytes → ℕ
size_of h = byte_at h 3 % 4 * 2048 + byte_at h 4 * 8 + byte_at h 5 / 32

pub minimum_of : Bytes → ℕ
minimum_of h = if nat_eq (byte_at h 1 % 2) 1 then 7 else 9

-- `header[0] === 0xff && (header[1] & 0xf6) === 0xf0`.
pub synchronized : Bytes → Bool
synchronized h =
    nat_eq (byte_at h 0) 255 && nat_eq (byte_at h 1 / 16) 15 && nat_eq (byte_at h 1 / 2 % 4) 0

pub valid_unit : Bytes → Bool
unfolding synchronized frequency_of channels_of size_of minimum_of
valid_unit h =
    leb 7 (length h)
    && synchronized h
    && leb (frequency_of h) 12
    && leb 1 (channels_of h)
    && leb (channels_of h) 2
    && ltb (minimum_of h) (size_of h)
    && leb (size_of h) (length h)

pub unit_at : Bytes → AdtsAccessUnit
unfolding frequency_of channels_of size_of minimum_of
unit_at h = record {
  payload = subarray h (minimum_of h) (size_of h);
  sample_rate = get_or sample_rates (frequency_of h) 0;
  channels = channels_of h;
  configuration = (byte_at h 2 / 64 + 1) * 2048 + frequency_of h * 128 + channels_of h * 8;
  samples = 1024 * (byte_at h 6 % 4 + 1);
}

pub cons_unit : AdtsAccessUnit → Option (List AdtsAccessUnit) → Option (List AdtsAccessUnit)
cons_unit u none = none
cons_unit u (some us) = some (u ∷ us)

-- The loop, from the bytes at `offset` on. Each round takes at least 8 of them, so their number is enough
-- fuel.
pub units_from : ℕ → Bytes → Option (List AdtsAccessUnit)
unfolding valid_unit unit_at size_of cons_unit
units_from zero audio = some []
units_from (suc fuel) [] = some []
units_from (suc fuel) (byte ∷ audio) =
    let h = byte ∷ audio in
    let rest = units_from fuel (drop (size_of h) h) in
    if valid_unit h then cons_unit (unit_at h) rest else none

pub some_units : Option (List AdtsAccessUnit) → Option (List AdtsAccessUnit)
some_units (some (u ∷ us)) = some (u ∷ us)
some_units units = none

unfoldable pub parse_adts_access_units : Bytes → Option (List AdtsAccessUnit)
unfolding units_from some_units
parse_adts_access_units audio = some_units (units_from (length audio) audio)

unfoldable pub decode_ppcs_aac : Bytes → Option Bytes
unfolding parse_adts_access_units
decode_ppcs_aac frame =
    if ltb (length frame) 23
      || ltb 65552 (length frame)
      || ltb 1 (byte_at frame 5)
      || not (nat_eq (read_u32 frame 0) (length frame - 16))
      || not (is_some (parse_adts_access_units (drop 16 frame)))
    then none
    else some (drop 16 frame)
