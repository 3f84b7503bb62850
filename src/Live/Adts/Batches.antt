-- ===== src/Live/Adts/Batches.antt =====
-- Batches of ADTS units, as an encoder writes them: stream/ppcs-audio.ts reads them.
use eufy_mega_security.Prelude.{
  ℕ, zero, suc, ◌+◌, ◌-◌, ◌*◌, ◌/◌, ◌%◌, ◌≤◌, ◌<◌, ◌≡◌, refl, ap, ◌∙◌, true, some, List, [], ◌∷◌,
  ◌++◌, map, arith, All, le→leb, lt→ltb, length, length-append, take, drop, take-length_append,
  drop-length_append, get_or,
}
use eufy_mega_security.Prelude.Bytes.{Bytes, byte_at}
use eufy_mega_security.Live.Adts.{
  AdtsAccessUnit, sample_rates, frequency_of, channels_of, size_of, minimum_of, synchronized,
  valid_unit, unit_at, cons_unit, units_from, some_units, parse_adts_access_units,
}

-- A unit without a checksum, by the fields of the ADTS standard.
pub record AdtsFrame : Type 0 where
  pub profile : ℕ
  pub frequency : ℕ
  pub channels : ℕ
  pub fullness : ℕ
  pub blocks : ℕ
  pub body : Bytes

-- What the fields can hold, and what the gateway admits of them.
pub record IsAdts (f : AdtsFrame) : Type 0 where
  pub profile_fits : f.profile ≤ 3
  pub frequency_known : f.frequency ≤ 12
  pub channels_known : (1 ≤ f.channels) × (f.channels ≤ 2)
  pub fullness_fits : f.fullness < 2048
  pub blocks_fit : f.blocks ≤ 3
  pub body_fits : (1 ≤ length f.body) × (length f.body ≤ 8184)

-- Its seven bytes of header and its body.
abbrev pub frame_bytes : AdtsFrame → Bytes
frame_bytes f =
    255
    ∷ 241
    ∷ (f.profile * 64 + f.frequency * 4)
    ∷ (f.channels * 64 + (length f.body + 7) / 2048)
    ∷ ((length f.body + 7) / 8 % 256)
    ∷ ((length f.body + 7) % 8 * 32 + f.fullness / 64)
    ∷ (f.fullness % 64 * 4 + f.blocks)
    ∷ f.body

pub batch_bytes : List AdtsFrame → Bytes
batch_bytes [] = []
batch_bytes (f ∷ fs) = frame_bytes f ++ batch_bytes fs

-- The unit that a frame stands for.
pub unit_of : AdtsFrame → AdtsAccessUnit
unit_of f = record {
  payload = f.body;
  sample_rate = get_or sample_rates f.frequency 0;
  channels = f.channels;
  configuration = (f.profile + 1) * 2048 + f.frequency * 128 + f.channels * 8;
  samples = 1024 * (f.blocks + 1);
}

module _ (f : AdtsFrame) (v : IsAdts f) (rest : Bytes) where
  frequency_eq : frequency_of (frame_bytes f ++ rest) ≡ f.frequency
  unfolding frequency_of
  frequency_eq = omega (arith, v.frequency_known)

  channels_eq : channels_of (frame_bytes f ++ rest) ≡ f.channels
  unfolding channels_of
  channels_eq = omega (arith, v.channels_known.1, v.body_fits.1)

  size_eq : size_of (frame_bytes f ++ rest) ≡ length f.body + 7
  unfolding size_of
  size_eq = omega (arith, v.body_fits.1, v.fullness_fits)

  samples_eq : byte_at (frame_bytes f ++ rest) 6 % 4 ≡ f.blocks
  samples_eq = omega (arith, v.blocks_fit)

  profile_eq : byte_at (frame_bytes f ++ rest) 2 / 64 ≡ f.profile
  profile_eq = omega (arith, v.frequency_known)

  frame-valid : valid_unit (frame_bytes f ++ rest) ≡ true
  unfolding valid_unit synchronized minimum_of
  frame-valid =
      rw
        (
          le→leb 7 (length (frame_bytes f ++ rest)) (omega arith),
          frequency_eq,
          channels_eq,
          size_eq,
          le→leb f.frequency 12 v.frequency_known,
          le→leb 1 f.channels v.channels_known.0,
          le→leb f.channels 2 v.channels_known.1,
          lt→ltb 7 (length f.body + 7) (omega (arith, v.body_fits.0)),
          le→leb (length f.body + 7) (length (frame_bytes f ++ rest))
              (omega (arith, length-append f.body rest)),
        )
        refl

  payload_eq : take (size_of (frame_bytes f ++ rest) - 7) (f.body ++ rest) ≡ f.body
  payload_eq =
      ap (λ n. take (n - 7) (f.body ++ rest)) size_eq
      ∙ ap (λ n. take n (f.body ++ rest)) (omega arith)
      ∙ take-length_append f.body rest

  frame-unit : unit_at (frame_bytes f ++ rest) ≡ unit_of f
  unfolding unit_at unit_of minimum_of
  frame-unit = rw (payload_eq, frequency_eq, channels_eq, samples_eq, profile_eq) refl

  length_eq : size_of (frame_bytes f ++ rest) ≡ length (frame_bytes f)
  length_eq = omega (arith, size_eq)

  frame-rest : drop (size_of (frame_bytes f ++ rest)) (frame_bytes f ++ rest) ≡ rest
  frame-rest =
      ap (λ n. drop n (frame_bytes f ++ rest)) length_eq ∙ drop-length_append (frame_bytes f) rest

  units_from-frame :
      (fuel : ℕ)
      → units_from (suc fuel) (frame_bytes f ++ rest) ≡ cons_unit (unit_of f) (units_from fuel rest)
  unfolding units_from
  units_from-frame fuel = rw (frame-valid, frame-unit, frame-rest) refl

units_from-batch :
    (fs : List AdtsFrame) (fuel : ℕ)
    → All IsAdts fs
    → length (batch_bytes fs) ≤ fuel
    → units_from fuel (batch_bytes fs) ≡ some (map unit_of fs)
unfolding batch_bytes
units_from-batch [] zero v h = unfold units_from in refl
units_from-batch [] (suc fuel) v h = unfold units_from in refl
units_from-batch (f ∷ fs) zero v h = absurd (omega (arith, h))
units_from-batch (f ∷ fs) (suc fuel) v h =
    units_from-frame f v.0 (batch_bytes fs) fuel
    ∙ ap (cons_unit (unit_of f)) (
        units_from-batch fs fuel v.1
          (omega (arith, h, length-append (frame_bytes f) (batch_bytes fs))))
    ∙ (unfold cons_unit in refl)

-- A batch of one or more units, each without a checksum, in mono or stereo, at a known rate and with a
-- body of 1 to 8184 bytes, is read as exactly those units, in order, whatever their profile, buffer
-- fullness and number of blocks.
pub parse_adts_access_units-batch :
    (f : AdtsFrame) (fs : List AdtsFrame)
    → All IsAdts (f ∷ fs)
    → parse_adts_access_units (batch_bytes (f ∷ fs)) ≡ some (map unit_of (f ∷ fs))
unfolding parse_adts_access_units
parse_adts_access_units-batch f fs v =
    ap some_units (units_from-batch (f ∷ fs) (length (batch_bytes (f ∷ fs))) v (omega arith))
    ∙ (unfold some_units in refl)
