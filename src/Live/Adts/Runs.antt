-- ===== src/Live/Adts/Runs.antt =====
-- Two AAC units as they come from a camera, a command that carries one, and the theorem at them:
-- stream/ppcs-audio.ts.
use eufy_mega_security.Prelude.{◌≡◌, refl, none, some, [], ◌∷◌, map, arith}
use eufy_mega_security.Live.Adts.{parse_adts_access_units, decode_ppcs_aac}
use eufy_mega_security.Live.Adts.Batches.{
  AdtsFrame, IsAdts, batch_bytes, unit_of, parse_adts_access_units-batch,
}

abbrev mono : AdtsFrame
mono = record {
  profile = 1;
  frequency = 8;
  channels = 1;
  fullness = 2047;
  blocks = 0;
  body = 5 ∷ 6 ∷ [];
}

abbrev stereo : AdtsFrame
stereo = record {
  profile = 1;
  frequency = 4;
  channels = 2;
  fullness = 0;
  blocks = 3;
  body = 7 ∷ [];
}

mono-IsAdts : IsAdts mono
mono-IsAdts = record {
  profile_fits = omega arith;
  frequency_known = omega arith;
  channels_known = (omega arith, omega arith);
  fullness_fits = omega arith;
  blocks_fit = omega arith;
  body_fits = (omega arith, omega arith);
}

stereo-IsAdts : IsAdts stereo
stereo-IsAdts = record {
  profile_fits = omega arith;
  frequency_known = omega arith;
  channels_known = (omega arith, omega arith);
  fullness_fits = omega arith;
  blocks_fit = omega arith;
  body_fits = (omega arith, omega arith);
}

-- The standard's sync word, MPEG-4, without a checksum; 48 kHz is the rate of index 3.
known_unit :
    parse_adts_access_units (255 ∷ 241 ∷ 76 ∷ 128 ∷ 1 ∷ 31 ∷ 252 ∷ 9 ∷ [])
    ≡ some (
        record {
          payload = 9 ∷ [];
          sample_rate = 48000;
          channels = 2;
          configuration = 4496;
          samples = 1024;
        }
        ∷ [])
unfolding parse_adts_access_units
known_unit = refl

truncated_unit : parse_adts_access_units (255 ∷ 241 ∷ 76 ∷ 128 ∷ 1 ∷ 31 ∷ 252 ∷ []) ≡ none
unfolding parse_adts_access_units
truncated_unit = refl

-- A command of codec 0 whose first word is the length of what follows its 16 bytes.
command_with_unit :
    decode_ppcs_aac (
      8 ∷ 0 ∷ 0 ∷ 0 ∷ 0 ∷ 0 ∷ 0 ∷ 0 ∷ 0 ∷ 0 ∷ 0 ∷ 0 ∷ 0 ∷ 0 ∷ 0 ∷ 0 ∷ 255 ∷ 241 ∷ 76 ∷ 128 ∷ 1 ∷ 31
      ∷ 252 ∷ 9 ∷ [])
    ≡ some (255 ∷ 241 ∷ 76 ∷ 128 ∷ 1 ∷ 31 ∷ 252 ∷ 9 ∷ [])
unfolding decode_ppcs_aac parse_adts_access_units
command_with_unit = refl

parse_adts_access_units-batch_example :
    parse_adts_access_units (batch_bytes (mono ∷ stereo ∷ []))
    ≡ some (map unit_of (mono ∷ stereo ∷ []))
parse_adts_access_units-batch_example =
    parse_adts_access_units-batch mono (stereo ∷ []) (mono-IsAdts, (stereo-IsAdts, tt))
