-- ===== src/Push/Mcs/Runs.antt =====
-- A reader of sizes of up to four bytes, least significant seven bits first, and the stream of a login
-- answer and a heartbeat.
use eufy_mega_security.Prelude.{
  ℕ, zero, suc, ◌+◌, ◌-◌, ◌*◌, ◌/◌, ◌%◌, ◌≤◌, ◌<◌, Option, none, some, List, [], ◌∷◌, ◌++◌, ◌≡◌,
  ◌≢◌, refl, subst, arith, length, ltb, if◌then◌else◌, map, Bool-cases, inl, inr, lt→ltb, ltb-false,
}
use eufy_mega_security.Prelude.Bytes.{Bytes}
use eufy_mega_security.Prelude.Int.{ℤ, pos, negsuc}
use eufy_mega_security.Push.Mcs.{
  tag_and_size, Parser, Varint, value, short, broken, rests, running, reset, handle_data,
  max_frame_bytes, max_buffer_bytes, stanza, has_type, signed8,
}
use eufy_mega_security.Push.Mcs.Framing.{handle_data-Ends}
use eufy_mega_security.Push.Mcs.Stream.{
  Sent, stream, between, message_of, Carried, CarriesBody, handle_data-stream,
}

grow : ℕ → Varint → Varint
grow c (value (pos v) k) = value (pos (c + 128 * v)) (k + 1)
grow c (value (negsuc v) k) = broken
grow c (short k) = short (k + 1)
grow c broken = broken

read_varint : ℕ → Bytes → Varint
unfolding grow
read_varint fuel [] = short 0
read_varint zero (b ∷ rest) = broken
read_varint (suc fuel) (b ∷ rest) =
    let more = read_varint fuel rest in if ltb b 128 then value (pos b) 1 else grow (b - 128) more

write_varint : ℕ → ℕ → Bytes
write_varint zero n = n ∷ []
write_varint (suc fuel) n =
    let more = write_varint fuel (n / 128) in if ltb n 128 then n ∷ [] else (n % 128 + 128) ∷ more

Fits : ℕ → ℕ → Type 0
Fits zero n = n < 128
Fits (suc fuel) n = Fits fuel (n / 128)

Sound : Bytes → Varint → Type 0
Sound b (value n k) = (1 ≤ k) × (k ≤ length b)
Sound b (short k) = length b ≤ k
Sound b broken = Unit

grow-Sound : (c x : ℕ) (b : Bytes) (v : Varint) → Sound b v → Sound (x ∷ b) (grow c v)
unfolding grow Sound
grow-Sound c x b (value (pos v) k) h = (omega arith, omega arith)
grow-Sound c x b (value (negsuc v) k) h = tt
grow-Sound c x b (short k) h = omega arith
grow-Sound c x b broken h = tt

read_varint-Sound : (fuel : ℕ) (b : Bytes) → Sound b (read_varint fuel b)
unfolding read_varint Sound
read_varint-Sound fuel [] = omega arith
read_varint-Sound zero (x ∷ b) = tt
read_varint-Sound (suc fuel) (x ∷ b) = elim (Bool-cases (ltb x 128)) [
  | inl last ↦ rw last (omega arith, omega arith)
  | inr more ↦ rw more (grow-Sound (x - 128) x b (read_varint fuel b) (read_varint-Sound fuel b))
]

value-same : {m n k l : ℕ} → m ≡ n → k ≡ l → value (pos m) k ≡ value (pos n) l
value-same em ek = rw (em, ek) refl

read-write :
    (fuel n : ℕ) (rest : Bytes)
    → Fits fuel n
    → (1 ≤ length (write_varint fuel n))
      × (read_varint (suc fuel) (write_varint fuel n ++ rest)
          ≡ value (pos n) (length (write_varint fuel n)))
unfolding read_varint write_varint Fits grow
read-write zero n rest h = (omega arith, rw (lt→ltb n 128 h) refl)
read-write (suc fuel) n rest h = elim (Bool-cases (ltb n 128)) [
  | inl small ↦ rw small (omega arith, rw small refl)
  | inr big ↦ rw big (
    omega arith,
    rw (ltb-false (n % 128 + 128) 128 (omega arith), (read-write fuel (n / 128) rest h).1)
        (value-same (omega arith) (omega arith)),
  )
]

abbrev read_size : Bytes → Varint
read_size = read_varint 4

abbrev write_size : ℕ → Bytes
write_size = write_varint 3

read_size-moves : (b : Bytes) (n : ℤ) (k : ℕ) → read_size b ≡ value n k → (1 ≤ k) × (k ≤ length b)
unfolding Sound
read_size-moves b n k e = subst (Sound b) e (read_varint-Sound 4 b)

read_size-ends : (b : Bytes) (k : ℕ) → read_size b ≡ short k → length b ≤ k
unfolding Sound
read_size-ends b k e = subst (Sound b) e (read_varint-Sound 4 b)

read_size-write_size :
    (n : ℕ) (rest : Bytes)
    → n ≤ max_frame_bytes
    → (1 ≤ length (write_size n))
      × (read_size (write_size n ++ rest) ≡ value (pos n) (length (write_size n)))
unfolding Fits
read_size-write_size n rest h = read-write 3 n rest (omega arith)

-- The decoder keeps the bytes of a body, and refuses one that starts with 0.
abbrev decode_bytes : ℤ → Bytes → Option Bytes
decode_bytes t [] = some []
decode_bytes t (zero ∷ b) = none
decode_bytes t (suc x ∷ b) = some (suc x ∷ b)

abbrev answers : List (Sent Bytes)
answers =
    record { tag = 3; body = 8 ∷ 1 ∷ []; object = some (8 ∷ 1 ∷ []) }
    ∷ record { tag = 0; body = []; object = none }
    ∷ record { tag = 9; body = 7 ∷ []; object = none }
    ∷ []

answers-Carried : Carried read_size decode_bytes answers
unfolding Carried CarriesBody stanza signed8 has_type
answers-Carried = (omega arith, (refl, (omega arith, (refl, (omega arith, (refl, tt))))))

answers-short : length (stream write_size answers) ≤ max_buffer_bytes
unfolding stream write_varint
answers-short = omega arith

handle_data-Ends_example : handle_data read_size decode_bytes (41 ∷ 3 ∷ 130 ∷ []) reset ≢ running
handle_data-Ends_example =
    handle_data-Ends read_size decode_bytes read_size-moves read_size-ends (41 ∷ 3 ∷ 130 ∷ []) reset

handle_data-stream_example :
    (q : Parser) × ((q.buffer ≡ [])
      × ((q.phase ≡ tag_and_size)
          × (handle_data read_size decode_bytes (stream write_size answers) (between [] (pos 0) 0 0)
              ≡ rests q (map message_of answers))))
handle_data-stream_example =
    handle_data-stream read_size decode_bytes write_size read_size-write_size answers (pos 0) 0 0
      answers-Carried answers-short
