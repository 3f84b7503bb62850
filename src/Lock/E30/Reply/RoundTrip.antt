-- ===== src/Lock/E30/Reply/RoundTrip.antt =====
-- Replies that a lock lays out as provider/e30-lock-protocol.ts reads them.
use eufy_mega_security.Prelude.{
  ℕ, zero, suc, ◌+◌, ◌-◌, ◌*◌, ◌/◌, ◌%◌, ◌≤◌, ◌<◌, ◌≡◌, ◌⊎◌, refl, ap, sym, ◌∙◌, inl, inr, Bool,
  true, false, ◌||◌, none, some, [], ◌∷◌, ◌++◌, arith, All, Eq_ℕ, nat_eq, nat_eq-true, nat_eq-false,
  ltb-false, le→leb, length, take, replicate, all, length-append, length-take, length-replicate,
  take-length_append, drop-length_append, beq-cases,
}
use mathlib.Core.List.{append_assoc, append-nil}
use eufy_mega_security.Prelude.Bytes.{Bytes, IsByte, byte_at, read_u16, read_u16-bytes, subarray}
use eufy_mega_security.Prelude.JsMap.{JsMap, get, put, Distinct}
use eufy_mega_security.Lock.E30.{
  LockIdentity, Cipher, IsCipher, align, cipher_key, cipher_iv, checksum, frame_body, frame_of,
  LockCommand,
}
use eufy_mega_security.Lock.E30.Reply.{
  Envelope, correlated, framed, is_zero, end_fields, bad_field, read_fields, read_plain,
  read_decrypted, decode_fields,
}

-- The fields of a reply as the lock lays them out: tag, length and value, one after the other.
unfoldable pub laid_out : JsMap ℕ Bytes → Bytes
laid_out [] = []
laid_out ((tag, value) ∷ m) = tag ∷ length value ∷ (value ++ laid_out m)

-- Tags from 0xa1 to 0xff, and values of 1 to 255 bytes.
abbrev pub Fields : JsMap ℕ Bytes → Type 0
Fields [] = Unit {0}
Fields ((tag, value) ∷ m) =
    ((161 ≤ tag) × (tag < 256))
    × ((1 ≤ length value) × (length value < 256))
    × (All IsByte value × Fields m)

zeros : (n : ℕ) → all is_zero (replicate n 0) ≡ true
unfolding is_zero
zeros zero = refl
zeros (suc n) = zeros n

put_new-append :
    (k : ℕ) (v : Bytes) (m : JsMap ℕ Bytes) → get k m ≡ none → put k v m ≡ m ++ ((k, v) ∷ [])
put_new-append k v [] h = refl
put_new-append k v ((j, w) ∷ m) h = ground (arith, beq-cases k j, put_new-append k v m)

get-append_none :
    (k : ℕ) (m n : JsMap ℕ Bytes) → get k (m ++ n) ≡ none → (get k m ≡ none) × (get k n ≡ none)
get-append_none k [] n h = (refl, h)
get-append_none k ((j, w) ∷ m) n h = ground (arith, beq-cases k j, get-append_none k m n)

Distinct-middle :
    (m : JsMap ℕ Bytes) (k : ℕ) (v : Bytes) (n : JsMap ℕ Bytes)
    → Distinct (m ++ ((k, v) ∷ n))
    → get k m ≡ none
Distinct-middle [] k v n d = refl
Distinct-middle ((j, w) ∷ m) k v n d = elim (beq-cases k j) [
  | inl (_, same) ↦
      absurd (ground (arith, (get-append_none j m ((k, v) ∷ n) d.0).1, same, beq-cases j k))
  | inr (apart, _) ↦ rw apart (Distinct-middle m k v n d.1)
]

end_lem : (n : ℕ) (m : JsMap ℕ Bytes) → n ≤ 15 → end_fields (replicate n 0) m ≡ some m
unfolding end_fields
end_lem n m h = rw (length-replicate {A = ℕ} n 0, ltb-false 15 n h, zeros n) refl

read_zeros : (fuel n : ℕ) (m : JsMap ℕ Bytes) → n ≤ 15 → read_fields fuel (replicate n 0) m ≡ some m
unfolding read_fields
read_zeros zero n m h = end_lem n m h
read_zeros (suc fuel) zero m h = end_lem zero m h
read_zeros (suc fuel) (suc zero) m h = end_lem (suc zero) m h
read_zeros (suc fuel) (suc (suc n)) m h = end_lem (suc (suc n)) m h

length-laid_out : (m : JsMap ℕ Bytes) → length m ≤ length (laid_out m)
unfolding laid_out
length-laid_out [] = omega arith
length-laid_out ((tag, value) ∷ m) =
    omega (arith, length-append value (laid_out m), length-laid_out m)

read-laid_out :
    (fuel n : ℕ) (m rest : JsMap ℕ Bytes)
    → n ≤ 15
    → length rest ≤ fuel
    → Fields rest
    → Distinct (m ++ rest)
    → read_fields fuel (laid_out rest ++ replicate n 0) m ≡ some (m ++ rest)
unfolding laid_out read_fields
read-laid_out fuel n m [] h f v d = rw (append-nil m) (read_zeros fuel n m h)
read-laid_out zero n m ((tag, value) ∷ rest) h f v d = absurd (omega arith)
read-laid_out (suc fuel) n m ((tag, value) ∷ rest) h f v d =
    let z = laid_out rest ++ replicate n 0 in
    let new = Distinct-middle m tag value rest d in
    let joins : (m ++ ((tag, value) ∷ [])) ++ rest ≡ m ++ ((tag, value) ∷ rest) =
      append_assoc m ((tag, value) ∷ []) rest in
    let good : bad_field tag (length value) (value ++ z) m ≡ false =
      unfold bad_field in
      rw
        (
          ltb-false tag 161 v.0.0,
          nat_eq-false (length value) 0 (λ e. omega (arith, e, v.1.0)),
          ltb-false (length (value ++ z)) (length value) (omega (arith, length-append value z)),
          new,
        )
        refl in
    let rest_read =
      read-laid_out fuel n (m ++ ((tag, value) ∷ [])) rest h (omega arith) v.2.1 (rw joins d) in
    rw
      (
        append_assoc value (laid_out rest) (replicate n 0),
        nat_eq-false tag 0 (λ e. omega (arith, e, v.0.0)),
        good,
        take-length_append value z,
        drop-length_append value z,
        put_new-append tag value m new,
      )
      (rest_read ∙ ap some joins)

read_plain-laid_out :
    (m : JsMap ℕ Bytes) (n : ℕ)
    → n ≤ 15
    → Fields m
    → Distinct m
    → read_plain (0 ∷ (laid_out m ++ replicate n 0)) ≡ some m
unfolding read_plain
read_plain-laid_out m n h v d =
    read-laid_out (length (laid_out m ++ replicate n 0)) n [] m h
      (omega (arith, length-append (laid_out m) (replicate n 0), length-laid_out m)) v d

align_lem :
    (tlv : Bytes)
    → (n : ℕ) × (n ≤ 15)
      × (align tlv ≡ tlv ++ replicate n 0)
      × (length (align tlv) % 16 ≡ 0)
      × (length (align tlv) ≤ length tlv + 15)
unfolding align
align_lem tlv =
    let n = (length tlv + 15) / 16 * 16 - length tlv in
    (
      n,
      omega arith,
      refl,
      omega (arith, length-append tlv (replicate n 0), length-replicate {A = ℕ} n 0),
      omega (arith, length-append tlv (replicate n 0), length-replicate {A = ℕ} n 0),
    )

get_or-last : (xs : Bytes) (y : ℕ) → byte_at (xs ++ (y ∷ [])) (length xs) ≡ y
get_or-last [] y = refl
get_or-last (x ∷ xs) y = get_or-last xs y

framed_lem :
    (opcode : ℕ) (f : Bytes)
    → (26 ≤ length f) × (length f ≤ 4096) × (length f % 16 ≡ 10)
    → (byte_at f 0 ≡ 255) × (byte_at f 1 ≡ 9) × (read_u16 f 2 ≡ length f)
    → (byte_at f 4 ≡ 3) × (byte_at f 5 ≡ 0) × (byte_at f 6 ≡ 2)
    → 256 * byte_at f 7 + byte_at f 8 ≡ 18432 + opcode
    → checksum (take (length f - 1) f) ≡ byte_at f (length f - 1)
    → framed opcode f ≡ true
unfolding framed
framed_lem opcode f (a, b, c) (p, q, r) (x, y, z) o s =
    rw
      (
        le→leb 26 (length f) a,
        le→leb (length f) 4096 b,
        nat_eq-true _ _ p,
        nat_eq-true _ _ q,
        nat_eq-true _ _ r,
        nat_eq-true _ _ x,
        nat_eq-true _ _ y,
        nat_eq-true _ _ z,
        nat_eq-true _ _ o,
        nat_eq-true ((length f - 10) % 16) 0 (omega (arith, a, c)),
        nat_eq-true _ _ s,
      )
      refl

framed-frame_of :
    (opcode : ℕ) (encrypted : Bytes)
    → opcode < 100
    → 16 ≤ length encrypted
    → length encrypted ≤ 4086
    → length encrypted % 16 ≡ 0
    → framed opcode (frame_of (18432 + opcode) encrypted) ≡ true
framed-frame_of opcode encrypted a b c d =
    let body = frame_body (18432 + opcode) encrypted in
    let f = frame_of (18432 + opcode) encrypted in
    let size : length body ≡ 9 + length encrypted = unfold frame_body in omega arith in
    let whole : length f ≡ length body + 1 =
      unfold frame_of in length-append body (checksum body ∷ []) in
    let whole_less : length f - 1 ≡ length body = omega (arith, whole) in
    let total : 10 + length encrypted ≡ length f = omega (arith, size, whole) in
    framed_lem opcode f
      (omega (arith, size, whole), omega (arith, size, whole), omega (arith, size, whole))
      (
        unfold frame_of in refl,
        unfold frame_of in refl,
        unfold frame_of in read_u16-bytes (10 + length encrypted) (omega arith) ∙ total,
      )
      (unfold frame_of in refl, unfold frame_of in refl, unfold frame_of in refl)
      (unfold frame_of in omega arith)
      (rw whole_less (
        unfold frame_of in
        ap checksum (take-length_append body (checksum body ∷ []))
        ∙ sym (get_or-last body (checksum body))))

cut-frame_of :
    (code : ℕ) (encrypted : Bytes)
    → subarray (frame_of code encrypted) 9 (length (frame_of code encrypted) - 1) ≡ encrypted
unfolding frame_of frame_body
cut-frame_of code encrypted =
    let c = checksum (frame_body code encrypted) in
    let size : length (encrypted ++ (c ∷ [])) ≡ length encrypted + 1 =
      length-append encrypted (c ∷ []) in
    let count : 9 + length (encrypted ++ (c ∷ [])) - 1 - 9 ≡ length encrypted =
      omega (arith, size) in
    ap (λ (n : ℕ). take n (encrypted ++ (c ∷ []))) {x = length (frame_of code encrypted) - 1 - 9}
      (omega (arith, size))
    ∙ take-length_append encrypted (c ∷ [])

length-cipher_iv : (i : LockIdentity) → length (cipher_iv i) ≡ 16
unfolding cipher_iv
length-cipher_iv i =
    omega
      (arith, length-take 16 (i.serial ++ replicate 16 0), length-append i.serial (replicate 16 0))

module _ (c : Cipher) (i : LockIdentity) (q : LockCommand) where
  -- The frame that answers `q` with these fields: a status byte 0, the fields and zeros up to a
  -- multiple of 16, encrypted under the request's key.
  pub answer : JsMap ℕ Bytes → Bytes
  answer m =
      frame_of (18432 + q.opcode)
        (c.encrypt (cipher_key i q.key_time) (cipher_iv i) (align (0 ∷ laid_out m)))

-- A reply that is correlated with a query and carries fields of distinct tags from 0xa1 to 0xff, with
-- values of 1 to 255 bytes and 4000 bytes in all, laid out, encrypted and framed as the lock does, is decoded to those
-- fields, none lost and in their order.
pub decode_fields-answer :
    (c : Cipher) (i : LockIdentity) (q : LockCommand) (for_settings : Bool) (e : Envelope)
    (m : JsMap ℕ Bytes)
    → IsCipher c
    → (q.opcode ≡ 34) ⊎ (q.opcode ≡ 53)
    → length (cipher_key i q.key_time) ≡ 16
    → correlated i q for_settings e ≡ true
    → e.frame ≡ answer c i q m
    → Fields m
    → Distinct m
    → length (laid_out m) ≤ 4000
    → decode_fields c i q for_settings e ≡ some m
unfolding decode_fields answer
decode_fields-answer c i q for_settings e m law op key cor fr v d size =
    let plain = align (0 ∷ laid_out m) in
    let (n, small, form, even, short) = align_lem (0 ∷ laid_out m) in
    let sealed = c.encrypt (cipher_key i q.key_time) (cipher_iv i) plain in
    let long = law.padded (cipher_key i q.key_time) (cipher_iv i) plain key (length-cipher_iv i) in
    let back = law.inverse (cipher_key i q.key_time) (cipher_iv i) plain key (length-cipher_iv i) in
    let asked : (nat_eq q.opcode 34 || nat_eq q.opcode 53) ≡ true = ground arith in
    let shape : framed q.opcode e.frame ≡ true = rw fr (
      framed-frame_of q.opcode sealed (ground arith) (omega (arith, long, even))
        (omega (arith, long, short, size)) (omega (arith, long))) in
    rw
      (
        asked,
        cor,
        shape,
        nat_eq-true _ _ key,
        fr,
        cut-frame_of (18432 + q.opcode) sealed,
        back,
        form,
      )
      (unfold read_decrypted in read_plain-laid_out m n small v d)
