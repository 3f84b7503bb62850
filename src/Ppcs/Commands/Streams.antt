-- ===== src/Ppcs/Commands/Streams.antt =====
-- Streams of commands cut into datagrams, as `#consumeData` of stream/first-party-ppcs.ts puts them together.
pub mod Chunks
mod Markers
pub mod Reassembly
use native.Mathlib.Decide.{dec_lt}
use eufy_mega_security.Prelude.{
  ℕ, zero, suc, ◌+◌, ◌≤◌, ◌<◌, ◌≡◌, refl, ap, ◌⊎◌, inl, inr, true, some, List, [], ◌∷◌, ◌++◌, arith,
  All, ltb, lt→ltb, le→leb, ltb-false, leb-false, if◌then◌else◌, length, take, drop, length-append,
  take-length_append, drop-length_append,
}
use eufy_mega_security.Prelude.Bytes.{Bytes, bytes_eq, read_u16, read_u32}
use eufy_mega_security.Ppcs.Commands.{
  command_magic, ParserStats, Frame, begins_with_magic, count_command, goes_on, halts, Scan,
  before_scan, max_command_bytes, scan_commands,
}

-- A command as the peer sends it: a header of 16 bytes with the marker and the payload's length.
pub record WellFormed (f : Frame) : Type 0 where
  pub sixteen : length f.header ≡ 16
  pub marked : begins_with_magic f.header ≡ true
  pub sized : read_u32 f.header 6 ≡ length f.payload
  pub small : length f.payload ≤ 16777216

unfoldable pub flat : List Frame → Bytes
flat [] = []
flat (f ∷ fs) = f.header ++ (f.payload ++ flat fs)

pub suffix_of :
    (zs xs ys ws : Bytes)
    → xs ++ ys ≡ zs ++ ws
    → length zs ≤ length xs
    → (us : Bytes) × (xs ≡ zs ++ us) × (us ++ ys ≡ ws)
suffix_of [] xs ys ws e h = (xs, refl, e)
suffix_of (z ∷ zs) [] ys ws e h = absurd (omega arith)
suffix_of (z ∷ zs) (x ∷ xs) ys ws e h =
    let (us, p, q) = suffix_of zs xs ys ws (cc) (omega arith) in (us, cc, q)

pub prefix_of :
    (xs ys zs ws : Bytes) → xs ++ ys ≡ zs ++ ws → length xs ≤ length zs → xs ≡ take (length xs) zs
prefix_of [] ys zs ws e h = refl
prefix_of (x ∷ xs) ys [] ws e h = absurd (omega arith)
prefix_of (x ∷ xs) ys (z ∷ zs) ws e h = let p = prefix_of xs ys zs ws (cc) (omega arith) in cc

pub take-append_le : (n : ℕ) (xs ys : Bytes) → n ≤ length xs → take n (xs ++ ys) ≡ take n xs
take-append_le zero xs ys h = refl
take-append_le (suc n) [] ys h = absurd (omega arith)
take-append_le (suc n) (x ∷ xs) ys h = ap (◌∷◌ x) (take-append_le n xs ys (omega arith))

begins-append : (h us : Bytes) → 4 ≤ length h → begins_with_magic (h ++ us) ≡ begins_with_magic h
unfolding begins_with_magic
begins-append h us l = ap (λ b. bytes_eq b command_magic) (take-append_le 4 h us l)

take_sixteen : (h us : Bytes) → length h ≡ 16 → take 16 (h ++ us) ≡ h
take_sixteen h us e = rw (← e) (take-length_append h us)

drop_sixteen : (h us : Bytes) → length h ≡ 16 → drop 16 (h ++ us) ≡ us
drop_sixteen h us e = rw (← e) (drop-length_append h us)

flat-nil : length (flat []) ≡ 0
unfolding flat
flat-nil = refl

-- What a scan of a prefix of a stream finds: whole commands, and a part of the next one.
pub record Found (fs : List Frame) (rest : Bytes) (r : Scan) : Type 0 where
  pub later : List Frame
  pub whole : fs ≡ r.frames ++ later
  pub valid : All WellFormed later
  pub left :
      ((r.halt ≡ goes_on) × (length r.body < 16) × (r.body ++ rest ≡ flat later))
      ⊎ ((header : Bytes) × (payload : Bytes) × (r.halt
            ≡ halts (some (record { header = some header; payload = payload })))
          × (length header ≡ 16)
          × (length payload < read_u32 header 6)
          × (header ++ (payload ++ rest) ≡ flat later))

counted : Frame → ParserStats → ParserStats
counted f s = count_command (read_u16 f.header 4) (length f.payload) s

scan_step :
    (fuel : ℕ) (f : Frame) (us : Bytes) (s : ParserStats)
    → WellFormed f
    → scan_commands (suc fuel) (f.header ++ us) s ≡ (
        if ltb (length us) (length f.payload)
        then record {
          frames = [];
          stats = counted f s;
          body = f.header ++ us;
          halt = halts (some (record { header = some f.header; payload = us }));
        }
        else before_scan
            (record { header = f.header; payload = take (length f.payload) us })
            (scan_commands fuel (drop (length f.payload) us) (counted f s)))
unfolding scan_commands max_command_bytes counted
scan_step fuel f us s w =
    let long : 16 ≤ length (f.header ++ us) = omega (arith, length-append f.header us, w.sixteen) in
    rw
      (
        le→leb 16 (length (f.header ++ us)) long,
        begins-append f.header us (omega (arith, w.sixteen)),
        w.marked,
        take_sixteen f.header us w.sixteen,
        drop_sixteen f.header us w.sixteen,
        w.sized,
        ltb-false 16777216 (length f.payload) w.small,
      )
      refl

Found-short :
    (fs : List Frame) (rest body : Bytes) (s : ParserStats)
    → All WellFormed fs
    → length body < 16
    → body ++ rest ≡ flat fs
    → Found fs rest (record { frames = []; stats = s; body = body; halt = goes_on })
Found-short fs rest body s v short e = record {
  later = fs;
  whole = refl;
  valid = v;
  left = inl (refl, short, e);
}

Found-part :
    (f : Frame) (fs : List Frame) (rest us body : Bytes) (s : ParserStats)
    → All WellFormed (f ∷ fs)
    → length us < length f.payload
    → us ++ rest ≡ f.payload ++ flat fs
    → Found (f ∷ fs) rest (record {
      frames = [];
      stats = s;
      body = body;
      halt = halts (some (record { header = some f.header; payload = us }));
    })
unfolding flat
Found-part f fs rest us body s v l q =
    let w = v.0 in
    record {
      later = f ∷ fs;
      whole = refl;
      valid = v;
      left = inr (f.header, us, refl, w.sixteen, omega (arith, w.sized), ap (◌++◌ f.header) q);
    }

Found-more :
    (f : Frame) (fs : List Frame) (rest : Bytes) (r : Scan)
    → Found fs rest r
    → Found (f ∷ fs) rest (before_scan f r)
unfolding before_scan
Found-more f fs rest r n = record {
  later = n.later;
  whole = ap (◌∷◌ f) n.whole;
  valid = n.valid;
  left = n.left;
}

scan_short :
    (fuel : ℕ) (body : Bytes) (s : ParserStats)
    → length body < 16
    → scan_commands fuel body s ≡ record { frames = []; stats = s; body = body; halt = goes_on }
unfolding scan_commands
scan_short zero body s h = refl
scan_short (suc fuel) body s h = rw (leb-false 16 (length body) h) refl

pub scan-Found :
    (fuel : ℕ) (body rest : Bytes) (fs : List Frame) (s : ParserStats)
    → length body ≤ fuel
    → All WellFormed fs
    → body ++ rest ≡ flat fs
    → Found fs rest (scan_commands fuel body s)
unfolding flat
scan-Found zero body rest fs s h v e =
    rw (scan_short zero body s (omega arith)) (Found-short fs rest body s v (omega arith) e)
scan-Found (suc fuel) body rest [] s h v e =
    let short : length body < 16 = omega (arith, length-append body rest, ap length e, flat-nil) in
    rw (scan_short (suc fuel) body s short) (Found-short [] rest body s v short e)
scan-Found (suc fuel) body rest (f ∷ fs) s h v e = elim (dec_lt (length body) 16) [
  | yes short ↦ rw (scan_short (suc fuel) body s short) (Found-short (f ∷ fs) rest body s v short e)
  | no long ↦
      let w = v.0 in
      let (us, p, q) =
        suffix_of f.header body rest (f.payload ++ flat fs) e (omega (arith, w.sixteen)) in
      rw (p, scan_step fuel f us s w)
        (elim (dec_lt (length us) (length f.payload)) [
          | yes part ↦
              rw (lt→ltb (length us) (length f.payload) part)
                (Found-part f fs rest us (f.header ++ us) (counted f s) v part q)
          | no whole ↦
              let (vs, p', q') = suffix_of f.payload us rest (flat fs) q (omega arith) in
              let sizes : length body ≡ 16 + length f.payload + length vs =
                rw (p, p')
                  (omega (
                    arith,
                    w.sixteen,
                    length-append f.header (f.payload ++ vs),
                    length-append f.payload vs,
                  )) in
              rw
                (
                  ltb-false (length us) (length f.payload) (omega arith),
                  p',
                  take-length_append f.payload vs,
                  drop-length_append f.payload vs,
                )
                (Found-more f fs rest _
                  (scan-Found fuel vs rest fs (counted f s) (omega (arith, sizes)) v.1 q'))
        ])
]
