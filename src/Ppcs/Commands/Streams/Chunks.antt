-- ===== src/Ppcs/Commands/Streams/Chunks.antt =====
-- The datagrams of a stream of commands, one after the other, through `#consumeData` of
-- stream/first-party-ppcs.ts.
use native.Mathlib.Decide.{dec_lt}
use mathlib.Core.List.{append_assoc, append-nil}
use eufy_mega_security.Prelude.{
  ℕ, zero, suc, ◌<◌, ◌≡◌, refl, sym, ap, ◌∙◌, inl, inr, Option, none, some, List, [], ◌∷◌, ◌++◌,
  arith, All, lt→ltb, ltb-false, nat_eq-false, Eq_ℕ, length, take, drop, length-append,
  take-length_append, drop-length_append,
}
use eufy_mega_security.Prelude.Bytes.{Bytes, read_u16, read_u32}
use eufy_mega_security.Ppcs.Commands.{
  PendingFrame, ParserStats, Frame, magic_offset, count_command, goes_on, Scan, before_scan,
  scan_commands, Consumed, settle_scan, frames_before, try_resync, finish_scan, consume_body,
  complete_carried, consume_carried, consume,
}
use eufy_mega_security.Ppcs.Commands.Streams.{WellFormed, flat, Found, scan-Found, suffix_of}
use eufy_mega_security.Ppcs.Commands.Streams.Markers.{no_offset, IsPart-of_header}

-- What is pending, followed by the rest of the stream, is the stream from the command that it starts.
pub HoldsPart : Option Bytes → Bytes → Bytes → List Frame → Type 0
HoldsPart none part rest later =
    (0 < length part) × (length part < 16) × (part ++ rest ≡ flat later)
HoldsPart (some header) part rest later =
    (length header ≡ 16)
    × (length part < read_u32 header 6)
    × (header ++ (part ++ rest) ≡ flat later)

pub Holding : Option PendingFrame → Bytes → List Frame → Type 0
Holding none rest later = rest ≡ flat later
Holding (some p) rest later = HoldsPart p.header p.payload rest later

-- No marker was searched for and nothing was given up.
pub record Calm (s t : ParserStats) : Type 0 where
  pub same_resyncs : t.parser_resyncs ≡ s.parser_resyncs
  pub same_blocked : t.parser_blocked ≡ s.parser_blocked

pub record Kept (s : ParserStats) (fs : List Frame) (rest : Bytes) (c : Consumed) : Type 0 where
  pub later : List Frame
  pub whole : fs ≡ c.frames ++ later
  pub valid : All WellFormed later
  pub holding : Holding c.pending rest later
  pub calm : Calm s c.stats

scan-Calm : (fuel : ℕ) (body : Bytes) (s : ParserStats) → Calm s (scan_commands fuel body s).stats
unfolding scan_commands count_command before_scan
scan-Calm zero body s = record { same_resyncs = refl; same_blocked = refl }
scan-Calm (suc fuel) body s =
    let size = read_u32 (take 16 body) 6 in
    let later =
      scan-Calm fuel (drop size (drop 16 body))
        (count_command (read_u16 (take 16 body) 4) size s) in
    record {
      same_resyncs = ground (arith, later.same_resyncs);
      same_blocked = ground (arith, later.same_blocked);
    }

nil_of_length : (b : Bytes) → length b ≡ 0 → b ≡ []
nil_of_length [] h = refl
nil_of_length (x ∷ b) h = absurd (omega arith)

settle-Kept :
    (s : ParserStats) (fs later : List Frame) (rest : Bytes) (r : Scan)
    → fs ≡ r.frames ++ later
    → All WellFormed later
    → length r.body < 16
    → r.body ++ rest ≡ flat later
    → Calm s r.stats
    → Kept s fs rest (settle_scan goes_on r)
unfolding settle_scan Holding HoldsPart
settle-Kept s fs later rest r w v short e calm = elim (dec_lt 0 (length r.body)) [
  | yes some_left ↦
      let part = IsPart-of_header r.body rest later some_left short v e in
      rw (nat_eq-false (length r.body) 0 (λ z. omega (arith, z)), part.kept)
        (record {
          later = later;
          whole = w;
          valid = v;
          holding = (some_left, short, e);
          calm = calm;
        })
  | no nothing ↦
      let z : length r.body ≡ 0 = omega arith in
      rw z (record {
        later = later;
        whole = w;
        valid = v;
        holding = ap (λ b. b ++ rest) (sym (nil_of_length r.body z)) ∙ e;
        calm = calm;
      })
]

try-Kept :
    (s : ParserStats) (fs later : List Frame) (rest : Bytes) (r : Scan)
    → fs ≡ r.frames ++ later
    → All WellFormed later
    → length r.body < 16
    → r.body ++ rest ≡ flat later
    → Calm s r.stats
    → Kept s fs rest (try_resync (magic_offset r.body) r)
unfolding try_resync
try-Kept s fs later rest r w v short e calm =
    let settled = settle-Kept s fs later rest r w v short e calm in
    elim (dec_lt 0 (length r.body)) [
      | yes some_left ↦ elim (IsPart-of_header r.body rest later some_left short v e).no_marker [
        | inl missing ↦ rw missing settled
        | inr at_start ↦ rw at_start settled
      ]
      | no nothing ↦ rw (no_offset r.body (omega arith)) settled
    ]

finish-Kept :
    (s : ParserStats) (fs : List Frame) (rest : Bytes) (r : Scan)
    → Found fs rest r
    → Calm s r.stats
    → Kept s fs rest (finish_scan r.halt r)
unfolding finish_scan settle_scan Holding HoldsPart
finish-Kept s fs rest r f calm = elim f.left [
  | inr (header, payload, halted, sixteen, shorter, stream) ↦ simp (halted) (record {
    later = f.later;
    whole = f.whole;
    valid = f.valid;
    holding = (sixteen, shorter, stream);
    calm = calm;
  })
  | inl (going, short, stream) ↦
      simp (going) (try-Kept s fs f.later rest r f.whole f.valid short stream calm)
]

consume_body-Kept :
    (s : ParserStats) (fs : List Frame) (body rest : Bytes)
    → All WellFormed fs
    → body ++ rest ≡ flat fs
    → Kept s fs rest (consume_body body s)
unfolding consume_body
consume_body-Kept s fs body rest v e =
    let r = scan_commands (length body) body s in
    finish-Kept s fs rest r (scan-Found (length body) body rest fs s (omega arith) v e)
      (scan-Calm (length body) body s)

header_of :
    (h more : Bytes) (fs : List Frame)
    → length h ≡ 16
    → All WellFormed fs
    → h ++ more ≡ flat fs
    → (f : Frame) × (later : List Frame) × (fs ≡ f ∷ later)
      × (h ≡ f.header)
      × (more ≡ f.payload ++ flat later)
      × WellFormed f
      × All WellFormed later
unfolding flat
header_of h more [] l v e = absurd (omega (arith, length-append h more, ap length e))
header_of h more (f ∷ fs) l v e =
    let w = v.0 in
    let (us, p, q) =
      suffix_of f.header h more (f.payload ++ flat fs) e (omega (arith, w.sixteen)) in
    let nothing : us ≡ [] =
      nil_of_length us (omega (arith, ap length p, length-append f.header us, w.sixteen)) in
    (
      f,
      fs,
      refl,
      p ∙ ap (◌++◌ f.header) nothing ∙ append-nil f.header,
      ap (λ b. b ++ more) (sym nothing) ∙ q,
      w,
      v.1,
    )

complete_step :
    (f : Frame) (vs : Bytes) (s : ParserStats)
    → WellFormed f
    → complete_carried f.header (f.payload ++ vs) s ≡ frames_before (f ∷ []) (consume_body vs s)
unfolding complete_carried
complete_step f vs s w =
    rw
      (
        w.sized,
        ltb-false (length (f.payload ++ vs)) (length f.payload)
            (omega (arith, length-append f.payload vs)),
        take-length_append f.payload vs,
        drop-length_append f.payload vs,
      )
      refl

one_more :
    (s : ParserStats) (f : Frame) (later : List Frame) (rest : Bytes) (c : Consumed)
    → Kept s later rest c
    → Kept s (f ∷ later) rest (frames_before (f ∷ []) c)
unfolding frames_before
one_more s f later rest c k = record {
  later = k.later;
  whole = ap (◌∷◌ f) k.whole;
  valid = k.valid;
  holding = k.holding;
  calm = k.calm;
}

complete_found :
    (s : ParserStats) (f : Frame) (later fs : List Frame) (header payload vs rest : Bytes)
    → WellFormed f
    → All WellFormed later
    → fs ≡ f ∷ later
    → header ≡ f.header
    → payload ≡ f.payload ++ vs
    → vs ++ rest ≡ flat later
    → Kept s fs rest (complete_carried header payload s)
complete_found s f later fs header payload vs rest w v g h p q =
    rw (g, h, p, complete_step f vs s w)
      (one_more s f later rest (consume_body vs s) (consume_body-Kept s later vs rest v q))

complete-Kept :
    (s : ParserStats) (fs : List Frame) (header payload rest : Bytes)
    → All WellFormed fs
    → length header ≡ 16
    → header ++ (payload ++ rest) ≡ flat fs
    → Kept s fs rest (complete_carried header payload s)
unfolding complete_carried
complete-Kept s fs header payload rest v l e = elim (dec_lt (length payload) (read_u32 header 6)) [
  | yes part ↦ rw (lt→ltb (length payload) (read_u32 header 6) part) (record {
    later = fs;
    whole = refl;
    valid = v;
    holding = unfold Holding HoldsPart in (l, part, e);
    calm = record { same_resyncs = refl; same_blocked = refl };
  })
  | no whole ↦
      let (f, later, g, h, q, w, v') = header_of header (payload ++ rest) fs l v e in
      let size : read_u32 header 6 ≡ length f.payload = ap (λ b. read_u32 b 6) h ∙ w.sized in
      let (vs, p, q') = suffix_of f.payload payload rest (flat later) q (omega (arith, size)) in
      complete_found s f later fs header payload vs rest w v' g h p q'
]

carried-Kept :
    (header : Option Bytes) (part : Bytes) (s : ParserStats) (fs : List Frame) (body rest : Bytes)
    → All WellFormed fs
    → HoldsPart header part (body ++ rest) fs
    → Kept s fs rest (consume_carried header part body s)
unfolding consume_carried HoldsPart
carried-Kept none part s fs body rest v h =
    consume_body-Kept s fs (part ++ body) rest v (append_assoc part body rest ∙ h.2)
carried-Kept (some header) part s fs body rest v h =
    complete-Kept s fs header (part ++ body) rest v h.0
      (ap (◌++◌ header) (append_assoc part body rest) ∙ h.2)

-- One datagram of a stream.
pub consume-Kept :
    (pending : Option PendingFrame) (s : ParserStats) (fs : List Frame) (body rest : Bytes)
    → All WellFormed fs
    → Holding pending (body ++ rest) fs
    → Kept s fs rest (consume pending body s)
unfolding consume Holding
consume-Kept none s fs body rest v h = consume_body-Kept s fs body rest v h
consume-Kept (some p) s fs body rest v h = carried-Kept p.header p.payload s fs body rest v h

-- At the end of a stream nothing is pending.
none_left :
    (header : Option Bytes) (part : Bytes) (fs : List Frame)
    → All WellFormed fs
    → HoldsPart header part [] fs
    → ⊥
unfolding HoldsPart flat
none_left none part [] v h = absurd (omega (arith, length-append part [], ap length h.2, h.0))
none_left none part (f ∷ fs) v h =
    let w = v.0 in
    absurd (
      omega (
        arith,
        length-append part [],
        ap length h.2,
        h.1,
        w.sixteen,
        length-append f.header (f.payload ++ flat fs),
      ))
none_left (some header) part fs v h =
    let (f, later, g, e, q, w, v') = header_of header (part ++ []) fs h.0 v h.2 in
    let size : read_u32 header 6 ≡ length f.payload = ap (λ b. read_u32 b 6) e ∙ w.sized in
    let whole : length (part ++ []) ≡ length (f.payload ++ flat later) = ap length q in
    absurd
      (omega (arith, h.1, size, whole, length-append part [], length-append f.payload (flat later)))

pub Holding-none : (rest : Bytes) (fs : List Frame) → rest ≡ flat fs → Holding none rest fs
unfolding Holding
Holding-none rest fs e = e

pub Holding-end :
    (pending : Option PendingFrame) (fs : List Frame)
    → All WellFormed fs
    → Holding pending [] fs
    → (pending ≡ none) × (fs ≡ [])
unfolding Holding flat
Holding-end none [] v h = (refl, refl)
Holding-end none (f ∷ fs) v h =
    let w = v.0 in
    absurd (omega (arith, ap length h, w.sixteen, length-append f.header (f.payload ++ flat fs)))
Holding-end (some p) fs v h = absurd (none_left p.header p.payload fs v h)
