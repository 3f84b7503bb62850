-- ===== src/Ppcs/AccessUnits/Conservation.antt =====
-- The accounting of the bytes that PpcsAccessUnitAssembler takes in.
use eufy_mega_security.Prelude.{
  ℕ, ◌+◌, ◌≤◌, ◌≡◌, ◌⊎◌, refl, arith, Bool, Option, none, some, List, [], ◌∷◌, ◌++◌, ltb, length,
  length-append, inl, inr, Bool-cases, Option-cases,
}
use eufy_mega_security.Prelude.Bytes.{Bytes}
use eufy_mega_security.Ppcs.AccessUnits.{
  FrameHeader, AccessUnit, Dropped, OpenUnit, Assembler, Pushed, concat, begin_unit, continue_unit,
  joins, place, emit, push_body, reset, decoded, push, max_access_unit_bytes,
}

abbrev pub UnitInv : Option OpenUnit → Type 0
UnitInv none = Unit {0}
UnitInv (some u) =
    (u.carried_bytes ≡ length (concat u.chunks))
    × ((length u.chunks ≡ 1) ⊎ (u.carried_bytes ≤ max_access_unit_bytes))

abbrev pub open_bytes : Option OpenUnit → ℕ
open_bytes none = 0
open_bytes (some u) = u.carried_bytes

abbrev pub unit_bytes : List AccessUnit → ℕ
unit_bytes [] = 0
unit_bytes (u ∷ us) = length u.content + unit_bytes us

abbrev pub dropped_bytes : List Dropped → ℕ
dropped_bytes [] = 0
dropped_bytes (d ∷ ds) = d.carried_bytes + dropped_bytes ds

-- A push that was given `input` decoded bytes with `held` bytes open.
record Balanced (held input : ℕ) (before : Assembler) (p : Pushed) : Type 0 where
  kept : UnitInv p.assembler.open_unit
  balance :
      held + input ≡ open_bytes p.assembler.open_unit + unit_bytes p.units + dropped_bytes p.drops
  counted : p.assembler.total_dropped ≡ before.total_dropped + length p.drops

concat-snoc :
    (cs : List Bytes) (c : Bytes) → length (concat (cs ++ c ∷ [])) ≡ length (concat cs) + length c
concat-snoc [] c = omega (arith, length-append c [])
concat-snoc (d ∷ cs) c =
    omega (
      arith,
      length-append d (concat (cs ++ c ∷ [])),
      length-append d (concat cs),
      concat-snoc cs c,
    )

module _ (h : FrameHeader) (body : Bytes) where
  begin_unit-Balanced :
      (o : Option OpenUnit) (a : Assembler)
      → a.open_unit ≡ o
      → Balanced (open_bytes o) (length body) a (begin_unit h body a)
  unfolding begin_unit
  begin_unit-Balanced none a e = ground (arith, e, length-append body [])
  begin_unit-Balanced (some u) a e = ground (arith, e, length-append body [])

  continue_unit-Balanced :
      (u : OpenUnit) (a : Assembler)
      → a.open_unit ≡ some u
      → UnitInv (some u)
      → Balanced u.carried_bytes (length body) a (continue_unit h body u a)
  continue_unit-Balanced u a e v =
      elim (Bool-cases (ltb max_access_unit_bytes (u.carried_bytes + length body))) [
        | inl over ↦ unfold continue_unit in rw over (begin_unit-Balanced (some u) a e)
        | inr fits ↦
            unfold continue_unit in rw fits (ground (arith, fits, concat-snoc u.chunks body, v.0))
      ]

  place-Balanced :
      (o : Option OpenUnit) (a : Assembler)
      → a.open_unit ≡ o
      → UnitInv o
      → Balanced (open_bytes o) (length body) a (place h body o a)
  place-Balanced none a e v = unfold place in begin_unit-Balanced none a e
  place-Balanced (some u) a e v = elim (Bool-cases (joins h body u)) [
    | inl more ↦ unfold place in rw more (continue_unit-Balanced u a e v)
    | inr new ↦ unfold place in rw new (begin_unit-Balanced (some u) a e)
  ]

  emit-Balanced :
      (o : Option OpenUnit) (a : Assembler)
      → a.open_unit ≡ o
      → Balanced (open_bytes o) (length body) a (emit h body a)
  unfolding emit
  emit-Balanced none a e = ground (arith, e)
  emit-Balanced (some u) a e = ground (arith, e)

  push_body-Balanced :
      (a : Assembler)
      → UnitInv a.open_unit
      → Balanced (open_bytes a.open_unit) (length body) a (push_body h body a)
  push_body-Balanced a v = elim (Bool-cases a.emit_chunks) [
    | inl each ↦
        let e : push_body h body a ≡ emit h body a = unfold push_body in ground (arith, each) in
        rw e (emit-Balanced a.open_unit a refl)
    | inr whole ↦
        let e : push_body h body a ≡ place h body a.open_unit a =
          unfold push_body in ground (arith, whole) in
        rw e (place-Balanced a.open_unit a refl v)
  ]

reset-Balanced :
    (o : Option OpenUnit) (a : Assembler) → a.open_unit ≡ o → Balanced (open_bytes o) 0 a (reset a)
unfolding reset
reset-Balanced none a e = ground (arith, e)
reset-Balanced (some u) a e = ground (arith, e)

-- The bytes that a payload brings.
abbrev pub input_bytes : (Bytes → Option Bytes) → Bytes → ℕ
input_bytes decode payload = elim (decoded decode payload) [
  | none ↦ 0
  | some (h, body) ↦ length body
]

push-Balanced :
    (decode : Bytes → Option Bytes) (payload : Bytes) (a : Assembler)
    → UnitInv a.open_unit
    → Balanced (open_bytes a.open_unit) (input_bytes decode payload) a (push decode payload a)
push-Balanced decode payload a v = elim (Option-cases (decoded decode payload)) [
  | inl e ↦
      let q : push decode payload a ≡ reset a = unfold push in rw (e, push) refl in
      let i : input_bytes decode payload ≡ 0 = ground (arith, e) in
      rw (q, i) (reset-Balanced a.open_unit a refl)
  | inr ((h, body), e) ↦
      let q : push decode payload a ≡ push_body h body a = unfold push in rw (e, push) refl in
      let i : input_bytes decode payload ≡ length body = ground (arith, e) in
      rw (q, i) (push_body-Balanced h body a v)
]

-- The outcome of a session: the last state, and all units and drops in order.
abbrev pub run : (Bytes → Option Bytes) → List Bytes → Assembler → Pushed
run decode [] a = record { assembler = a; units = []; drops = [] }
run decode (p ∷ ps) a =
    let q = push decode p a in
    let r = run decode ps q.assembler in
    record { assembler = r.assembler; units = q.units ++ r.units; drops = q.drops ++ r.drops }

abbrev pub total_input : (Bytes → Option Bytes) → List Bytes → ℕ
total_input decode [] = 0
total_input decode (p ∷ ps) = input_bytes decode p + total_input decode ps

unit_bytes-append :
    (xs ys : List AccessUnit) → unit_bytes (xs ++ ys) ≡ unit_bytes xs + unit_bytes ys
unit_bytes-append [] ys = omega arith
unit_bytes-append (x ∷ xs) ys = omega (arith, unit_bytes-append xs ys)

dropped_bytes-append :
    (xs ys : List Dropped) → dropped_bytes (xs ++ ys) ≡ dropped_bytes xs + dropped_bytes ys
dropped_bytes-append [] ys = omega arith
dropped_bytes-append (x ∷ xs) ys = omega (arith, dropped_bytes-append xs ys)

run-Balanced :
    (decode : Bytes → Option Bytes) (ps : List Bytes) (a : Assembler)
    → UnitInv a.open_unit
    → Balanced (open_bytes a.open_unit) (total_input decode ps) a (run decode ps a)
run-Balanced decode [] a v = record { kept = v; balance = omega arith; counted = omega arith }
run-Balanced decode (p ∷ ps) a v =
    let q = push decode p a in
    let b = push-Balanced decode p a v in
    let r = run decode ps q.assembler in
    let c = run-Balanced decode ps q.assembler b.kept in
    record {
      kept = c.kept;
      balance = omega (
        arith,
        b.balance,
        c.balance,
        unit_bytes-append q.units r.units,
        dropped_bytes-append q.drops r.drops,
      );
      counted = omega (arith, b.counted, c.counted, length-append q.drops r.drops);
    }

abbrev pub fresh : Bool → Assembler
fresh emit_chunks = record { open_unit = none; total_dropped = 0; emit_chunks = emit_chunks }

-- In any session and either mode, the decoded bytes are those of the units delivered, those reported as
-- dropped and those of the unit that is still open; as many drops were reported as are counted, the open
-- unit's counter is the size of its chunks, and it exceeds 16 MiB only as a single chunk.
pub run_conserves :
    (decode : Bytes → Option Bytes) (payloads : List Bytes) (emit_chunks : Bool)
    → let p = run decode payloads (fresh emit_chunks) in
      (total_input decode payloads
        ≡ open_bytes p.assembler.open_unit + unit_bytes p.units + dropped_bytes p.drops)
      × (p.assembler.total_dropped ≡ length p.drops)
      × UnitInv p.assembler.open_unit
run_conserves decode payloads emit_chunks =
    let b = run-Balanced decode payloads (fresh emit_chunks) tt in
    (omega (arith, b.balance), omega (arith, b.counted), b.kept)
