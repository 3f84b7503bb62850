-- ===== src/Ppcs/AccessUnits/Reassembly.antt =====
-- A split access unit in PpcsAccessUnitAssembler.
use eufy_mega_security.Prelude.{
  ℕ, ◌+◌, ◌≤◌, ◌≡◌, refl, arith, Bool, true, false, Option, none, some, List, [], ◌∷◌, ◌++◌, nat_eq,
  if◌then◌else◌, length, length-append,
}
use mathlib.Core.List.{append_assoc}
use eufy_mega_security.Prelude.Bytes.{Bytes}
use eufy_mega_security.Ppcs.AccessUnits.{
  FrameHeader, OpenUnit, Assembler, Pushed, concat, discard, begin_unit, continue_unit,
  same_access_unit, begins_access_unit, joins, place, push_body, decoded, push, unit_of,
  max_access_unit_bytes, station_chunk_bytes,
}
use eufy_mega_security.Ppcs.AccessUnits.Conservation.{run}

-- A payload of the unit that `first` opens: its header and its decoded body.
abbrev pub Chunk : Type 0
Chunk = Bytes × FrameHeader × Bytes

module _ (decode : Bytes → Option Bytes) (first : FrameHeader) where
  -- A full chunk, or the tail, that continues the unit.
  pub record Continues (full : Bool) (payload : Bytes) (h : FrameHeader) (body : Bytes)
      : Type 0 where
    pub decodes : decoded decode payload ≡ some (h, body)
    pub same : same_access_unit first h ≡ true
    pub inside : begins_access_unit body ≡ false
    pub size : nat_eq h.payload_length station_chunk_bytes ≡ full

  -- Full chunks, with the bodies that they decode to.
  pub data Middle : List Bytes → List Bytes → Type 0 where
    done : Middle [] []
    more :
        {payload body : Bytes} {payloads bodies : List Bytes} (h : FrameHeader)
        → Continues true payload h body
        → Middle payloads bodies
        → Middle (payload ∷ payloads) (body ∷ bodies)

  abbrev held : List Bytes → ℕ → ℕ → Assembler
  held chunks carried dropped = record {
    open_unit = some (record { header = first; chunks = chunks; carried_bytes = carried });
    total_dropped = dropped;
    emit_chunks = false;
  }

  push-Continues :
      (full : Bool) (payload : Bytes) (h : FrameHeader) (body : Bytes) (chunks : List Bytes)
      (carried dropped : ℕ)
      → Continues full payload h body
      → carried + length body ≤ max_access_unit_bytes
      → push decode payload (held chunks carried dropped) ≡ (
          if full
          then record {
            assembler = held (chunks ++ body ∷ []) (carried + length body) dropped;
            units = [];
            drops = [];
          }
          else record {
            assembler = record { open_unit = none; total_dropped = dropped; emit_chunks = false };
            units = unit_of first (concat (chunks ++ body ∷ [])) ∷ [];
            drops = [];
          })
  unfolding push push_body
  push-Continues full payload h body chunks carried dropped c fits =
      rw (c.decodes, push)
        (unfold place joins continue_unit in ground (arith, c.same, c.inside, c.size, fits))

  abbrev total_bytes : List Bytes → ℕ
  total_bytes bodies = length (concat bodies)

  -- The chunks behind the first one, up to the tail.
  run_rest :
      (payloads bodies : List Bytes) (tail : Bytes) (h : FrameHeader) (body : Bytes)
      (chunks : List Bytes) (carried dropped : ℕ)
      → Middle payloads bodies
      → Continues false tail h body
      → carried + total_bytes bodies + length body ≤ max_access_unit_bytes
      → run decode (payloads ++ tail ∷ []) (held chunks carried dropped) ≡ record {
        assembler = record { open_unit = none; total_dropped = dropped; emit_chunks = false };
        units = unit_of first (concat (chunks ++ (bodies ++ body ∷ []))) ∷ [];
        drops = [];
      }
  run_rest [] [] tail h body chunks carried dropped done c fits =
      rw (push-Continues false tail h body chunks carried dropped c (omega arith)) refl
  run_rest (p ∷ payloads) (b ∷ bodies) tail h body chunks carried dropped (more g m rest) c fits =
      let small = length-append b (concat bodies) in
      let step = push-Continues true p g b chunks carried dropped m (omega (arith, small)) in
      let ih =
        run_rest payloads bodies tail h body (chunks ++ b ∷ []) (carried + length b) dropped rest c
          (omega (arith, small)) in
      let regroup : (chunks ++ b ∷ []) ++ (bodies ++ body ∷ [])
          ≡ chunks ++ (b ∷ bodies ++ body ∷ []) =
        append_assoc chunks (b ∷ []) (bodies ++ body ∷ []) in
      rw (step, ih, regroup) refl
  run_rest [] (b ∷ bodies) tail h body chunks carried dropped m c fits = elim m [ ]
  run_rest (p ∷ payloads) [] tail h body chunks carried dropped m c fits = elim m [ ]

  -- The first chunk of a unit: full, and with the start code of an access unit.
  pub record Opens (payload body : Bytes) : Type 0 where
    pub decodes : decoded decode payload ≡ some (first, body)
    pub starts : begins_access_unit body ≡ true
    pub size : nat_eq first.payload_length station_chunk_bytes ≡ true

  push-Opens :
      (payload body : Bytes) (o : Option OpenUnit) (dropped : ℕ)
      → Opens payload body
      → let a : Assembler = record {
        open_unit = o;
        total_dropped = dropped;
        emit_chunks = false;
      } in
        push decode payload a ≡ record {
          assembler = held (body ∷ []) (length body) (discard a).0.total_dropped;
          units = [];
          drops = (discard a).1;
        }
  unfolding push push_body
  push-Opens payload body none dropped c =
      rw (c.decodes, push) (unfold place begin_unit in ground (arith, c.size))
  push-Opens payload body (some u) dropped c =
      rw (c.decodes, push) (unfold place joins begin_unit in ground (arith, c.size, c.starts))

  -- Whatever unit was open before, the payloads of a split access unit (a full first chunk with a
  -- start code, full chunks and a shorter tail of the same sequence and timestamp without one, at
  -- most 16 MiB in all) deliver exactly one unit: the first chunk's header with the bodies joined in
  -- order. What was open is the only drop, and nothing stays open.
  pub run_reassembles :
      (opening body : Bytes) (payloads bodies : List Bytes) (tail : Bytes) (h : FrameHeader)
      (end_body : Bytes) (o : Option OpenUnit) (dropped : ℕ)
      → Opens opening body
      → Middle payloads bodies
      → Continues false tail h end_body
      → length body + length (concat bodies) + length end_body ≤ max_access_unit_bytes
      → let a : Assembler = record {
        open_unit = o;
        total_dropped = dropped;
        emit_chunks = false;
      } in
        run decode (opening ∷ (payloads ++ tail ∷ [])) a ≡ record {
          assembler = (discard a).0;
          units = unit_of first (body ++ concat (bodies ++ end_body ∷ [])) ∷ [];
          drops = (discard a).1;
        }
  run_reassembles opening body payloads bodies tail h end_body o dropped opens middle ends fits =
      let a : Assembler = record { open_unit = o; total_dropped = dropped; emit_chunks = false } in
      let first_step = push-Opens opening body o dropped opens in
      let rest =
        run_rest payloads bodies tail h end_body (body ∷ []) (length body)
          (discard a).0.total_dropped middle ends fits in
      rw (first_step, rest) (finish o)
    where
      finish :
          (o : Option OpenUnit)
          → let a : Assembler = record {
            open_unit = o;
            total_dropped = dropped;
            emit_chunks = false;
          } in
            ◌≡◌ {A = Pushed}
              (record {
                assembler = record {
                  open_unit = none;
                  total_dropped = (discard a).0.total_dropped;
                  emit_chunks = false;
                };
                units = unit_of first (body ++ concat (bodies ++ end_body ∷ [])) ∷ [];
                drops = (discard a).1 ++ [];
              })
              (record {
                assembler = (discard a).0;
                units = unit_of first (body ++ concat (bodies ++ end_body ∷ [])) ∷ [];
                drops = (discard a).1;
              })
      finish none = unfold discard in refl
      finish (some u) = unfold discard in refl
