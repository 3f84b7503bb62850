-- ===== src/Nvr/Ptcs/Push.antt =====
-- `push` of NvrPtcsReassembler. `zstd` stands for zlib's `zstdDecompressSync` with its
-- output limit: `none` is its exception. A call that throws is `none`.
use eufy_mega_security.Prelude.{
  Eq_ℕ, ℕ, zero, suc, ◌+◌, ◌-◌, Bool, true, false, not, ◌&&◌, ◌||◌, Option, none, some, [], ◌++◌,
  ltb, leb, nat_eq, if◌then◌else◌, length as len, any, take, replicate,
}
use eufy_mega_security.Prelude.Bytes.{Bytes, bytes_eq}
use eufy_mega_security.Prelude.JsMap.{JsMap, get, put, has}
use eufy_mega_security.Nvr.Ptcs.{
  Rejection, final_marker, metadata_conflict, duplicate_conflict, decompression, replay, capacity,
  poisoned, Fragment, PendingFrame, Reassembler, incomplete, complete, Eq_Rejection, Eq_FrameKey,
}
use eufy_mega_security.Nvr.Ptcs.Packet.{Packet, passes, fails, check}
use eufy_mega_security.Nvr.Ptcs.State.{Step, reject, release, remember, poison, expire}

-- Bytes copied into a new buffer of this size.
unfoldable pub copy_into : ℕ → Bytes → Bytes
copy_into size bytes = take size (bytes ++ replicate size 0)

-- The fragments from `start` on, `count` of them, in the order of their indexes.
unfoldable pub fragments_from : ℕ → ℕ → JsMap ℕ Fragment → Bytes
fragments_from zero start m = []
fragments_from (suc count) start m =
    let rest = fragments_from count (start + 1) m in
    elim (get start m) [ none ↦ rest | some f ↦ f.bytes ++ rest ]

unfoldable pub has_from : ℕ → ℕ → JsMap ℕ Fragment → Bool
has_from zero start m = true
has_from (suc count) start m = has start m && has_from count (start + 1) m

unfoldable pub same_final : Bool → Bool → Bool
same_final true b = b
same_final false b = not b

unfoldable pub after_final : Packet → PendingFrame → Bool
after_final q p = elim p.final_index [
  | none ↦ false
  | some last ↦ ltb last q.index || (q.final && not (nat_eq q.index last))
]

-- The metadata that every fragment of a frame repeats.
unfoldable pub conflicts : Packet → PendingFrame → Bool
conflicts q p =
    not (nat_eq p.total q.total)
    || (not (same_final p.compressed q.compressed) || not (same_final p.keyframe q.keyframe))

unfoldable pub no_room : Packet → Reassembler → Bool
no_room q s =
    leb s.limits.max_pending_frames (len s.pending)
    || (ltb (s.limits.max_buffered_bytes - s.buffered_bytes) q.total
        || leb s.limits.max_retained_fragments s.retained_fragments)

unfoldable pub new_frame : Packet → ℕ → PendingFrame
new_frame q now = record {
  total = q.total;
  first_arrival = now;
  compressed = q.compressed;
  keyframe = q.keyframe;
  fragments = [];
  received_bytes = 0;
  final_index = none;
}

-- A fragment at an index that is retained must be the same one.
unfoldable pub repeat : Packet → PendingFrame → Fragment → Reassembler → Step
repeat q p f s =
    if not (same_final f.final q.final) || not (bytes_eq f.bytes q.part)
    then poison q.key p duplicate_conflict s
    else (s, incomplete)

module _ (zstd : ℕ → Bytes → Option Bytes) where
  -- The frame is complete: release it, decompress it, and leave a tombstone.
  unfoldable pub finish : Packet → PendingFrame → Bytes → Reassembler → Step
  finish q p frame s =
      let released = release q.key p s in
      let output : Option Bytes =
        if q.compressed then zstd s.limits.max_decompressed_bytes frame else some frame in
      elim output [
        | none ↦ reject decompression (
            remember q.key (record { first_arrival = p.first_arrival; reason = poisoned }) released)
        | some bytes ↦ (
          remember q.key (record { first_arrival = p.first_arrival; reason = replay }) released,
          complete q.key.channel q.key.sequence q.key.timestamp bytes,
        )
      ]

  -- With the last fragment known: complete if every index up to it is there.
  unfoldable pub assemble : Packet → PendingFrame → ℕ → Reassembler → Step
  assemble q p last s =
      if not (has_from (last + 1) 0 p.fragments)
      then (s, incomplete)
      else if not (nat_eq p.received_bytes q.total)
      then poison q.key p Rejection.length s
      else finish q p (copy_into q.total (fragments_from (last + 1) 0 p.fragments)) s

  unfoldable pub conclude : Packet → PendingFrame → Reassembler → Step
  conclude q p s =
      if q.final && any (λ e. ltb q.index e.0) p.fragments
      then poison q.key p final_marker s
      else elim p.final_index [ none ↦ (s, incomplete) | some last ↦ assemble q p last s ]

  -- A fragment that is not retained yet.
  unfoldable pub add : Packet → PendingFrame → Reassembler → Step
  add q p s =
      if leb s.limits.max_retained_fragments s.retained_fragments
      then poison q.key p capacity s
      else let with_part = record p {
        fragments = put q.index (record { bytes = q.part; final = q.final }) p.fragments;
        received_bytes = p.received_bytes + len q.part;
      } in
        let marked = record with_part {
          final_index = if q.final then some q.index else p.final_index;
        } in
        let store = λ (r : PendingFrame). record s {
          pending = put q.key r s.pending;
          retained_fragments = s.retained_fragments + 1;
        } in
        if ltb q.total with_part.received_bytes
        then poison q.key with_part Rejection.length (store with_part)
        else conclude q marked (store marked)

  unfoldable pub store : Packet → PendingFrame → Reassembler → Step
  store q p s =
      if after_final q p
      then poison q.key p final_marker s
      else elim (get q.index p.fragments) [ none ↦ add q p s | some f ↦ repeat q p f s ]

  -- A frame that is pending, or reserved now.
  unfoldable pub admit : Packet → ℕ → Reassembler → Step
  admit q now s = elim (get q.key s.pending) [
    | some p ↦ if conflicts q p then poison q.key p metadata_conflict s else store q p s
    | none ↦
        if no_room q s
        then reject capacity s
        else store q (new_frame q now) (record s {
          pending = put q.key (new_frame q now) s.pending;
          buffered_bytes = s.buffered_bytes + q.total;
        })
  ]

  -- A packet that passed its checks; a tombstone answers for its frame.
  unfoldable pub accept : Packet → ℕ → Reassembler → Step
  accept q now s = elim (get q.key s.tombstones) [
    | some t ↦ reject t.reason s
    | none ↦ admit q now s
  ]

  unfoldable pub receive : Bytes → ℕ → Reassembler → Step
  receive packet now s = elim (check s.limits packet) [
    | fails r ↦ reject r s
    | passes q ↦ accept q now s
  ]

  unfoldable pub push : Bytes → ℕ → Reassembler → Option Step
  push packet now s = elim (expire now s) [ none ↦ none | some s' ↦ some (receive packet now s') ]
