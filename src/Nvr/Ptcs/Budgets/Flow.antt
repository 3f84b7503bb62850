-- ===== src/Nvr/Ptcs/Budgets/Flow.antt =====
-- The budgets along the paths through `push` of NvrPtcsReassembler.
use eufy_mega_security.Prelude.{
  Eq_ℕ, ℕ, ◌+◌, ◌<◌, ◌≡◌, ◌⊎◌, refl, inl, inr, arith, false, not, ◌&&◌, ◌||◌, Option, none, some,
  ltb, leb, nat_eq, if◌then◌else◌, length, any, Bool-cases, Option-cases,
}
use eufy_mega_security.Prelude.Bytes.{Bytes, bytes_eq}
use eufy_mega_security.Prelude.JsMap.{
  get, put, total-put_new, total-put_old, length-put_new, length-put_old, remove-put_old,
  get-put_self, get-AllValues, put-AllValues, remove-AllValues,
}
use eufy_mega_security.Nvr.Ptcs.{
  Rejection, capacity, decompression, Fragment, PendingFrame, Reassembler, Eq_Rejection,
  Eq_FrameKey,
}
use eufy_mega_security.Nvr.Ptcs.Packet.{Packet, Checked, passes, fails, check}
use eufy_mega_security.Nvr.Ptcs.Push.{
  has_from, finish, assemble, conclude, add, same_final, repeat, after_final, store, conflicts,
  no_room, new_frame, admit, accept, receive,
}
use eufy_mega_security.Nvr.Ptcs.Budgets.{
  frame_total, frame_fragments, fragment_size, GoodFrame, Counted, Inv, Loose, Inv-Loose,
  reject-Inv, remember-Inv, release-Inv, poison-Inv,
}

module _ (zstd : ℕ → Bytes → Option Bytes) (q : Packet) where
  finish-Inv :
      (p : PendingFrame) (frame : Bytes) (s : Reassembler)
      → Loose q.key p s
      → Inv (finish zstd q p frame s).0
  finish-Inv p frame s l =
      elim (Option-cases
        (if q.compressed then zstd s.limits.max_decompressed_bytes frame else some frame)) [
          | inl e ↦
              unfold finish in
              rw (e, finish)
                (reject-Inv decompression _ (remember-Inv q.key _ _ (release-Inv q.key p s l)))
          | inr (bytes, e) ↦
              unfold finish in rw (e, finish) (remember-Inv q.key _ _ (release-Inv q.key p s l))
        ]

  assemble-Inv :
      (p : PendingFrame) (last : ℕ) (s : Reassembler)
      → Inv s
      → get q.key s.pending ≡ some p
      → Inv (assemble zstd q p last s).0
  assemble-Inv p last s v h = elim (Bool-cases (has_from (last + 1) 0 p.fragments)) [
    | inr missing ↦ unfold assemble in rw missing v
    | inl there ↦ elim (Bool-cases (nat_eq p.received_bytes q.total)) [
      | inr short ↦
          unfold assemble in
          rw (there, short) (poison-Inv q.key p Rejection.length s (Inv-Loose q.key p s v h))
      | inl full ↦ unfold assemble in rw (there, full) (finish-Inv p _ s (Inv-Loose q.key p s v h))
    ]
  ]

  conclude-Inv :
      (p : PendingFrame) (s : Reassembler)
      → Inv s
      → get q.key s.pending ≡ some p
      → Inv (conclude zstd q p s).0
  conclude-Inv p s v h = elim (Bool-cases (q.final && any (λ e. ltb q.index e.0) p.fragments)) [
    | inl late ↦ unfold conclude in rw late (poison-Inv q.key p _ s (Inv-Loose q.key p s v h))
    | inr fine ↦ elim (Option-cases p.final_index) [
      | inl open_ ↦ unfold conclude in rw (fine, open_, conclude) v
      | inr (last, e) ↦ unfold conclude in rw (fine, e, conclude) (assemble-Inv p last s v h)
    ]
  ]

  abbrev stored : PendingFrame → Reassembler → Reassembler
  stored r s = record s {
    pending = put q.key r s.pending;
    retained_fragments = s.retained_fragments + 1;
  }

  -- One more fragment of the frame `p` makes it `r`.
  record Grows (p r : PendingFrame) : Type 0 where
    same_total : r.total ≡ p.total
    one_more : length r.fragments ≡ length p.fragments + 1

  stored-Counted :
      (p r : PendingFrame) (s : Reassembler)
      → Counted s
      → get q.key s.pending ≡ some p
      → Grows p r
      → s.retained_fragments < s.limits.max_retained_fragments
      → Counted (stored r s)
  stored-Counted p r s v h g room = record {
    buffered =
        omega (arith, v.buffered, total-put_old frame_total q.key r p s.pending h, g.same_total);
    retained =
        omega (arith, v.retained, total-put_old frame_fragments q.key r p s.pending h, g.one_more);
    few_frames = omega (arith, length-put_old q.key r p s.pending h, v.few_frames);
    few_bytes = v.few_bytes;
    few_fragments = omega arith;
    few_tombstones = v.few_tombstones;
    some_tombstones = v.some_tombstones;
  }

  stored-Loose :
      (p r : PendingFrame) (s : Reassembler)
      → Inv s
      → get q.key s.pending ≡ some p
      → Grows p r
      → s.retained_fragments < s.limits.max_retained_fragments
      → Loose q.key r (stored r s)
  stored-Loose p r s v h g room = record {
    counted = stored-Counted p r s v.counted h g room;
    here = get-put_self q.key r s.pending;
    others =
        rw (remove-put_old q.key r p s.pending h)
          (remove-AllValues GoodFrame q.key s.pending v.good);
  }

  stored-Inv :
      (p r : PendingFrame) (s : Reassembler)
      → Inv s
      → get q.key s.pending ≡ some p
      → Grows p r
      → GoodFrame r
      → s.retained_fragments < s.limits.max_retained_fragments
      → Inv (stored r s)
  stored-Inv p r s v h g good room = record {
    counted = stored-Counted p r s v.counted h g room;
    good = put-AllValues GoodFrame q.key r s.pending v.good good;
  }

  add-Inv :
      (p : PendingFrame) (s : Reassembler)
      → Inv s
      → get q.key s.pending ≡ some p
      → get q.index p.fragments ≡ none
      → p.total ≡ q.total
      → Inv (add zstd q p s).0
  add-Inv p s v h new same =
      let f : Fragment = record { bytes = q.part; final = q.final } in
      let part : PendingFrame = record p {
        fragments = put q.index f p.fragments;
        received_bytes = p.received_bytes + length q.part;
      } in
      let marked : PendingFrame = record part {
        final_index = if q.final then some q.index else p.final_index;
      } in
      let one = length-put_new q.index f p.fragments new in
      let was : GoodFrame p = get-AllValues GoodFrame q.key p s.pending v.good h in
      elim (Bool-cases (leb s.limits.max_retained_fragments s.retained_fragments)) [
        | inl full ↦ unfold add in rw full (poison-Inv q.key p capacity s (Inv-Loose q.key p s v h))
        | inr room ↦ elim (Bool-cases (ltb q.total (p.received_bytes + length q.part))) [
          | inl over ↦
              unfold add in
              rw (room, over)
                (poison-Inv q.key part Rejection.length (stored part s) (
                  stored-Loose p part s v h (record { same_total = refl; one_more = one })
                    (ground (arith, room))))
          | inr fits ↦
              unfold add in
              rw (room, fits)
                (conclude-Inv marked (stored marked s)
                  (stored-Inv p marked s v h (record { same_total = refl; one_more = one })
                    (
                      omega (arith, was.0, total-put_new fragment_size q.index f p.fragments new),
                      ground (arith, fits, same),
                    )
                    (ground (arith, room)))
                  (get-put_self q.key marked s.pending))
        ]
      ]

  repeat-Inv :
      (p : PendingFrame) (f : Fragment) (s : Reassembler)
      → Inv s
      → get q.key s.pending ≡ some p
      → Inv (repeat q p f s).0
  repeat-Inv p f s v h =
      elim (Bool-cases (not (same_final f.final q.final) || not (bytes_eq f.bytes q.part))) [
        | inl other ↦ unfold repeat in rw other (poison-Inv q.key p _ s (Inv-Loose q.key p s v h))
        | inr same ↦ unfold repeat in rw same v
      ]

  store-Inv :
      (p : PendingFrame) (s : Reassembler)
      → Inv s
      → get q.key s.pending ≡ some p
      → p.total ≡ q.total
      → Inv (store zstd q p s).0
  store-Inv p s v h same = elim (Bool-cases (after_final q p)) [
    | inl late ↦ unfold store in rw late (poison-Inv q.key p _ s (Inv-Loose q.key p s v h))
    | inr fine ↦ elim (Option-cases (get q.index p.fragments)) [
      | inl new ↦ unfold store in rw (fine, new, store) (add-Inv p s v h new same)
      | inr (f, e) ↦ unfold store in rw (fine, e, store) (repeat-Inv p f s v h)
    ]
  ]

  reserved-Inv :
      (now : ℕ) (s : Reassembler)
      → Inv s
      → get q.key s.pending ≡ none
      → no_room q s ≡ false
      → Inv (record s {
        pending = put q.key (new_frame q now) s.pending;
        buffered_bytes = s.buffered_bytes + q.total;
      })
  reserved-Inv now s v e room = record {
    counted = record {
      buffered =
          unfold new_frame in
          omega (
            arith,
            v.counted.buffered,
            total-put_new frame_total q.key (new_frame q now) s.pending e,
          );
      retained =
          unfold new_frame in
          omega (
            arith,
            v.counted.retained,
            total-put_new frame_fragments q.key (new_frame q now) s.pending e,
          );
      few_frames =
          unfold no_room in
          ground (arith, room, length-put_new q.key (new_frame q now) s.pending e);
      few_bytes = unfold no_room in ground (arith, room, v.counted.few_bytes);
      few_fragments = v.counted.few_fragments;
      few_tombstones = v.counted.few_tombstones;
      some_tombstones = v.counted.some_tombstones;
    };
    good =
        put-AllValues GoodFrame q.key (new_frame q now) s.pending v.good
          (unfold new_frame in (refl, omega arith));
  }

  admit-Inv : (now : ℕ) (s : Reassembler) → Inv s → Inv (admit zstd q now s).0
  admit-Inv now s v = elim (Option-cases (get q.key s.pending)) [
    | inr (p, e) ↦ elim (Bool-cases (conflicts q p)) [
      | inl bad ↦
          unfold admit in rw (e, admit, bad) (poison-Inv q.key p _ s (Inv-Loose q.key p s v e))
      | inr fine ↦
          unfold admit in
          rw (e, admit, fine) (store-Inv p s v e (unfold conflicts in ground (arith, fine)))
    ]
    | inl e ↦ elim (Bool-cases (no_room q s)) [
      | inl full ↦ unfold admit in rw (e, admit, full) (reject-Inv capacity s v)
      | inr room ↦
          unfold admit in
          rw (e, admit, room)
            (store-Inv (new_frame q now) _ (reserved-Inv now s v e room)
              (get-put_self q.key (new_frame q now) s.pending) (unfold new_frame in refl))
    ]
  ]

  accept-Inv : (now : ℕ) (s : Reassembler) → Inv s → Inv (accept zstd q now s).0
  accept-Inv now s v = elim (Option-cases (get q.key s.tombstones)) [
    | inl e ↦ unfold accept in rw (e, accept) (admit-Inv now s v)
    | inr (t, e) ↦ unfold accept in rw (e, accept) (reject-Inv t.reason s v)
  ]

Checked-cases {ℓ} :
    {A : Type ℓ} (c : Checked A) → ((r : Rejection) × (c ≡ fails r)) ⊎ ((a : A) × (c ≡ passes a))
Checked-cases (fails r) = inl (r, refl)
Checked-cases (passes a) = inr (a, refl)

pub receive-Inv :
    (zstd : ℕ → Bytes → Option Bytes) (packet : Bytes) (now : ℕ) (s : Reassembler)
    → Inv s
    → Inv (receive zstd packet now s).0
receive-Inv zstd packet now s v = elim (Checked-cases (check s.limits packet)) [
  | inl (r, e) ↦ unfold receive in rw (e, receive) (reject-Inv r s v)
  | inr (q, e) ↦ unfold receive in rw (e, receive) (accept-Inv zstd q now s v)
]
