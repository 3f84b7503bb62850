-- ===== src/Ppcs/Reorder/Buffer/Runs.antt =====
-- Packets that arrive out of order, a hole that is never filled, and the theorems at concrete inputs:
-- PpcsDatagramReorderBuffer of stream/first-party-ppcs.ts.
use eufy_mega_security.Prelude.{
  ℕ, ◌≡◌, refl, true, false, none, some, List, [], ◌∷◌, arith, Eq_ℕ, is_some,
}
use eufy_mega_security.Prelude.Bytes.{Bytes}
use eufy_mega_security.Prelude.JsMap.{get}
use eufy_mega_security.Ppcs.Reorder.{
  Channel, delivers, skips, repeats, over_gap, duplicate, ahead, earliest, keys, abandon_hole,
}
use eufy_mega_security.Ppcs.Reorder.Holds.{Sound}
use eufy_mega_security.Ppcs.Reorder.Cursor.{unset, follow}
use eufy_mega_security.Ppcs.Reorder.Progress.{delivered, gap_wait, never, Frees, abandon_hole-Frees}
use eufy_mega_security.Ppcs.Reorder.Arrivals.{Arrivals, sizes}
use eufy_mega_security.Ppcs.Reorder.Buffer.{Buffer, empty, Call, pushes, elapses, run}
use eufy_mega_security.Ppcs.Reorder.Buffer.Channels.{Ordered, run-empty-Ordered}
use eufy_mega_security.Ppcs.Reorder.Buffer.Order.{run-empty-follow}
use eufy_mega_security.Ppcs.Reorder.Buffer.Liveness.{Emptied, every, firings_empty}
use eufy_mega_security.Ppcs.Reorder.Buffer.InOrder.{InOrder, pushed, pushes-InOrder}

abbrev body : ℕ → Bytes
body j = j ∷ []

-- 65535 is followed by 0; 3 and 4 wait for 1 and 2, and 1 comes twice.
abbrev shuffled : Arrivals
shuffled = (3, 1) ∷ (1, 2) ∷ (4, 3) ∷ (1, 4) ∷ (2, 5) ∷ (6, 6) ∷ []

abbrev shuffled_calls : List Call
shuffled_calls =
    pushes (body 0) 65535 1 0
    ∷ pushes (body 3) 2 1 1
    ∷ pushes (body 1) 0 1 2
    ∷ pushes (body 4) 3 1 3
    ∷ pushes (body 1) 0 1 4
    ∷ pushes (body 2) 1 1 5
    ∷ pushes (body 6) 5 1 6
    ∷ []

shuffled_comes_out :
    (run never 250 empty shuffled_calls).1
    ≡ delivers 65535 (body 0) 1
      ∷ delivers 0 (body 1) 1
      ∷ repeats duplicate
      ∷ delivers 1 (body 2) 1
      ∷ delivers 2 (body 3) 1
      ∷ delivers 3 (body 4) 1
      ∷ []
unfolding run empty ahead
shuffled_comes_out = refl

-- The place 5 never comes: its successor is delivered when the timer runs out, after 250 ms.
hole_is_skipped :
    (run never 2000 empty
      (pushes (body 0) 7 0 0 ∷ pushes (body 2) 9 0 10 ∷ elapses 0 259 ∷ elapses 0 260 ∷ [])).1
    ≡ delivers 7 (body 0) 0 ∷ skips 0 over_gap ∷ delivers 9 (body 2) 0 ∷ []
unfolding run empty ahead earliest keys
hole_is_skipped = refl

-- Another channel is waiting already.
abbrev busy : Buffer
busy = (run never 250 empty (pushes (body 0) 7 2 0 ∷ pushes (body 2) 9 2 0 ∷ [])).0

busy_open : busy.closed ≡ false
unfolding run empty ahead
busy_open = refl

busy_without : get 1 busy.channels ≡ none
unfolding run empty ahead
busy_without = refl

pushes-InOrder_example :
    InOrder body shuffled
      (delivered (run never 250 busy (pushes (body 0) 65535 1 0 ∷ pushed body 65535 1 shuffled)).1)
pushes-InOrder_example =
    pushes-InOrder busy body 65535 250 1 0 shuffled busy_open busy_without (omega arith)
      (omega arith) (omega arith) (unfold sizes in omega arith)

run-empty-Ordered_example : Ordered (run never 250 empty shuffled_calls).0
run-empty-Ordered_example = run-empty-Ordered never 250 shuffled_calls (omega arith)

run-empty-follow_example :
    is_some (follow 1 (some unset) (run never 250 empty shuffled_calls).1) ≡ true
run-empty-follow_example = run-empty-follow never 250 shuffled_calls 1 (omega arith)

abbrev waiting : Channel
waiting = record { last = 3; held = (5, body 6) ∷ []; bytes = 1; timer = some 256 }

waiting-Sound : Sound waiting
waiting-Sound = record {
  distinct = (refl, tt);
  counted = refl;
  near = unfold ahead in omega arith;
  inside = omega arith;
}

abandon_hole-Frees_example : Frees 1 waiting (abandon_hole never 250 1 256 waiting)
abandon_hole-Frees_example = abandon_hole-Frees never 250 1 256 waiting waiting-Sound (omega arith)

known_waiting : get 1 (run never 250 empty shuffled_calls).0.channels ≡ some waiting
unfolding run empty ahead
known_waiting = refl

firings_empty_example :
    (n : ℕ) × Emptied 250 1
      (run never 250 empty shuffled_calls).0
      waiting
      (every (gap_wait 250 1) n 256)
firings_empty_example =
    firings_empty 250 1 (run never 250 empty shuffled_calls).0 waiting 256
      (run-empty-Ordered never 250 shuffled_calls (omega arith)) known_waiting refl
