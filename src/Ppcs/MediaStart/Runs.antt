-- ===== src/Ppcs/MediaStart/Runs.antt =====
-- A startup whose first datagrams are lost, and the theorems at concrete inputs.
use eufy_mega_security.Prelude.{ℕ, ◌<◌, ◌≡◌, refl, false, List, [], ◌∷◌, arith, All}
use eufy_mega_security.Ppcs.MediaStart.{
  refused, fresh, start, close, retry, Call, starts, acknowledges, ticks, run,
}
use eufy_mega_security.Ppcs.MediaStart.Timer.{Inv, run-fresh-Inv, run-close}
use eufy_mega_security.Ppcs.MediaStart.Repair.{Owed, retry_repairs_started}

abbrev upgrade : List Call
upgrade = starts 7 (1 ∷ []) 0 ∷ starts 8 (2 ∷ []) 100 ∷ ticks 150 151 ∷ []

-- Both starts are repaired, the displaced one first.
upgrade_sends : (run fresh upgrade).1 ≡ (1 ∷ []) ∷ (2 ∷ []) ∷ (1 ∷ []) ∷ (2 ∷ []) ∷ []
unfolding run fresh
upgrade_sends = refl

-- The first one expires after three seconds, and the timer stops when nothing is left.
upgrade_ends :
    let s =
      (run fresh
        (starts 7 (1 ∷ []) 0 ∷ starts 8 (2 ∷ []) 100 ∷ ticks 3000 3001 ∷ acknowledges 8 ∷ [])).0 in
    (s.expired ≡ 1) × (s.acknowledged ≡ 1) × (s.retransmitted ≡ 1) × (s.timer ≡ false)
unfolding run fresh
upgrade_ends = (refl, refl, refl, refl)

run-fresh-Inv_example : Inv (run fresh upgrade).0
run-fresh-Inv_example = run-fresh-Inv upgrade

run-close_example :
    ((run (close (run fresh upgrade).0) upgrade).0 ≡ close (run fresh upgrade).0)
    × ((run (close (run fresh upgrade).0) upgrade).1 ≡ [])
    × ((start 9 (3 ∷ []) 200 (close (run fresh upgrade).0)).1 ≡ refused)
run-close_example = run-close (run fresh upgrade).0 upgrade 9 (3 ∷ []) 200 (run-fresh-Inv upgrade)

retry_repairs_started_example :
    All
      (λ packet. (deadline : ℕ) × Owed upgrade packet deadline × (150 < deadline))
      (retry 150 151 (run fresh upgrade).0).1
retry_repairs_started_example = retry_repairs_started upgrade 150 151 (omega arith)
