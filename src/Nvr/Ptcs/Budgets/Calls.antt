-- ===== src/Nvr/Ptcs/Budgets/Calls.antt =====
-- The budgets along sequences of calls of NvrPtcsReassembler.
use eufy_mega_security.Prelude.{
  Eq_ℕ, ℕ, ◌≡◌, ◌⊎◌, refl, inl, inr, arith, subst, true, not, ◌||◌, Option, none, some, List, [],
  ◌∷◌, ltb, leb, Bool-cases,
}
use eufy_mega_security.Prelude.Bytes.{Bytes}
use eufy_mega_security.Nvr.Ptcs.{
  Limits, Reassembler, Eq_Rejection, Eq_FrameKey, valid_limits, fresh, construct, clear, max_safe,
}
use eufy_mega_security.Nvr.Ptcs.State.{sweep, expire}
use eufy_mega_security.Nvr.Ptcs.Push.{receive, push}
use eufy_mega_security.Nvr.Ptcs.Budgets.{Inv, sweep-Inv}
use eufy_mega_security.Nvr.Ptcs.Budgets.Flow.{receive-Inv}

-- The caller's operations. One that throws has changed nothing.
pub data Call : Type 0 where
  pushes : Bytes → ℕ → Call
  expires : ℕ → Call
  clears : Call

unfoldable pub step : (ℕ → Bytes → Option Bytes) → Reassembler → Call → Reassembler
step zstd s (pushes packet now) = elim (push zstd packet now s) [
  | none ↦ s
  | some (s', answer) ↦ s'
]
step zstd s (expires now) = elim (expire now s) [ none ↦ s | some s' ↦ s' ]
step zstd s clears = clear s

unfoldable pub run : (ℕ → Bytes → Option Bytes) → Reassembler → List Call → Reassembler
run zstd s [] = s
run zstd s (call ∷ calls) = run zstd (step zstd s call) calls

pub expire-cases :
    (now : ℕ) (s : Reassembler) → (expire now s ≡ none) ⊎ (expire now s ≡ some (sweep now s))
expire-cases now s = elim (Bool-cases (not (leb now max_safe) || ltb now s.last_now)) [
  | inl late ↦ inl (unfold expire in rw late refl)
  | inr fine ↦ inr (unfold expire in rw fine refl)
]

step-Inv :
    (zstd : ℕ → Bytes → Option Bytes) (s : Reassembler) (call : Call)
    → Inv s
    → Inv (step zstd s call)
step-Inv zstd s (pushes packet now) v = elim (expire-cases now s) [
  | inl e ↦
      let p : push zstd packet now s ≡ none = unfold push in rw (e, push) refl in
      unfold step in rw (p, step) v
  | inr e ↦
      let p : push zstd packet now s ≡ some (receive zstd packet now (sweep now s)) =
        unfold push in rw (e, push) refl in
      unfold step in rw (p, step) (receive-Inv zstd packet now (sweep now s) (sweep-Inv now s v))
]
step-Inv zstd s (expires now) v = elim (expire-cases now s) [
  | inl e ↦ unfold step in rw (e, step) v
  | inr e ↦ unfold step in rw (e, step) (sweep-Inv now s v)
]
step-Inv zstd s clears v =
    unfold step clear in
    record {
      counted = record {
        buffered = refl;
        retained = refl;
        few_frames = omega arith;
        few_bytes = omega arith;
        few_fragments = omega arith;
        few_tombstones = omega arith;
        some_tombstones = v.counted.some_tombstones;
      };
      good = tt;
    }

run-Inv :
    (zstd : ℕ → Bytes → Option Bytes) (s : Reassembler) (calls : List Call)
    → Inv s
    → Inv (run zstd s calls)
unfolding run
run-Inv zstd s [] v = v
run-Inv zstd s (call ∷ calls) v = run-Inv zstd (step zstd s call) calls (step-Inv zstd s call v)

fresh-Inv : (l : Limits) → valid_limits l ≡ true → Inv (fresh l)
fresh-Inv l h =
    unfold fresh in
    record {
      counted = record {
        buffered = refl;
        retained = refl;
        few_frames = omega arith;
        few_bytes = omega arith;
        few_fragments = omega arith;
        few_tombstones = omega arith;
        some_tombstones = unfold valid_limits in ground (arith, h);
      };
      good = tt;
    }

construct-Inv : (l : Limits) (s : Reassembler) → construct l ≡ some s → Inv s
construct-Inv l s e = elim (Bool-cases (valid_limits l)) [
  | inl fine ↦
      let same : fresh l ≡ s = unfold construct in ground (arith, fine, e) in
      subst Inv same (fresh-Inv l fine)
  | inr bad ↦ absurd (unfold construct in ground (arith, bad, e))
]

-- Whatever bytes are pushed at whatever times, and whatever the decompressor answers: on a new reassembler the
-- counters equal the sums over the frames that are pending, all budgets hold (frames, reserved bytes,
-- fragments and tombstones), and no frame retains more payload than was reserved for it.
pub run-construct-Inv :
    (zstd : ℕ → Bytes → Option Bytes) (l : Limits) (s : Reassembler) (calls : List Call)
    → construct l ≡ some s
    → Inv (run zstd s calls)
run-construct-Inv zstd l s calls e = run-Inv zstd s calls (construct-Inv l s e)
