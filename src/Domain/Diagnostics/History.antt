-- ===== src/Domain/Diagnostics/History.antt =====
-- The bounded push history and the delivery counters.
use eufy_mega_security.Prelude.{
  ℕ, ◌+◌, ◌-◌, ◌≤◌, true, false, Option, none, some, List, [], ◌∷◌, ◌++◌, ◌≡◌, refl, sym, ap, ◌∙◌,
  drop, length, ltb, arith, length-append, length-drop, drop-drop, inl, inr, Bool-cases, ◌⊎◌, ◌<◌,
}
use eufy_mega_security.Domain.Reports.{PushDiagnostic, Diagnostics}
use eufy_mega_security.Domain.Records.{EventReceiverState}
use eufy_mega_security.Domain.Diagnostics.{
  bound_history, record_push_diagnostic, no_diagnostics, DeliveryOutcome, parsed, empty, unparsed,
  record_event_delivery, record_event_receiver_state, event_delivery_diagnostic, delivery_age,
  is_parsed, is_empty, is_unparsed,
}

-- The pushes of a list, one after another.
pub push_all : List PushDiagnostic → Diagnostics → Diagnostics
unfolding record_push_diagnostic
push_all [] d = d
push_all (p ∷ ps) d = push_all ps (record_push_diagnostic p d)

module _ {ℓ} {A : Type ℓ} where
  append_assoc : (xs ys zs : List A) → (xs ++ ys) ++ zs ≡ xs ++ (ys ++ zs)
  append_assoc [] ys zs = refl
  append_assoc (x ∷ xs) ys zs = ap (◌∷◌ x) (append_assoc xs ys zs)

  over-length :
      (l : List A) (x : A) → length l ≤ 50 → ltb 50 (length (l ++ (x ∷ []))) ≡ true → length l ≡ 50
  over-length l x h over = ground (arith, length-append l (x ∷ []))

  within-length : (l : List A) (x : A) → ltb 50 (length (l ++ (x ∷ []))) ≡ false → length l < 50
  within-length l x within = ground (arith, length-append l (x ∷ []))

  append-nil : (xs : List A) → xs ++ [] ≡ xs
  append-nil [] = refl
  append-nil (x ∷ xs) = ap (◌∷◌ x) (append-nil xs)

  drop_at : (m n : ℕ) (xs ys : List A) → m ≡ n → xs ≡ ys → drop m xs ≡ drop n ys
  drop_at m n xs ys em ex = rw (em, ex) refl

  bound_history-cases :
      (l : List A) (x : A)
      → length l ≤ 50
      → ((length l < 50) × (bound_history (l ++ (x ∷ [])) ≡ l ++ (x ∷ [])))
        ⊎ ((length l ≡ 50) × (bound_history (l ++ (x ∷ [])) ≡ drop 1 (l ++ (x ∷ []))))
  unfolding bound_history
  bound_history-cases l x h = elim (Bool-cases (ltb 50 (length (l ++ (x ∷ []))))) [
    | inl over ↦ inr (over-length l x h over, rw over refl)
    | inr within ↦ inl (within-length l x within, rw within refl)
  ]

  drop_one-append : (l k : List A) → 1 ≤ length l → drop 1 l ++ k ≡ drop 1 (l ++ k)
  drop_one-append [] k h = absurd (omega arith)
  drop_one-append (x ∷ l) k h = refl

  -- The pushes on a history alone.
  history : List A → List A → List A
  unfolding bound_history
  history l [] = l
  history l (x ∷ xs) = history (bound_history (l ++ (x ∷ []))) xs

  history-drop :
      (l xs : List A) → length l ≤ 50 → history l xs ≡ drop (length l + length xs - 50) (l ++ xs)
  unfolding history
  history-drop l [] h = sym (drop_at (length l + 0 - 50) 0 (l ++ []) l (omega arith) (append-nil l))
  history-drop l (x ∷ xs) h = elim (bound_history-cases l x h) [
    | inl (small, e) ↦
        ap (λ k. history k xs) e
        ∙ history-drop (l ++ (x ∷ [])) xs (omega (arith, length-append l (x ∷ [])))
        ∙ drop_at _ _ _ _ (omega (arith, length-append l (x ∷ []))) (append_assoc l (x ∷ []) xs)
    | inr (full, e) ↦
        ap (λ k. history k xs) e
        ∙ history-drop (drop 1 (l ++ (x ∷ []))) xs
            (omega (arith, length-drop 1 (l ++ (x ∷ [])), length-append l (x ∷ [])))
        ∙ drop_at _ (length xs) _ (drop 1 (l ++ (x ∷ xs)))
            (omega (arith, length-drop 1 (l ++ (x ∷ [])), length-append l (x ∷ [])))
            (drop_one-append (l ++ (x ∷ [])) xs (omega (arith, length-append l (x ∷ [])))
              ∙ ap (drop 1) (append_assoc l (x ∷ []) xs))
        ∙ drop-drop 1 (length xs) (l ++ (x ∷ xs))
        ∙ drop_at _ _ (l ++ (x ∷ xs)) (l ++ (x ∷ xs)) (omega arith) refl
  ]

push_all-history :
    (ps : List PushDiagnostic) (d : Diagnostics) → (push_all ps d).push ≡ history d.push ps
unfolding push_all history record_push_diagnostic
push_all-history [] d = refl
push_all-history (p ∷ ps) d = push_all-history ps (record_push_diagnostic p d)

-- After any pushes to a new GatewayState its history is the last fifty of them, or all of them when
-- there are fewer, in their order.
pub push_all-last :
    (ps : List PushDiagnostic) → (push_all ps no_diagnostics).push ≡ drop (length ps - 50) ps
unfolding no_diagnostics
push_all-last ps =
    push_all-history ps no_diagnostics
    ∙ history-drop [] ps (omega arith)
    ∙ drop_at _ _ ps ps (omega arith) refl

-- What is reported of the event receiver: a state of it, or a delivery with its time.
pub data Report : Type 0 where
  receiver : EventReceiverState → Report
  delivery : DeliveryOutcome → ℕ → Report

pub apply_reports : List Report → Diagnostics → Diagnostics
unfolding record_event_receiver_state record_event_delivery
apply_reports [] d = d
apply_reports (receiver state ∷ rs) d = apply_reports rs (record_event_receiver_state state d)
apply_reports (delivery outcome at ∷ rs) d = apply_reports rs (record_event_delivery outcome at d)

pub count_deliveries : List Report → ℕ
count_deliveries [] = 0
count_deliveries (receiver state ∷ rs) = count_deliveries rs
count_deliveries (delivery outcome at ∷ rs) = count_deliveries rs + 1

-- The time of the last delivery among the reports, or an earlier one.
pub last_delivery : Option ℕ → List Report → Option ℕ
last_delivery before [] = before
last_delivery before (receiver state ∷ rs) = last_delivery before rs
last_delivery before (delivery outcome at ∷ rs) = last_delivery (some at) rs

-- One for the outcome that is asked about.
counted_as : DeliveryOutcome → DeliveryOutcome → ℕ
counted_as parsed parsed = 1
counted_as parsed empty = 0
counted_as parsed unparsed = 0
counted_as empty parsed = 0
counted_as empty empty = 1
counted_as empty unparsed = 0
counted_as unparsed parsed = 0
counted_as unparsed empty = 0
counted_as unparsed unparsed = 1

-- The deliveries of one outcome.
pub count_of : DeliveryOutcome → List Report → ℕ
unfolding counted_as
count_of asked [] = 0
count_of asked (receiver state ∷ rs) = count_of asked rs
count_of asked (delivery outcome at ∷ rs) = count_of asked rs + counted_as asked outcome

-- What the diagnostics `d` say after the reports `rs` on those of `before`.
record Reported (rs : List Report) (before d : Diagnostics) : Type 0 where
  all : d.delivery.delivery_count ≡ before.delivery.delivery_count + count_deliveries rs
  parsed_ones : d.delivery.parsed_count ≡ before.delivery.parsed_count + count_of parsed rs
  empty_ones : d.delivery.empty_count ≡ before.delivery.empty_count + count_of empty rs
  unparsed_ones : d.delivery.unparsed_count ≡ before.delivery.unparsed_count + count_of unparsed rs
  last : d.last_delivery_at ≡ last_delivery before.last_delivery_at rs

one_more :
    (o : DeliveryOutcome)
    → ((is_parsed o ≡ counted_as parsed o)
        × ((is_empty o ≡ counted_as empty o) × (is_unparsed o ≡ counted_as unparsed o)))
unfolding is_parsed is_empty is_unparsed counted_as
one_more parsed = (refl, (refl, refl))
one_more empty = (refl, (refl, refl))
one_more unparsed = (refl, (refl, refl))

apply_reports-Reported : (rs : List Report) (d : Diagnostics) → Reported rs d (apply_reports rs d)
unfolding apply_reports count_deliveries count_of last_delivery record_event_receiver_state
    record_event_delivery
apply_reports-Reported [] d = record {
  all = omega arith;
  parsed_ones = omega arith;
  empty_ones = omega arith;
  unparsed_ones = omega arith;
  last = refl;
}
apply_reports-Reported (receiver state ∷ rs) d =
    let r = apply_reports-Reported rs (record_event_receiver_state state d) in
    record {
      all = r.all;
      parsed_ones = r.parsed_ones;
      empty_ones = r.empty_ones;
      unparsed_ones = r.unparsed_ones;
      last = r.last;
    }
apply_reports-Reported (delivery outcome at ∷ rs) d =
    let r = apply_reports-Reported rs (record_event_delivery outcome at d) in
    let o = one_more outcome in
    record {
      all = omega (arith, r.all);
      parsed_ones = omega (arith, r.parsed_ones, o.0);
      empty_ones = omega (arith, r.empty_ones, o.1.0);
      unparsed_ones = omega (arith, r.unparsed_ones, o.1.1);
      last = r.last;
    }

-- However the receiver's states and the deliveries are reported to a new GatewayState, the deliveries
-- counted are those reported, the counter of each outcome is the number of deliveries with that outcome,
-- and the age shown at any time is that of the last delivery, or of none.
pub apply_reports-counts :
    (rs : List Report) (now : ℕ)
    → let d = event_delivery_diagnostic now (apply_reports rs no_diagnostics) in
      (d.delivery_count ≡ count_deliveries rs)
      × ((d.parsed_count ≡ count_of parsed rs)
          × ((d.empty_count ≡ count_of empty rs)
              × ((d.unparsed_count ≡ count_of unparsed rs)
                  × (d.last_delivery_age ≡ delivery_age (last_delivery none rs) now))))
unfolding no_diagnostics event_delivery_diagnostic
apply_reports-counts rs now =
    let r = apply_reports-Reported rs no_diagnostics in
    (
      omega (arith, r.all),
      (
        omega (arith, r.parsed_ones),
        (
          omega (arith, r.empty_ones),
          (omega (arith, r.unparsed_ones), ap (λ o. delivery_age o now) r.last),
        ),
      ),
    )
