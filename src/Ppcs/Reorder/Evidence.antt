-- ===== src/Ppcs/Reorder/Evidence.antt =====
-- The numeric evidence that PpcsDatagramReorderBuffer of stream/first-party-ppcs.ts keeps of each channel.
use eufy_mega_security.Prelude.{
  ℕ, ◌+◌, Bool, true, false, ◌&&◌, Option, none, some, List, [], ◌∷◌, ltb, leb, nat_eq, Eq_ℕ, max,
  min, if◌then◌else◌,
}
use eufy_mega_security.Prelude.JsMap.{JsMap, get, put}
use eufy_mega_security.Ppcs.Reorder.{
  Disposition, stale, ahead, sequence_disposition, Effect, delivers, skips, repeats,
}

pub record SequenceEvidence : Type 0 where
  pub received_first : ℕ
  pub received_last : ℕ
  pub received_count : ℕ
  pub accepted_first : Option ℕ
  pub accepted_last : Option ℕ
  pub accepted_count : ℕ
  pub stale_first : Option ℕ
  pub stale_last : Option ℕ
  pub stale_count : ℕ
  pub stale_behind_min : Option ℕ
  pub stale_behind_max : Option ℕ
  pub previous_behind : Option ℕ
  pub advancing_run : ℕ
  pub contiguous_run : ℕ
  pub max_advancing_run : ℕ
  pub max_contiguous_run : ℕ

abbrev pub EvidenceMap : Type 0
EvidenceMap = JsMap ℕ SequenceEvidence

pub new_evidence : ℕ → SequenceEvidence
new_evidence sequence = record {
  received_first = sequence;
  received_last = sequence;
  received_count = 0;
  accepted_first = none;
  accepted_last = none;
  accepted_count = 0;
  stale_first = none;
  stale_last = none;
  stale_count = 0;
  stale_behind_min = none;
  stale_behind_max = none;
  previous_behind = none;
  advancing_run = 0;
  contiguous_run = 0;
  max_advancing_run = 0;
  max_contiguous_run = 0;
}

pub or_else : Option ℕ → ℕ → ℕ
or_else none d = d
or_else (some n) d = n

pub valid_sequence : ℕ → ℕ → Bool
valid_sequence type sequence = leb type 255 && leb sequence 65535

pub is_stale : Disposition → Bool
is_stale stale = true
is_stale d = false

-- The test of `#recordArrival` for a packet that is not behind the channel.
pub is_behind : ℕ → ℕ → Option ℕ → Bool
unfolding valid_sequence is_stale
is_behind type sequence none = false
is_behind type sequence (some previous) =
    valid_sequence type previous && is_stale (sequence_disposition (some previous) sequence)

-- The runs grow while each stale packet is nearer than the one before it.
pub run_after : (ℕ → ℕ → Bool) → Option ℕ → ℕ → ℕ → ℕ
run_after grows none behind run = 1
run_after grows (some previous) behind run = if grows behind previous then run + 1 else 1

pub count_stale : ℕ → ℕ → SequenceEvidence → SequenceEvidence
unfolding or_else run_after
count_stale sequence behind v =
    let advancing = run_after (λ b p. ltb b p) v.previous_behind behind v.advancing_run in
    let contiguous =
      run_after (λ b p. nat_eq (b + 1) p) v.previous_behind behind v.contiguous_run in
    record v {
      stale_first = some (or_else v.stale_first sequence);
      stale_last = some sequence;
      stale_count = v.stale_count + 1;
      stale_behind_min = some (min (or_else v.stale_behind_min behind) behind);
      stale_behind_max = some (max (or_else v.stale_behind_max behind) behind);
      advancing_run = advancing;
      contiguous_run = contiguous;
      max_advancing_run = max v.max_advancing_run advancing;
      max_contiguous_run = max v.max_contiguous_run contiguous;
      previous_behind = some behind;
    }

pub known_evidence : ℕ → Option SequenceEvidence → SequenceEvidence
unfolding new_evidence
known_evidence sequence none = new_evidence sequence
known_evidence sequence (some v) = v

pub count_received : ℕ → SequenceEvidence → SequenceEvidence
count_received sequence v = record v {
  received_last = sequence;
  received_count = v.received_count + 1;
}

pub forget_run : SequenceEvidence → SequenceEvidence
forget_run v = record v { previous_behind = none; advancing_run = 0; contiguous_run = 0 }

pub arrival : ℕ → ℕ → Option ℕ → SequenceEvidence → SequenceEvidence
unfolding is_behind count_stale forget_run or_else
arrival type sequence previous v =
    if is_behind type sequence previous
    then count_stale sequence (ahead (or_else previous 0) sequence) v
    else forget_run v

-- `#recordArrival`.
unfoldable pub record_arrival : ℕ → ℕ → Option ℕ → EvidenceMap → EvidenceMap
unfolding valid_sequence known_evidence count_received arrival
record_arrival type sequence previous m =
    if valid_sequence type sequence
    then put type
        (arrival type sequence previous
          (count_received sequence (known_evidence sequence (get type m))))
        m
    else m

pub count_accepted : ℕ → SequenceEvidence → SequenceEvidence
unfolding or_else
count_accepted sequence v = record v {
  accepted_first = some (or_else v.accepted_first sequence);
  accepted_last = some sequence;
  accepted_count = v.accepted_count + 1;
}

-- The evidence's share of `#deliver`.
pub record_delivery : ℕ → ℕ → EvidenceMap → EvidenceMap
unfolding valid_sequence count_accepted
record_delivery type sequence m =
    if valid_sequence type sequence
    then (elim (get type m) [ none ↦ m | some v ↦ put type (count_accepted sequence v) m ])
    else m

-- The deliveries of one operation, in order.
unfoldable pub record_effects : List Effect → EvidenceMap → EvidenceMap
unfolding record_delivery
record_effects [] m = m
record_effects (delivers sequence body type ∷ es) m =
    record_effects es (record_delivery type sequence m)
record_effects (skips type skip ∷ es) m = record_effects es m
record_effects (repeats disposition ∷ es) m = record_effects es m
