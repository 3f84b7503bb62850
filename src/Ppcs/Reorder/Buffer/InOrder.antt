-- ===== src/Ppcs/Reorder/Buffer/InOrder.antt =====
-- Packets that arrive in any order, and what PpcsDatagramReorderBuffer of stream/first-party-ppcs.ts
-- has delivered by then.
use eufy_mega_security.Prelude.{
  ℕ, ◌+◌, ◌≤◌, ◌<◌, ◌≡◌, refl, subst, ap₂, ◌∙◌, true, false, none, some, List, [], ◌∷◌, ◌++◌, arith,
  Eq_ℕ, nat_eq-false, ◌||◌, All, length,
}
use eufy_mega_security.Prelude.Bytes.{Bytes}
use eufy_mega_security.Prelude.JsMap.{get, get-put_self}
use eufy_mega_security.Ppcs.Reorder.{Channel, Effect, accept, open_with}
use eufy_mega_security.Ppcs.Reorder.Progress.{delivered, never, delivered-append}
use eufy_mega_security.Ppcs.Reorder.Arrivals.{
  Arrivals, arrived, place, sizes, span, span-append, Partly,
}
use eufy_mega_security.Ppcs.Reorder.Arrivals.Accept.{accept-Ran}
use eufy_mega_security.Ppcs.Reorder.Buffer.{
  Buffer, settle, route, arrive, push, push_when, Call, pushes, step, run,
}

-- A place that the buffer can tell from a restart, whatever has been delivered.
abbrev pub NearBy : ℕ × ℕ → Type 0
NearBy (j, now) = j ≤ 1024

arrived_far :
    (xs : Arrivals) (j now : ℕ)
    → j ≤ 1024
    → arrived 1025 xs ≡ false
    → arrived 1025 ((j, now) ∷ xs) ≡ false
unfolding arrived
arrived_far xs j now h e = rw (nat_eq-false j 1025 (λ q. omega (arith, q))) e

-- The pushes of the arrivals, each packet under its sequence number.
pub pushed : (ℕ → Bytes) → ℕ → ℕ → Arrivals → List Call
pushed sent base type [] = []
pushed sent base type ((j, now) ∷ xs) =
    pushes (sent j) (place base j) type now ∷ pushed sent base type xs

-- All arrivals, in the order in which the invariant names them.
joined : Arrivals → Arrivals → Arrivals
joined seen [] = seen
joined seen (x ∷ xs) = joined (x ∷ seen) xs

module _ (sent : ℕ → Bytes) (base wait type : ℕ) where
  record Amid (seen : Arrivals) (k : ℕ) (s : Buffer) : Type 0 where
    running : s.closed ≡ false
    channel : Channel
    known : get type s.channels ≡ some channel
    partly : Partly sent base seen k channel
    missing : arrived (k + 1) seen ≡ false

  step-Amid :
      (seen : Arrivals) (k j now : ℕ) (s : Buffer)
      → j ≤ 1024
      → length seen + 1 < 128
      → sizes sent ((j, now) ∷ seen) < 2097152
      → arrived 1025 seen ≡ false
      → Amid seen k s
      → let r = push never wait (sent j) (place base j) type now s in
        (n : ℕ) × (delivered r.1 ≡ span sent k n) × Amid ((j, now) ∷ seen) (k + n) r.0
  unfolding push push_when
  step-Amid seen k j now s b few light top a =
      let o = accept never wait (place base j) type now (sent j) a.channel in
      let r =
        accept-Ran sent base wait type now seen k j a.channel b few light top a.partly a.missing in
      rw (a.running, a.known)
        (
          r.count,
          r.out,
          unfold settle route arrive in
              record {
                running = r.open_still;
                channel = o.channel;
                known = rw (r.open_still, get-put_self type o.channel s.channels) refl;
                partly = r.now_at;
                missing = r.missing;
              },
        )

  record Continues (seen xs : Arrivals) (k : ℕ) (r : Buffer × List Effect) : Type 0 where
    count : ℕ
    out : delivered r.1 ≡ span sent k count
    now_at : Amid (joined seen xs) (k + count) r.0

  run-Continues :
      (seen xs : Arrivals) (k : ℕ) (s : Buffer)
      → All NearBy xs
      → length seen + length xs < 128
      → sizes sent seen + sizes sent xs < 2097152
      → arrived 1025 seen ≡ false
      → Amid seen k s
      → Continues seen xs k (run never wait s (pushed sent base type xs))
  unfolding run pushed span delivered joined
  run-Continues seen [] k s q few light top a = record {
    count = 0;
    out = refl;
    now_at = subst (λ (i : ℕ). Amid seen i s) (omega arith) a;
  }
  run-Continues seen ((j, now) ∷ xs) k s q few light top a =
      let push_one = push never wait (sent j) (place base j) type now s in
      let step_one =
        step-Amid seen k j now s q.0 (omega arith) (unfold sizes in omega arith) top a in
      let (n, out, a') = step_one in
      let rest =
        run-Continues ((j, now) ∷ seen) xs (k + n) push_one.0 q.1 (omega arith)
          (unfold sizes in omega arith) (arrived_far seen j now q.0 top) a' in
      let later = (run never wait push_one.0 (pushed sent base type xs)).1 in
      unfold step in
      record {
        count = n + rest.count;
        out =
            delivered-append push_one.1 later
            ∙ ap₂ ◌++◌ out rest.out
            ∙ span-append sent k n rest.count;
        now_at =
            subst
              (λ (i : ℕ).
                Amid (joined ((j, now) ∷ seen) xs) i
                  (run never wait push_one.0 (pushed sent base type xs)).0)
              {x = k + n + rest.count} (omega arith) rest.now_at;
      }

arrived-joined :
    (j : ℕ) (seen xs : Arrivals) → arrived j (joined seen xs) ≡ (arrived j xs || arrived j seen)
unfolding arrived joined
arrived-joined j seen [] = refl
arrived-joined j seen ((i, now) ∷ xs) = ground (arith, arrived-joined j ((i, now) ∷ seen) xs)

arrived-nil : (j : ℕ) → arrived j [] ≡ false
unfolding arrived
arrived-nil j = refl

any_of : (j : ℕ) (xs : Arrivals) → arrived j (joined [] xs) ≡ true → arrived j xs ≡ true
any_of j xs h = ground (arith, arrived-joined j [] xs, arrived-nil j, h)

none_of : (j : ℕ) (xs : Arrivals) → arrived j (joined [] xs) ≡ false → arrived j xs ≡ false
none_of j xs h = ground (arith, arrived-joined j [] xs, h)

module _ (sent : ℕ → Bytes) (base wait type now : ℕ) (s : Buffer) where
  first_out :
      s.closed ≡ false
      → get type s.channels ≡ none
      → delivered (push never wait (sent 0) base type now s).1 ≡ sent 0 ∷ []
  unfolding push push_when route open_with delivered
  first_out running new = rw (running, new) refl

  first-Amid :
      base < 65536
      → s.closed ≡ false
      → get type s.channels ≡ none
      → Amid sent base wait type [] 0 (push never wait (sent 0) base type now s).0
  unfolding push push_when route settle open_with arrive
  first-Amid b running new =
      let c : Channel = record { last = base; held = []; bytes = 0; timer = none } in
      rw (running, new)
        (record {
          running = refl;
          channel = c;
          known = get-put_self type c s.channels;
          partly = record {
            last = unfold place in omega arith;
            bounded = omega arith;
            kept = λ j h l. unfold arrived in refl;
            seen = λ j h l. absurd (omega arith);
            few = omega arith;
            light = omega arith;
          };
          missing = unfold arrived in refl;
        })

-- What comes out by the time that the packets `xs` have come in, in whatever order: the first packet and
-- then the places after it without a hole, up to the first that has not arrived.
pub record InOrder (sent : ℕ → Bytes) (xs : Arrivals) (bodies : List Bytes) : Type 0 where
  pub count : ℕ
  pub out : bodies ≡ sent 0 ∷ span sent 0 count
  pub all_there : (j : ℕ) → 1 ≤ j → j ≤ count → arrived j xs ≡ true
  pub next_missing : arrived (count + 1) xs ≡ false

-- For a channel that is new to an open buffer, whatever other channels the buffer has, whose session stays
-- open, and whose timer does not run out: when it takes, with no call for another channel between, a first
-- packet and at most 126 further packets of less than 2 MiB together, at most 1024 places ahead of the first
-- one and in any order and number of copies, what is delivered is the first packet and then, in sequence,
-- every later one up to the first that has not arrived.
pub pushes-InOrder :
    (s : Buffer) (sent : ℕ → Bytes) (base wait type now : ℕ) (xs : Arrivals)
    → s.closed ≡ false
    → get type s.channels ≡ none
    → base < 65536
    → All NearBy xs
    → length xs < 127
    → sizes sent xs < 2097152
    → InOrder sent xs
        (delivered (run never wait s (pushes (sent 0) base type now ∷ pushed sent base type xs)).1)
pushes-InOrder s sent base wait type now xs running new b q few light =
    let first = push never wait (sent 0) base type now s in
    let r =
      run-Continues sent base wait type [] xs 0 first.0 q (omega arith)
        (unfold sizes in omega arith) (unfold arrived in refl)
        (first-Amid sent base wait type now s b running new) in
    unfold run step in
    record {
      count = r.count;
      out =
          delivered-append first.1 (run never wait first.0 (pushed sent base type xs)).1
          ∙ ap₂ ◌++◌ (first_out sent base wait type now s running new) r.out;
      all_there = λ j h l. any_of j xs (r.now_at.partly.seen j h (omega arith));
      next_missing = none_of (r.count + 1) xs (
          subst (λ (i : ℕ). arrived i (joined [] xs) ≡ false) {x = 0 + r.count + 1} (omega arith)
            r.now_at.missing);
    }
