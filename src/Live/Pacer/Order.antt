-- ===== src/Live/Pacer/Order.antt =====
-- The order in which LiveFramePacer of stream/live-frame-pacer.ts plays the video it is sent.
mod Accepting
mod Calls
mod Clock
pub mod Delivery
mod Timers
use mathlib.Core.List.{append_assoc, append-nil}
use eufy_mega_security.Prelude.{
  ℕ, ◌≡◌, refl, sym, ap, ◌∙◌, inl, inr, Bool, true, false, Option, none, List, [], ◌∷◌, ◌++◌, All,
  if◌then◌else◌, is_some, Bool-cases,
}
use eufy_mega_security.Prelude.Bytes.{Bytes}
use eufy_mega_security.Live.Pacer.{
  Arithmetic, buffered, Kind, video, audio, Packet, Failure, Effect, plays, fails, admits, Pacer,
  close, reject, then_,
}
use eufy_mega_security.Live.Pacer.Lined.{vids, bodies, AtMost, Rising}

pub played_kind : Kind → Bytes → List Bytes → List Bytes
played_kind video b bs = b ∷ bs
played_kind audio b bs = bs

-- The video among the effects.
pub played : List Effect → List Bytes
unfolding played_kind
played [] = []
played (plays kind body time ∷ es) = played_kind kind body (played es)
played (fails reason ∷ es) = played es
played (admits with_audio ∷ es) = played es

-- The video that the pacer still holds: the queue's, then the units without a clock.
pub waiting : Pacer → List Bytes
waiting p = bodies (vids p.queue) ++ p.bootstrap

pub played-append : (es fs : List Effect) → played (es ++ fs) ≡ played es ++ played fs
unfolding played
played-append [] fs = refl
played-append (plays video b t ∷ es) fs = ap (◌∷◌ b) (played-append es fs)
played-append (plays audio b t ∷ es) fs = played-append es fs
played-append (fails reason ∷ es) fs = played-append es fs
played-append (admits with_audio ∷ es) fs = played-append es fs

pub close_closed : (p : Pacer) → (close p).closed ≡ false → ⊥
unfolding close
close_closed p h = cc

-- Two parts of a run, one after the other.
pub joined :
    (p : Pacer) (xs ys : List Bytes) (r rest : Pacer × List Effect)
    → (r.0.closed ≡ false → played r.1 ++ waiting r.0 ≡ waiting p ++ xs)
    → ((rest.0.closed ≡ false → played rest.1 ++ waiting rest.0 ≡ waiting r.0 ++ ys)
        × (r.0.closed ≡ true → rest.0.closed ≡ true))
    → rest.0.closed ≡ false
    → played (r.1 ++ rest.1) ++ waiting rest.0 ≡ waiting p ++ (xs ++ ys)
joined p xs ys r rest flow next open_still = elim (Bool-cases r.0.closed) [
  | inl closed ↦ absurd (let c = next.1 closed in cc)
  | inr running ↦
      ap (λ l. l ++ waiting rest.0) (played-append r.1 rest.1)
      ∙ append_assoc (played r.1) (played rest.1) (waiting rest.0)
      ∙ ap (◌++◌ (played r.1)) (next.0 open_still)
      ∙ sym (append_assoc (played r.1) (waiting r.0) ys)
      ∙ ap (λ l. l ++ ys) (flow running)
      ∙ append_assoc (waiting p) xs ys
]

pub if_either :
    (P : Pacer × List Effect → Type 0) (b : Bool) (x y : Pacer × List Effect)
    → (b ≡ true → P x)
    → (b ≡ false → P y)
    → P (if b then x else y)
if_either P true x y f g = f refl
if_either P false x y f g = g refl

module _ ⦃a : Arithmetic⦄ where
  -- What holds of the queue.
  pub record Lined (queue : List Packet) (bootstrap : List Bytes) (epoch : Option ℕ)
      (origin elapsed : ℕ) (held_back : Bool) : Type 0 where
    pub sorted : Rising queue
    pub below : All (AtMost (a.add (buffered origin) (a.whole elapsed))) (vids queue)
    pub before : epoch ≡ none → (vids queue ≡ []) × (elapsed ≡ 0)
    pub after : is_some epoch ≡ true → bootstrap ≡ []
    pub begun : held_back ≡ false

  abbrev pub LinedAt : Pacer → Type 0
  LinedAt p = Lined p.queue p.bootstrap p.epoch p.video_origin p.video_elapsed p.startup_waiting

  -- An operation that takes the video `extra` in.
  pub record Moves (p : Pacer) (extra : List Bytes) (r : Pacer × List Effect) : Type 0 where
    pub lined : LinedAt r.0
    pub flow : r.0.closed ≡ false → played r.1 ++ waiting r.0 ≡ waiting p ++ extra
    pub stays : p.closed ≡ true → r.0.closed ≡ true

  pub close-Lined : (p : Pacer) → LinedAt p → LinedAt (close p)
  unfolding close vids
  close-Lined p v = record {
    sorted = tt;
    below = tt;
    before = λ e. (refl, (v.before e).1);
    after = λ e. refl;
    begun = v.begun;
  }

  pub reject-Moves :
      (p : Pacer) (extra : List Bytes) (reason : Failure)
      → LinedAt p
      → Moves p extra (reject reason p)
  unfolding reject
  reject-Moves p extra reason v = record {
    lined = close-Lined p v;
    flow = λ open_still. absurd (close_closed p open_still);
    stays = λ _. unfold close in refl;
  }

  pub then-Moves :
      (p : Pacer) (xs ys : List Bytes) (r : Pacer × List Effect) (f : Pacer → Pacer × List Effect)
      → Moves p xs r
      → Moves r.0 ys (f r.0)
      → Moves p (xs ++ ys) (then_ r f)
  unfolding then_
  then-Moves p xs ys r f m n = record {
    lined = n.lined;
    flow = joined p xs ys r (f r.0) m.flow (n.flow, n.stays);
    stays = λ closed. n.stays (m.stays closed);
  }

  -- An operation that leaves the queue and the bootstrap alone.
  pub still-Moves :
      (p p' : Pacer)
      → LinedAt p'
      → waiting p' ≡ waiting p
      → (p.closed ≡ true → p'.closed ≡ true)
      → Moves p [] (p', [])
  unfolding played
  still-Moves p p' v w c = record {
    lined = v;
    flow = λ _. w ∙ sym (append-nil (waiting p));
    stays = c;
  }

  pub if_Moves :
      (p : Pacer) (extra : List Bytes) (b : Bool) (x y : Pacer × List Effect)
      → (b ≡ true → Moves p extra x)
      → (b ≡ false → Moves p extra y)
      → Moves p extra (if b then x else y)
  if_Moves p extra b x y f g = if_either (Moves p extra) b x y f g
