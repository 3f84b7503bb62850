-- ===== src/Domain/Gateway/Holds.antt =====
-- The flags of a GatewayState and its clear timers, together.
pub mod Steps
pub mod Reached
use Prim.Native.String.{String}
use eufy_mega_security.Prelude.{
  Eq, Eq_String, ℕ, Bool, true, false, Option, none, some, ◌≡◌, ◌≢◌, refl, ap, ◌∙◌, is_some,
  beq-cases, inl, inr,
}
use eufy_mega_security.Prelude.JsMap.{
  JsMap, get, put, remove, Distinct, get-put_self, get-put_ne, get-remove_self, get-remove_ne,
  remove-Distinct, put-Distinct,
}
use eufy_mega_security.Domain.Kinds.{OtherKind, TimerKey, Eq_TimerKey, Eq_OtherKind}
use eufy_mega_security.Domain.Gateway.{Camera, Gateway, aggregate_motion, schedule}

-- Of one serial: the camera, its motion timer, its person timer, and the timers of its other kinds.
pub HeldBy : Option Camera → Option ℕ → Option ℕ → (OtherKind → Option ℕ) → Type 0
unfolding aggregate_motion
HeldBy none m p d = (m ≡ none) × ((p ≡ none) × ((k : OtherKind) → d k ≡ none))
HeldBy (some c) m p d =
    (c.motion_detected ≡ aggregate_motion c)
    × ((c.raw_motion_detected ≡ is_some m)
        × ((c.person_detected ≡ is_some p) × ((k : OtherKind) → c.detected k ≡ is_some (d k))))

pub key_of : String → OtherKind → TimerKey
key_of serial kind = record { serial = serial; kind = kind }

pub HeldAt : Gateway → String → Type 0
unfolding HeldBy key_of
HeldAt g serial =
    HeldBy (get serial g.cameras) (get serial g.motion_timers) (get serial g.person_timers)
      (λ k. get (key_of serial k) g.detection_timers)

pub Held : Gateway → Type 0
unfolding HeldAt
Held g =
    Distinct g.motion_timers
    × (Distinct g.person_timers
        × (Distinct g.detection_timers × ((serial : String) → HeldAt g serial)))

module _ {ℓ} {K : Type ℓ} ⦃e : Eq K⦄ where
  pub get-schedule_self :
      (k : K) (b : Bool) (at : ℕ) (timers : JsMap K ℕ)
      → Distinct timers
      → is_some (get k (schedule k b at timers)) ≡ b
  unfolding schedule
  get-schedule_self k true at timers d = ap is_some (get-put_self k at (remove k timers))
  get-schedule_self k false at timers d = ap is_some (get-remove_self k timers d)

  pub get-schedule_ne :
      (k j : K) (b : Bool) (at : ℕ) (timers : JsMap K ℕ)
      → k ≢ j
      → get k (schedule j b at timers) ≡ get k timers
  unfolding schedule
  get-schedule_ne k j true at timers ne =
      get-put_ne k j at (remove j timers) ne ∙ get-remove_ne k j timers ne
  get-schedule_ne k j false at timers ne = get-remove_ne k j timers ne

  pub schedule-Distinct :
      (k : K) (b : Bool) (at : ℕ) (timers : JsMap K ℕ)
      → Distinct timers
      → Distinct (schedule k b at timers)
  unfolding schedule
  schedule-Distinct k true at timers d =
      put-Distinct k at (remove k timers) (remove-Distinct k timers d)
  schedule-Distinct k false at timers d = remove-Distinct k timers d

-- The timers of one serial may differ, those of the others do not.
pub Agree : String → JsMap String ℕ → JsMap String ℕ → Type 0
Agree serial old new = Distinct new × ((t : String) → t ≢ serial → get t new ≡ get t old)

pub AgreeKeys : String → JsMap TimerKey ℕ → JsMap TimerKey ℕ → Type 0
unfolding key_of
AgreeKeys serial old new =
    Distinct new
    × ((t : String) (k : OtherKind) → t ≢ serial → get (key_of t k) new ≡ get (key_of t k) old)

pub Agree-same : (serial : String) (old : JsMap String ℕ) → Distinct old → Agree serial old old
unfolding Agree
Agree-same serial old d = (d, λ t ne. refl)

pub AgreeKeys-same :
    (serial : String) (old : JsMap TimerKey ℕ) → Distinct old → AgreeKeys serial old old
unfolding AgreeKeys
AgreeKeys-same serial old d = (d, λ t k ne. refl)

pub Agree-remove :
    (serial : String) (old : JsMap String ℕ) → Distinct old → Agree serial old (remove serial old)
unfolding Agree
Agree-remove serial old d = (remove-Distinct serial old d, λ t ne. get-remove_ne t serial old ne)

pub Agree-schedule :
    (serial : String) (b : Bool) (at : ℕ) (old new : JsMap String ℕ)
    → Agree serial old new
    → Agree serial old (schedule serial b at new)
unfolding Agree
Agree-schedule serial b at old new a =
    (schedule-Distinct serial b at new a.0, λ t ne. get-schedule_ne t serial b at new ne ∙ a.1 t ne)

key_of-ne : (t serial : String) (k j : OtherKind) → t ≢ serial → key_of t k ≢ key_of serial j
unfolding key_of
key_of-ne t serial k j ne e = ne (ap (λ key. key.serial) e)

pub key_of-kind_ne : (serial : String) (k j : OtherKind) → k ≢ j → key_of serial k ≢ key_of serial j
unfolding key_of
key_of-kind_ne serial k j ne e = ne (ap (λ key. key.kind) e)

pub AgreeKeys-remove :
    (serial : String) (k : OtherKind) (old : JsMap TimerKey ℕ)
    → Distinct old
    → AgreeKeys serial old (remove (key_of serial k) old)
unfolding AgreeKeys
AgreeKeys-remove serial k old d = (
  remove-Distinct (key_of serial k) old d,
  λ t j ne. get-remove_ne (key_of t j) (key_of serial k) old (key_of-ne t serial j k ne),
)

pub AgreeKeys-schedule :
    (serial : String) (k : OtherKind) (b : Bool) (at : ℕ) (old new : JsMap TimerKey ℕ)
    → AgreeKeys serial old new
    → AgreeKeys serial old (schedule (key_of serial k) b at new)
unfolding AgreeKeys
AgreeKeys-schedule serial k b at old new a = (
  schedule-Distinct (key_of serial k) b at new a.0,
  λ t j ne.
      get-schedule_ne (key_of t j) (key_of serial k) b at new (key_of-ne t serial j k ne)
      ∙ a.1 t j ne,
)

-- One camera is put, and only its own timers change.
pub rebuilt :
    Gateway → String → Camera → JsMap String ℕ → JsMap String ℕ → JsMap TimerKey ℕ → Gateway
rebuilt g serial c m p d = record g {
  cameras = put serial c g.cameras;
  motion_timers = m;
  person_timers = p;
  detection_timers = d;
}

HeldBy-cong :
    (o u : Option Camera) (m n p q : Option ℕ) (d e : OtherKind → Option ℕ)
    → o ≡ u
    → m ≡ n
    → p ≡ q
    → d ≡ e
    → HeldBy u n q e
    → HeldBy o m p d
HeldBy-cong o u m n p q d e eo em ep ed h = rw (eo, em, ep, ed) h

rebuilt-HeldAt :
    (g : Gateway) (serial : String) (c : Camera) (m p : JsMap String ℕ) (d : JsMap TimerKey ℕ)
    (t : String)
    → Held g
    → Agree serial g.motion_timers m
    → Agree serial g.person_timers p
    → AgreeKeys serial g.detection_timers d
    → t ≢ serial
    → HeldAt (rebuilt g serial c m p d) t
unfolding Held HeldAt Agree AgreeKeys rebuilt
rebuilt-HeldAt g serial c m p d t h am ap_ ad ne =
    HeldBy-cong (get t (put serial c g.cameras)) (get t g.cameras) (get t m) (get t g.motion_timers)
      (get t p) (get t g.person_timers) (λ k. get (key_of t k) d)
      (λ k. get (key_of t k) g.detection_timers) (get-put_ne t serial c g.cameras ne) (am.1 t ne)
      (ap_.1 t ne) (λ i k. ad.1 t k ne i) (h.1.1.1 t)

pub rebuilt-Held :
    (g : Gateway) (serial : String) (c : Camera) (m p : JsMap String ℕ) (d : JsMap TimerKey ℕ)
    → Held g
    → Agree serial g.motion_timers m
    → Agree serial g.person_timers p
    → AgreeKeys serial g.detection_timers d
    → HeldBy (some c) (get serial m) (get serial p) (λ k. get (key_of serial k) d)
    → Held (rebuilt g serial c m p d)
unfolding Held HeldAt Agree AgreeKeys rebuilt
rebuilt-Held g serial c m p d h am ap_ ad own = (
  am.0,
  (
    ap_.0,
    (
      ad.0,
      λ t. elim (beq-cases t serial) [
        | inl same ↦ rw (same.1, get-put_self serial c g.cameras) own
        | inr other ↦ rebuilt-HeldAt g serial c m p d t h am ap_ ad other.1
      ],
    ),
  ),
)
