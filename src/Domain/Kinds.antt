-- ===== src/Domain/Kinds.antt =====
-- DetectionKind of domain/types.ts. `OtherKind` is what recordDetection takes: every kind but motion,
-- person and doorbell.
use mathlib.Core.Path.{◌≡◌}
use mathlib.Core.Logic.{◌↔◌}
use mathlib.Core.Bool.{decide, decide_iff}
use Prim.Native.String.{String}
use eufy_mega_security.Prelude.{
  Eq, Eq_String, Bool, true, false, refl, ◌&&◌, ◌==◌, beq-cases, arith,
}

pub data OtherKind : Type 0 where
  stranger pet vehicle dog crying sound package_delivered package_taken package_stranded : OtherKind

pub data DetectionKind : Type 0 where
  motion person doorbell : DetectionKind
  other : OtherKind → DetectionKind

OtherKind-discrete : Discrete OtherKind
OtherKind-discrete = hlevel

pub beq_kind : OtherKind → OtherKind → Bool
unfolding decide OtherKind-discrete
beq_kind k j = decide (OtherKind-discrete k j)

pub beq_kind_iff : (k j : OtherKind) → (beq_kind k j ≡ true) ↔ (k ≡ j)
unfolding beq_kind
beq_kind_iff k j = decide_iff (OtherKind-discrete k j)

instance abbrev pub Eq_OtherKind : Eq OtherKind
Eq_OtherKind = record { same = beq_kind; same_iff = beq_kind_iff }

-- The key `serial:kind` of a clear timer. No kind holds a colon, so the text tells the pairs apart.
pub record TimerKey : Type 0 where
  pub serial : String
  pub kind : OtherKind

pub beq_timer_key : TimerKey → TimerKey → Bool
beq_timer_key a b = a.serial == b.serial && (a.kind == b.kind)

pub beq_timer_key_iff : (a b : TimerKey) → (beq_timer_key a b ≡ true) ↔ (a ≡ b)
unfolding beq_timer_key
beq_timer_key_iff a b = ground (arith, beq-cases a.serial b.serial, beq-cases a.kind b.kind)

instance abbrev pub Eq_TimerKey : Eq TimerKey
Eq_TimerKey = record { same = beq_timer_key; same_iff = beq_timer_key_iff }

-- A kind that is none of the visual ones.
abbrev pub Apart : OtherKind → Type 0
Apart j =
    (beq_kind stranger j ≡ false)
    × ((beq_kind pet j ≡ false)
        × ((beq_kind vehicle j ≡ false)
            × ((beq_kind dog j ≡ false)
                × ((beq_kind package_delivered j ≡ false)
                    × ((beq_kind package_taken j ≡ false)
                        × (beq_kind package_stranded j ≡ false))))))

pub crying-Apart : Apart crying
unfolding beq_kind decide OtherKind-discrete
crying-Apart = (refl, (refl, (refl, (refl, (refl, (refl, refl))))))

pub sound-Apart : Apart sound
unfolding beq_kind decide OtherKind-discrete
sound-Apart = (refl, (refl, (refl, (refl, (refl, (refl, refl))))))
