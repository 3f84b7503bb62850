-- ===== src/Nvr/Ptcs.antt =====
-- The state of NvrPtcsReassembler, stream/nvr-ptcs-reassembly.ts. A frame's map key, the text
-- `channel:sequence:timestamp`, is the triple of its numbers.
pub mod Packet
pub mod State
pub mod Push
pub mod Sender
pub mod Decode
pub mod RoundTrip
pub mod Frames
pub mod Delivery
mod Runs
pub mod Budgets
use eufy_mega_security.Prelude.{
  Eq, ℕ, ◌-◌, ◌*◌, ◌^◌, ◌≡◌, ◌↔◌, arith, Bool, true, ◌&&◌, Option, none, some, [], ◌∷◌, ltb, leb,
  nat_eq, if◌then◌else◌, all,
}
use eufy_mega_security.Prelude.Bytes.{Bytes}
use eufy_mega_security.Prelude.JsMap.{JsMap}
use mathlib.Core.Bool.{decide, decide_iff}

abbrev pub packet_bytes : ℕ
packet_bytes = 1028

abbrev pub header_bytes : ℕ
header_bytes = 28

abbrev pub fragment_bytes : ℕ
fragment_bytes = 1000

abbrev pub max_safe : ℕ
max_safe = 2 ^ 53 - 1

pub record Limits : Type 0 where
  pub max_frame_bytes : ℕ
  pub max_buffered_bytes : ℕ
  pub max_pending_frames : ℕ
  pub max_fragments_per_frame : ℕ
  pub max_retained_fragments : ℕ
  pub max_decompressed_bytes : ℕ
  pub max_completed_tombstones : ℕ
  pub expiry_milliseconds : ℕ

pub data Rejection : Type 0 where
  packet_geometry magic type flags length index final_marker channel : Rejection
  frame_too_large metadata_conflict duplicate_conflict decompression replay capacity : Rejection
  poisoned : Rejection

Rejection-discrete : Discrete Rejection
Rejection-discrete = hlevel

pub beq_rejection : Rejection → Rejection → Bool
unfolding decide Rejection-discrete
beq_rejection a b = decide (Rejection-discrete a b)

pub beq_rejection_iff : (a b : Rejection) → (beq_rejection a b ≡ true) ↔ (a ≡ b)
unfolding beq_rejection
beq_rejection_iff a b = decide_iff (Rejection-discrete a b)

instance abbrev pub Eq_Rejection : Eq Rejection
unfolding beq_rejection
Eq_Rejection = record { same = beq_rejection; same_iff = beq_rejection_iff }

pub record FrameKey : Type 0 where
  pub channel : ℕ
  pub sequence : ℕ
  pub timestamp : ℕ

abbrev pub beq_key : FrameKey → FrameKey → Bool
beq_key a b =
    nat_eq a.channel b.channel && (nat_eq a.sequence b.sequence && nat_eq a.timestamp b.timestamp)

pub beq_key_iff : (a b : FrameKey) → (beq_key a b ≡ true) ↔ (a ≡ b)
beq_key_iff a b = ground arith

instance abbrev pub Eq_FrameKey : Eq FrameKey
Eq_FrameKey = record { same = beq_key; same_iff = beq_key_iff }

pub record Fragment : Type 0 where
  pub bytes : Bytes
  pub final : Bool

pub record PendingFrame : Type 0 where
  pub total : ℕ
  pub first_arrival : ℕ
  pub compressed : Bool
  pub keyframe : Bool
  pub fragments : JsMap ℕ Fragment
  pub received_bytes : ℕ
  pub final_index : Option ℕ

pub record Tombstone : Type 0 where
  pub first_arrival : ℕ
  pub reason : Rejection

pub record Reassembler : Type 0 where
  pub limits : Limits
  pub pending : JsMap FrameKey PendingFrame
  pub tombstones : JsMap FrameKey Tombstone
  pub rejected : JsMap Rejection ℕ
  pub buffered_bytes : ℕ
  pub retained_fragments : ℕ
  pub last_now : ℕ

pub data Answer : Type 0 where
  incomplete : Answer
  rejects : Rejection → Answer
  complete : ℕ → ℕ → ℕ → Bytes → Answer

abbrev pub default_limits : Limits
default_limits = record {
  max_frame_bytes = 4 * 1024 * 1024;
  max_buffered_bytes = 8 * 1024 * 1024;
  max_pending_frames = 64;
  max_fragments_per_frame = 8192;
  max_retained_fragments = 32768;
  max_decompressed_bytes = 1572864;
  max_completed_tombstones = 256;
  expiry_milliseconds = 1000;
}

-- A safe integer above 0.
abbrev pub is_budget : ℕ → Bool
is_budget n = ltb 0 n && leb n max_safe

unfoldable pub valid_limits : Limits → Bool
valid_limits l =
    all is_budget (
      l.max_frame_bytes ∷ l.max_buffered_bytes ∷ l.max_pending_frames ∷ l.max_fragments_per_frame
      ∷ l.max_retained_fragments ∷ l.max_decompressed_bytes ∷ l.max_completed_tombstones
      ∷ l.expiry_milliseconds ∷ [])
    && leb fragment_bytes l.max_frame_bytes
    && leb l.max_frame_bytes l.max_buffered_bytes

unfoldable pub fresh : Limits → Reassembler
fresh l = record {
  limits = l;
  pending = [];
  tombstones = [];
  rejected = [];
  buffered_bytes = 0;
  retained_fragments = 0;
  last_now = 0;
}

-- The constructor; `none` is its RangeError.
unfoldable pub construct : Limits → Option Reassembler
unfolding valid_limits fresh
construct l = if valid_limits l then some (fresh l) else none

unfoldable pub clear : Reassembler → Reassembler
clear s = record s { pending = []; tombstones = []; buffered_bytes = 0; retained_fragments = 0 }
