-- ===== src/Live/Pacer/Lined.antt =====
-- The video packets in the queue of LiveFramePacer, stream/live-frame-pacer.ts.
use native.Mathlib.Decide.{dec_lt}
use eufy_mega_security.Prelude.{
  ℕ, ◌≤◌, ◌<◌, ◌≡◌, refl, sym, subst, ap, ◌∙◌, ◌⊎◌, inl, inr, List, [], ◌∷◌, ◌++◌, arith, All,
  All-append, lt→ltb, ltb-false,
}
use eufy_mega_security.Prelude.Bytes.{Bytes}
use eufy_mega_security.Live.Pacer.{Kind, video, audio, Packet, insert_packet}

pub take_video : Kind → Packet → List Packet → List Packet
take_video video p ps = p ∷ ps
take_video audio p ps = ps

unfoldable pub vids : List Packet → List Packet
unfolding take_video
vids [] = []
vids (p ∷ ps) = take_video p.kind p (vids ps)

unfoldable pub bodies : List Packet → List Bytes
bodies [] = []
bodies (p ∷ ps) = p.body ∷ bodies ps

abbrev pub AtMost : ℕ → Packet → Type 0
AtMost bound p = p.at_time ≤ bound

abbrev pub AtLeast : ℕ → Packet → Type 0
AtLeast bound p = bound ≤ p.at_time

abbrev pub Rising : List Packet → Type 0
Rising [] = Unit {0}
Rising (p ∷ ps) = All (AtLeast p.at_time) ps × Rising ps

pub bodies-append : (ps qs : List Packet) → bodies (ps ++ qs) ≡ bodies ps ++ bodies qs
unfolding bodies
bodies-append [] qs = refl
bodies-append (p ∷ ps) qs = ap (◌∷◌ p.body) (bodies-append ps qs)

pub AtMost-le : (a b : ℕ) (ps : List Packet) → a ≤ b → All (AtMost a) ps → All (AtMost b) ps
AtMost-le a b [] h v = tt
AtMost-le a b (p ∷ ps) h v = (omega (arith, v.0), AtMost-le a b ps h v.1)

pub Rising-append :
    (ps : List Packet) (p : Packet)
    → All (AtMost p.at_time) ps
    → Rising ps
    → Rising (ps ++ (p ∷ []))
Rising-append [] p v r = (tt, tt)
Rising-append (q ∷ ps) p v r =
    (All-append (AtLeast q.at_time) ps (p ∷ []) r.0 (v.0, tt), Rising-append ps p v.1 r.1)

module _ (p : Packet) where
  vids_of : (k : Kind) (qs : List Packet) → p.kind ≡ k → vids (p ∷ qs) ≡ take_video k p (vids qs)
  unfolding vids
  vids_of k qs e = rw e refl

  pub vids-video : (qs : List Packet) → p.kind ≡ video → vids (p ∷ qs) ≡ p ∷ vids qs
  vids-video qs e = vids_of video qs e ∙ unfold take_video in refl

  pub vids-audio : (qs : List Packet) → p.kind ≡ audio → vids (p ∷ qs) ≡ vids qs
  vids-audio qs e = vids_of audio qs e ∙ unfold take_video in refl

pub kinds : (k : Kind) → (k ≡ video) ⊎ (k ≡ audio)
kinds video = inl refl
kinds audio = inr refl

-- Nothing that is later than every video packet is one.
none_later :
    (a b : ℕ) (qs : List Packet)
    → a < b
    → All (AtLeast b) qs
    → All (AtMost a) (vids qs)
    → vids qs ≡ []
none_later a b [] h l v = unfold vids in refl
none_later a b (q ∷ qs) h l v = elim (kinds q.kind) [
  | inl k ↦
      let v' : All (AtMost a) (q ∷ vids qs) =
        subst (λ (l : List Packet). All (AtMost a) l) (vids-video q qs k) v in
      absurd (omega (arith, v'.0, l.0))
  | inr k ↦ rw (vids-audio q qs k) (none_later a b qs h l.1 (rw (← vids-audio q qs k) v))
]

pub AtLeast-le : (a b : ℕ) (ps : List Packet) → a ≤ b → All (AtLeast b) ps → All (AtLeast a) ps
AtLeast-le a b [] h v = tt
AtLeast-le a b (p ∷ ps) h v = (omega (arith, v.0), AtLeast-le a b ps h v.1)

AtLeast-insert :
    (a : ℕ) (p : Packet) (qs : List Packet)
    → a ≤ p.at_time
    → All (AtLeast a) qs
    → All (AtLeast a) (insert_packet p qs)
unfolding insert_packet
AtLeast-insert a p [] h v = (h, tt)
AtLeast-insert a p (q ∷ qs) h v = elim (dec_lt p.at_time q.at_time) [
  | yes before ↦ rw (lt→ltb p.at_time q.at_time before) (h, v)
  | no after ↦ rw (ltb-false p.at_time q.at_time (omega arith)) (v.0, AtLeast-insert a p qs h v.1)
]

pub Rising-insert : (p : Packet) (qs : List Packet) → Rising qs → Rising (insert_packet p qs)
unfolding insert_packet
Rising-insert p [] r = (tt, tt)
Rising-insert p (q ∷ qs) r = elim (dec_lt p.at_time q.at_time) [
  | yes before ↦
      rw (lt→ltb p.at_time q.at_time before)
        ((omega arith, AtLeast-le p.at_time q.at_time qs (omega arith) r.0), r)
  | no after ↦
      rw (ltb-false p.at_time q.at_time (omega arith))
        (AtLeast-insert q.at_time p qs (omega arith) r.0, Rising-insert p qs r.1)
]

-- A video packet that is not earlier than the others goes behind them.
pub vids-insert_video :
    (p : Packet) (qs : List Packet)
    → p.kind ≡ video
    → Rising qs
    → All (AtMost p.at_time) (vids qs)
    → vids (insert_packet p qs) ≡ vids qs ++ (p ∷ [])
unfolding insert_packet
vids-insert_video p [] k r v = vids-video p [] k ∙ unfold vids in refl
vids-insert_video p (q ∷ qs) k r v = elim (dec_lt p.at_time q.at_time) [
  | yes before ↦
      let none_left : vids (q ∷ qs) ≡ [] =
        none_later p.at_time q.at_time (q ∷ qs) before (omega arith, r.0) v in
      rw (lt→ltb p.at_time q.at_time before) (vids-video p (q ∷ qs) k ∙ rw none_left refl)
  | no after ↦ rw (ltb-false p.at_time q.at_time (omega arith)) (elim (kinds q.kind) [
    | inl kq ↦
        let v' : All (AtMost p.at_time) (q ∷ vids qs) =
          subst (λ (l : List Packet). All (AtMost p.at_time) l) (vids-video q qs kq) v in
        vids-video q (insert_packet p qs) kq
        ∙ ap (◌∷◌ q) (vids-insert_video p qs k r.1 v'.1)
        ∙ ap (λ l. l ++ (p ∷ [])) (sym (vids-video q qs kq))
    | inr kq ↦
        vids-audio q (insert_packet p qs) kq
        ∙ vids-insert_video p qs k r.1 (rw (← vids-audio q qs kq) v)
        ∙ ap (λ l. l ++ (p ∷ [])) (sym (vids-audio q qs kq))
  ])
]

pub vids-insert_audio :
    (p : Packet) (qs : List Packet) → p.kind ≡ audio → vids (insert_packet p qs) ≡ vids qs
unfolding insert_packet
vids-insert_audio p [] k = vids-audio p [] k
vids-insert_audio p (q ∷ qs) k = elim (dec_lt p.at_time q.at_time) [
  | yes before ↦ rw (lt→ltb p.at_time q.at_time before) (vids-audio p (q ∷ qs) k)
  | no after ↦ rw (ltb-false p.at_time q.at_time (omega arith)) (elim (kinds q.kind) [
    | inl kq ↦
        vids-video q (insert_packet p qs) kq
        ∙ ap (◌∷◌ q) (vids-insert_audio p qs k)
        ∙ sym (vids-video q qs kq)
    | inr kq ↦
        vids-audio q (insert_packet p qs) kq ∙ vids-insert_audio p qs k ∙ sym (vids-audio q qs kq)
  ])
]
