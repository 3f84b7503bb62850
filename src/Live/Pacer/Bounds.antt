-- ===== src/Live/Pacer/Bounds.antt =====
-- The byte and packet limits of LiveFramePacer, stream/live-frame-pacer.ts.
pub mod Calls
mod Clock
use eufy_mega_security.Prelude.{
  ℕ, suc, ◌+◌, ◌-◌, ◌≤◌, ◌<◌, ◌≡◌, refl, ap, ◌∙◌, ◌⊎◌, inl, inr, Bool, true, false, List, [], ◌∷◌,
  ◌++◌, map, arith, ltb, leb, if◌then◌else◌, length, max,
}
use eufy_mega_security.Prelude.Bytes.{Bytes}
use eufy_mega_security.Live.Pacer.{
  Arithmetic, max_bytes, max_packets, Packet, Failure, input_limit, Pacer, close, reject, arm,
  insert_packet, insert_sorted, over_limit, stored, enqueue, then_, enqueue_bootstrap, shift_packet,
  sort_packets,
}
use eufy_mega_security.Live.Pacer.Order.{if_either}

-- The bytes in the queue.
unfoldable pub queued : List Packet → ℕ
queued [] = 0
queued (p ∷ ps) = length p.body + queued ps

unfoldable pub held : List Bytes → ℕ
held [] = 0
held (b ∷ bs) = length b + held bs

pub held-last : (bs : List Bytes) (b : Bytes) → held (bs ++ (b ∷ [])) ≡ held bs + length b
unfolding held
held-last [] b = omega arith
held-last (c ∷ bs) b = omega (arith, held-last bs b)

pub length-last : (bs : List Bytes) (b : Bytes) → length (bs ++ (b ∷ [])) ≡ suc (length bs)
length-last [] b = refl
length-last (c ∷ bs) b = ap suc (length-last bs b)

module _ (p : Packet) where
  queued-insert_packet :
      (qs : List Packet)
      → (queued (insert_packet p qs) ≡ length p.body + queued qs)
        × (length (insert_packet p qs) ≡ suc (length qs))
  unfolding insert_packet queued
  queued-insert_packet [] = (refl, refl)
  queued-insert_packet (q ∷ qs) = chosen (ltb p.at_time q.at_time) (queued-insert_packet qs)
    where
      chosen :
          (b : Bool)
          → (queued (insert_packet p qs) ≡ length p.body + queued qs)
            × (length (insert_packet p qs) ≡ suc (length qs))
          → (queued (if b then p ∷ q ∷ qs else q ∷ insert_packet p qs)
              ≡ length p.body + queued (q ∷ qs))
            × (length (if b then p ∷ q ∷ qs else q ∷ insert_packet p qs) ≡ suc (length (q ∷ qs)))
      chosen true e = (refl, refl)
      chosen false e = (omega (arith, e.0), ap suc e.1)

  queued-insert_sorted :
      (qs : List Packet)
      → (queued (insert_sorted p qs) ≡ length p.body + queued qs)
        × (length (insert_sorted p qs) ≡ suc (length qs))
  unfolding insert_sorted queued
  queued-insert_sorted [] = (refl, refl)
  queued-insert_sorted (q ∷ qs) = chosen (leb p.at_time q.at_time) (queued-insert_sorted qs)
    where
      chosen :
          (b : Bool)
          → (queued (insert_sorted p qs) ≡ length p.body + queued qs)
            × (length (insert_sorted p qs) ≡ suc (length qs))
          → (queued (if b then p ∷ q ∷ qs else q ∷ insert_sorted p qs)
              ≡ length p.body + queued (q ∷ qs))
            × (length (if b then p ∷ q ∷ qs else q ∷ insert_sorted p qs) ≡ suc (length (q ∷ qs)))
      chosen true e = (refl, refl)
      chosen false e = (omega (arith, e.0), ap suc e.1)

module _ ⦃a : Arithmetic⦄ where
  pub queued-sorted :
      (d e' : ℕ) (qs : List Packet)
      → (queued (sort_packets (map (shift_packet d e') qs)) ≡ queued qs)
        × (length (sort_packets (map (shift_packet d e') qs)) ≡ length qs)
  unfolding sort_packets queued shift_packet
  queued-sorted d e' [] = (refl, refl)
  queued-sorted d e' (q ∷ qs) =
      let e = queued-sorted d e' qs in
      let i =
        queued-insert_sorted (shift_packet d e' q) (sort_packets (map (shift_packet d e') qs)) in
      (i.0 ∙ ap (λ n. length q.body + n) e.0, i.1 ∙ ap suc e.1)

-- What the limits say, while `rest` is on its way from the bootstrap to the queue.
pub record Counted (rest : List Bytes) (queue : List Packet) (bootstrap : List Bytes)
    (bytes maximum : ℕ) (closed : Bool) : Type 0 where
  pub total : bytes ≡ queued queue + held bootstrap + held rest
  pub small : bytes ≤ max_bytes
  pub few : length queue + length bootstrap + length rest ≤ max_packets
  pub most : maximum ≤ max_bytes
  pub running : closed ≡ false

abbrev pub CountedAt : List Bytes → Pacer → Type 0
CountedAt rest p = Counted rest p.queue p.bootstrap p.bytes p.maximum_bytes p.closed

-- A closed pacer holds nothing.
pub record Ended (queue : List Packet) (bootstrap : List Bytes) (bytes maximum : ℕ) (closed : Bool)
    : Type 0 where
  pub no_queue : queue ≡ []
  pub no_bootstrap : bootstrap ≡ []
  pub no_bytes : bytes ≡ 0
  pub most : maximum ≤ max_bytes
  pub shut : closed ≡ true

abbrev pub EndedAt : Pacer → Type 0
EndedAt p = Ended p.queue p.bootstrap p.bytes p.maximum_bytes p.closed

abbrev pub Within : List Bytes → Pacer → Type 0
Within rest p = EndedAt p ⊎ CountedAt rest p

Within-most : (rest : List Bytes) (p : Pacer) → Within rest p → p.maximum_bytes ≤ max_bytes
Within-most rest p w = elim w [ inl e ↦ e.most | inr c ↦ c.most ]

pub close-Within : (rest rest' : List Bytes) (p : Pacer) → Within rest p → Within rest' (close p)
unfolding close
close-Within rest rest' p w = inl (record {
  no_queue = refl;
  no_bootstrap = refl;
  no_bytes = refl;
  most = Within-most rest p w;
  shut = refl;
})

pub reject-Within :
    (rest rest' : List Bytes) (reason : Failure) (p : Pacer)
    → Within rest p
    → Within rest' (reject reason p).0
unfolding reject
reject-Within rest rest' reason p w = close-Within rest rest' p w

pub under_limit :
    (size : ℕ) (p : Pacer)
    → over_limit size p ≡ false
    → (p.bytes + size ≤ max_bytes) × (length p.queue + length p.bootstrap < max_packets)
unfolding over_limit
under_limit size p h = ground arith

-- An open pacer has a place for one more packet beside those of `rest`.
abbrev pub Room : List Bytes → Pacer → Type 0
Room rest p =
    p.closed ≡ false
    → length p.queue + length p.bootstrap < max_packets
    → length p.queue + length p.bootstrap + length rest < max_packets

pub max-le : (a b c : ℕ) → a ≤ c → b ≤ c → max a b ≤ c
max-le a b c h l = ground arith

module _ ⦃a : Arithmetic⦄ (now : ℕ) where
  pub stored-Counted :
      (rest : List Bytes) (packet : Packet) (p : Pacer)
      → CountedAt rest p
      → p.bytes + length packet.body ≤ max_bytes
      → length p.queue + length p.bootstrap + length rest < max_packets
      → CountedAt rest (arm now (stored now packet p))
  unfolding arm stored
  stored-Counted rest packet p c b l =
      let i = queued-insert_packet packet p.queue in
      record {
        total = omega (arith, c.total, i.0);
        small = b;
        few = omega (arith, i.1, l);
        most = max-le p.maximum_bytes (p.bytes + length packet.body) max_bytes c.most b;
        running = c.running;
      }

  pub enqueue-Within :
      (rest : List Bytes) (packet : Packet) (p : Pacer)
      → Within rest p
      → Room rest p
      → Within rest (enqueue now packet p).0
  unfolding enqueue
  enqueue-Within rest packet p w room =
      if_either (λ r. Within rest r.0) p.closed _ _ (λ _. w)
        (λ running.
          if_either (λ r. Within rest r.0) (over_limit (length packet.body) p) _ _
            (λ _. reject-Within rest rest input_limit p w)
            (λ fits. elim w [
              | inl e ↦ absurd (let s = e.shut in cc)
              | inr c ↦
                  let u = under_limit (length packet.body) p fits in
                  inr (stored-Counted rest packet p c u.0 (room running u.1))
            ]))

  taken_out :
      (b : Bytes) (bs : List Bytes) (p : Pacer)
      → Within (b ∷ bs) p
      → Within bs (record p { bytes = p.bytes - length b }) × Room bs p
  unfolding held
  taken_out b bs p w = elim w [
    | inl e ↦ (
      inl (record {
        no_queue = e.no_queue;
        no_bootstrap = e.no_bootstrap;
        no_bytes = omega (arith, e.no_bytes);
        most = e.most;
        shut = e.shut;
      }),
      λ running free. absurd (let s = e.shut in cc),
    )
    | inr c ↦ (
      inr (record {
        total = omega (arith, c.total);
        small = omega (arith, c.small);
        few = omega (arith, c.few);
        most = c.most;
        running = c.running;
      }),
      λ running free. omega (arith, c.few),
    )
  ]

  pub enqueue_bootstrap-Within :
      (bs : List Bytes) (p : Pacer) → Within bs p → Within [] (enqueue_bootstrap now bs p).0
  unfolding enqueue_bootstrap then_
  enqueue_bootstrap-Within [] p w = w
  enqueue_bootstrap-Within (b ∷ bs) p w =
      let t = taken_out b bs p w in
      enqueue_bootstrap-Within bs _
        (enqueue-Within bs _ (record p { bytes = p.bytes - length b }) t.0 t.1)
