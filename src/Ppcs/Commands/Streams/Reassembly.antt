-- ===== src/Ppcs/Commands/Streams/Reassembly.antt =====
-- A whole stream of commands through `#consumeData` of stream/first-party-ppcs.ts, datagram by datagram.
use eufy_mega_security.Prelude.{
  ℕ, ◌≡◌, refl, sym, ap, ◌∙◌, Option, none, some, List, [], ◌∷◌, ◌++◌, Eq_ℕ, All,
}
use eufy_mega_security.Prelude.Bytes.{Bytes}
use eufy_mega_security.Prelude.JsMap.{
  JsMap, get, remove, Distinct, get-put_self, get-remove_self, remove-Distinct, put-Distinct,
}
use eufy_mega_security.Ppcs.Commands.{
  PendingFrame, Frame, Parser, consume, put_pending, consume_data,
}
use eufy_mega_security.Ppcs.Commands.Streams.{WellFormed, flat}
use eufy_mega_security.Ppcs.Commands.Streams.Chunks.{
  Holding, Calm, consume-Kept, Holding-none, Holding-end,
}

-- The datagrams of one type, in order.
unfoldable pub feed : ℕ → List Bytes → Parser → Parser × List Frame
feed type [] p = (p, [])
feed type (datagram ∷ datagrams) p =
    let r = consume_data datagram type p in
    let rest = feed type datagrams r.0 in (rest.0, r.1 ++ rest.1)

unfoldable pub joined : List Bytes → Bytes
joined [] = []
joined (d ∷ ds) = d ++ joined ds

get-put_pending :
    (type : ℕ) (pending : Option PendingFrame) (m : JsMap ℕ PendingFrame)
    → Distinct m
    → get type (put_pending type pending (remove type m)) ≡ pending
unfolding put_pending
get-put_pending type none m d = get-remove_self type m d
get-put_pending type (some value) m d = get-put_self type value (remove type m)

put_pending-Distinct :
    (type : ℕ) (pending : Option PendingFrame) (m : JsMap ℕ PendingFrame)
    → Distinct m
    → Distinct (put_pending type pending (remove type m))
unfolding put_pending
put_pending-Distinct type none m d = remove-Distinct type m d
put_pending-Distinct type (some value) m d =
    put-Distinct type value (remove type m) (remove-Distinct type m d)

pub record Reassembles (type : ℕ) (p : Parser) (fs : List Frame) (r : Parser × List Frame)
    : Type 0 where
  pub frames : r.1 ≡ fs
  pub nothing_pending : get type r.0.pending_by_type ≡ none
  pub same_resyncs : r.0.stats.parser_resyncs ≡ p.stats.parser_resyncs
  pub same_blocked : r.0.stats.parser_blocked ≡ p.stats.parser_blocked

one_then :
    (type : ℕ) (datagram : Bytes) (p : Parser) (fs later : List Frame) (r : Parser × List Frame)
    → let c = consume (get type p.pending_by_type) datagram p.stats in
      fs ≡ c.frames ++ later
      → Calm p.stats c.stats
      → Reassembles type (consume_data datagram type p).0 later r
      → Reassembles type p fs (r.0, (consume_data datagram type p).1 ++ r.1)
unfolding consume_data
one_then type datagram p fs later r whole calm rest =
    let c = consume (get type p.pending_by_type) datagram p.stats in
    record {
      frames = ap (◌++◌ c.frames) rest.frames ∙ sym whole;
      nothing_pending = rest.nothing_pending;
      same_resyncs = rest.same_resyncs ∙ calm.same_resyncs;
      same_blocked = rest.same_blocked ∙ calm.same_blocked;
    }

feed-Reassembles :
    (type : ℕ) (datagrams : List Bytes) (p : Parser) (fs : List Frame)
    → Distinct p.pending_by_type
    → All WellFormed fs
    → Holding (get type p.pending_by_type) (joined datagrams) fs
    → Reassembles type p fs (feed type datagrams p)
unfolding feed joined
feed-Reassembles type [] p fs d v h =
    let (missing, empty) = Holding-end (get type p.pending_by_type) fs v h in
    record {
      frames = sym empty;
      nothing_pending = missing;
      same_resyncs = refl;
      same_blocked = refl;
    }
feed-Reassembles type (datagram ∷ datagrams) p fs d v h =
    let k = consume-Kept (get type p.pending_by_type) p.stats fs datagram (joined datagrams) v h in
    let c = consume (get type p.pending_by_type) datagram p.stats in
    let next = (consume_data datagram type p).0 in
    let stored : get type next.pending_by_type ≡ c.pending =
      unfold consume_data in get-put_pending type c.pending p.pending_by_type d in
    let rest =
      feed-Reassembles type datagrams next k.later
        (unfold consume_data in put_pending-Distinct type c.pending p.pending_by_type d) k.valid
        (rw stored k.holding) in
    one_then type datagram p fs k.later (feed type datagrams next) k.whole k.calm rest

-- Well-formed commands, each of at most 16 MiB, come out one by one and complete, however their bytes are cut
-- into datagrams: for a type with nothing pending, the frames handled are the commands sent, in order, nothing
-- is pending afterwards, and the parser has neither searched for a marker nor been blocked.
pub feed-flat :
    (type : ℕ) (datagrams : List Bytes) (p : Parser) (fs : List Frame)
    → Distinct p.pending_by_type
    → get type p.pending_by_type ≡ none
    → All WellFormed fs
    → joined datagrams ≡ flat fs
    → Reassembles type p fs (feed type datagrams p)
feed-flat type datagrams p fs d idle v e =
    feed-Reassembles type datagrams p fs d v (rw idle (Holding-none (joined datagrams) fs e))
