-- ===== src/Netflow/Worker.antt =====
-- The worker of `Netflow`, `loopHandlePacket`, on the packets that wait in its queue.
use go_netflow.Base.{
  ℕ, zero, suc, ◌≡◌, refl, ap, ◌∙◌, Bool, true, false, Option, none, some, List, [], ◌∷◌, arith,
  length,
}
use go_netflow.Base.Int64.{Time}
use go_netflow.Netflow.{
  Netflow, GoPacket, dequeue, worker_round, handle_packet, handle_layers, increase_traffic,
  push_delay_queue, try_send, get_process_by_addr, increase_process_traffic, determine_side,
  is_bind_ips,
}

-- Some rounds of `loopHandlePacket`, fewer if the worker ends; `clock` gives the time of each, and
-- `none` is a wait.
unfoldable pub worker_rounds : ℕ → (ℕ → Time) → Bool → Netflow → Option Netflow
worker_rounds zero clock take_done nf = some nf
worker_rounds (suc n) clock take_done nf = elim (worker_round take_done (clock n) nf) [
  | none ↦ none
  | some (true, nf') ↦ worker_rounds n clock take_done nf'
  | some (false, nf') ↦ some nf'
]

-- The packets handled one after the other.
abbrev pub handle_all : (ℕ → Time) → List GoPacket → Netflow → Netflow
handle_all clock [] nf = nf
handle_all clock (pkt ∷ pkts) nf =
    handle_all clock pkts (handle_packet nf pkt (clock (length pkts)))

-- A state with other packets in its queue.
abbrev pub with_queue : Netflow → List GoPacket → Netflow
with_queue nf items = record nf { packet_queue = record nf.packet_queue { items = items } }

-- Handling a packet does not look at the queue, nor at the context.
handle_packet-with_queue :
    (nf : Netflow) (items : List GoPacket) (pkt : GoPacket) (clock : Time)
    → handle_packet (with_queue nf items) pkt clock ≡ with_queue (handle_packet nf pkt clock) items
unfolding handle_packet handle_layers increase_traffic push_delay_queue try_send get_process_by_addr
    increase_process_traffic determine_side is_bind_ips
handle_packet-with_queue nf items pkt clock = ground arith

pub handle_packet-ctx_done :
    (nf : Netflow) (pkt : GoPacket) (clock : Time)
    → (handle_packet nf pkt clock).ctx_done ≡ nf.ctx_done
unfolding handle_packet handle_layers increase_traffic push_delay_queue increase_process_traffic
handle_packet-ctx_done nf pkt clock = ground arith

worker_rounds_step :
    (n : ℕ) (clock : ℕ → Time) (take_done : Bool) (nf : Netflow) (pkt : GoPacket)
    (rest : List GoPacket)
    → nf.ctx_done ≡ false
    → worker_rounds (suc n) clock take_done (with_queue nf (pkt ∷ rest))
      ≡ worker_rounds n clock take_done (handle_packet (with_queue nf rest) pkt (clock n))
unfolding worker_rounds worker_round dequeue
worker_rounds_step n clock take_done nf pkt rest live = ground (arith, live)

worker_rounds_items :
    (pkts : List GoPacket) (clock : ℕ → Time) (take_done : Bool) (nf : Netflow)
    → nf.ctx_done ≡ false
    → worker_rounds (length pkts) clock take_done (with_queue nf pkts)
      ≡ some (with_queue (handle_all clock pkts nf) [])
unfolding worker_rounds
worker_rounds_items [] clock take_done nf live = refl
worker_rounds_items (pkt ∷ pkts) clock take_done nf live =
    let t = clock (length pkts) in
    worker_rounds_step (length pkts) clock take_done nf pkt pkts live
    ∙ ap (worker_rounds (length pkts) clock take_done) (handle_packet-with_queue nf pkts pkt t)
    ∙ worker_rounds_items pkts clock take_done (handle_packet nf pkt t)
        (handle_packet-ctx_done nf pkt t ∙ live)

-- The worker of a live context, with as many rounds as packets in its queue: it never waits, it
-- handles every packet once, in the order of the queue, and leaves the queue empty.
pub worker_rounds_lem :
    (clock : ℕ → Time) (take_done : Bool) (nf : Netflow)
    → nf.ctx_done ≡ false
    → worker_rounds (length nf.packet_queue.items) clock take_done nf
      ≡ some (with_queue (handle_all clock nf.packet_queue.items nf) [])
worker_rounds_lem clock take_done nf live =
    worker_rounds_items nf.packet_queue.items clock take_done nf live
