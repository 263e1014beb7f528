-- ===== src/Netflow/Queues.antt =====
-- The two queues of `Netflow`: what is accepted and counted, and what becomes of a packet whose
-- process is not known.
use go_netflow.Base.{
  ℕ, zero, suc, ◌+◌, ◌-◌, ◌<◌, ◌≤◌, ◌%◌, ◌≡◌, ◌≢◌, refl, sym, ap, ap₂, ◌∙◌, none, some, List, [],
  ◌∷◌, ◌++◌, arith, if◌then◌else◌, ltb, length, take, Bool-cases, inl, inr, length-append,
}
use mathlib.Core.List.{append-nil, append_assoc}
use go_netflow.Base.Dict.{lookup}
use go_netflow.Controller.{has_key}
use go_netflow.Base.Int64.{Int64, Time, add64, mod64}
use go_netflow.Traffic.{input_side, output_side}
use go_netflow.Netflow.{
  push_delay_queue, Netflow, GoPacket, IPv4, Tcp, DelayEntry, try_send, enqueue, increase_traffic,
  get_process_by_addr, handle_layers, handle_packet, splice_addr, determine_side, is_bind_ips,
  ip_string, total_length,
}
use go_netflow.Netflow.Sync.{handle_delay_entry}

-- The packets of a capture, one after the other.
abbrev pub enqueue_all : Netflow → List GoPacket → Netflow
enqueue_all nf [] = nf
enqueue_all nf (pkt ∷ pkts) = enqueue_all (enqueue nf pkt) pkts

-- A state with other packets, and another count.
abbrev pub with_packets : Netflow → List GoPacket → Int64 → Netflow
with_packets nf items n = record nf {
  packet_queue = record nf.packet_queue { items = items };
  counter = n;
}

enqueue_lem :
    (nf : Netflow) (pkt : GoPacket)
    → enqueue nf pkt ≡ (
        if ltb (length nf.packet_queue.items) nf.packet_queue.capacity
        then with_packets nf (nf.packet_queue.items ++ pkt ∷ []) (add64 nf.counter 1)
        else nf)
unfolding enqueue try_send
enqueue_lem nf pkt = ground arith

take-nil : (n : ℕ) → take {A = GoPacket} n [] ≡ []
take-nil zero = refl
take-nil (suc n) = refl

enqueue_all_items :
    (pkts : List GoPacket) (nf : Netflow) (items : List GoPacket) (n : Int64)
    → length items ≤ nf.packet_queue.capacity
    → n < mod64
    → let accepted = take (nf.packet_queue.capacity - length items) pkts in
      enqueue_all (with_packets nf items n) pkts
      ≡ with_packets nf (items ++ accepted) ((n + length accepted) % mod64)
enqueue_all_items [] nf items n h hn =
    rw (take-nil, append-nil) (ap (with_packets nf items) (omega arith))
enqueue_all_items (pkt ∷ pkts) nf items n h hn =
    let cap = nf.packet_queue.capacity in
    ap (λ s. enqueue_all s pkts) (enqueue_lem (with_packets nf items n) pkt)
    ∙ elim (Bool-cases (ltb (length items) cap)) [
      | inl room ↦
          let grown = length-append items (pkt ∷ []) in
          let e : cap - length items ≡ suc (cap - length (items ++ pkt ∷ [])) = ground arith in
          rw (room, e)
            (enqueue_all_items pkts nf (items ++ pkt ∷ []) (add64 n 1) (ground arith) (omega arith)
              ∙ ap₂ (with_packets nf) (append_assoc items (pkt ∷ []) _) (omega arith))
      | inr full ↦
          let e : cap - length items ≡ 0 = ground arith in
          rw (full, e) (enqueue_all_items pkts nf items n h hn ∙ rw e refl)
    ]

-- A capture of any packets, without a worker, into a queue within its capacity: the queue accepts
-- those that it has room for, in their order, and drops the rest; the counter grows by the number
-- accepted; nothing else changes.
pub enqueue_all_lem :
    (nf : Netflow) (pkts : List GoPacket)
    → length nf.packet_queue.items ≤ nf.packet_queue.capacity
    → nf.counter < mod64
    → let room = nf.packet_queue.capacity - length nf.packet_queue.items in
      enqueue_all nf pkts
      ≡ with_packets nf
          (nf.packet_queue.items ++ take room pkts)
          ((nf.counter + length (take room pkts)) % mod64)
enqueue_all_lem nf pkts h hc = enqueue_all_items pkts nf nf.packet_queue.items nf.counter h hc

-- A delayed packet is charged as it would have been at once. A packet of a process that is not
-- known, which finds room in the delay queue, changes only that queue, by one entry at its end; and
-- handling this entry in a state that knows the process, with the same addresses bound, is handling
-- the packet in that state.
pub handle_delay_entry-handle_packet :
    (nf nf' : Netflow) (ip : IPv4) (tcp : Tcp) (clock clock' : Time)
    → let packet : GoPacket = record { ipv4 = some ip; tcp = some tcp } in
      let addr = splice_addr ip.src_ip tcp.src_port ip.dst_ip tcp.dst_port in
      get_process_by_addr nf addr ≡ none
      → length nf.delay_queue.items < nf.delay_queue.capacity
      → get_process_by_addr nf' addr ≢ none
      → nf'.bind_ips ≡ nf.bind_ips
      → (e : DelayEntry) × (handle_packet nf packet clock ≡ record nf {
        delay_queue = record nf.delay_queue { items = nf.delay_queue.items ++ e ∷ [] };
      })
        × (handle_delay_entry nf' e clock' ≡ handle_packet nf' packet clock')
unfolding handle_packet handle_layers increase_traffic handle_delay_entry determine_side is_bind_ips
    push_delay_queue try_send
handle_delay_entry-handle_packet nf nf' ip tcp clock clock' unknown room h same =
    let addr = splice_addr ip.src_ip tcp.src_port ip.dst_ip tcp.dst_port in
    let side : determine_side nf (ip_string ip.src_ip) ≡ determine_side nf' (ip_string ip.src_ip) =
      ap (λ b. if has_key (lookup (ip_string ip.src_ip) b) then output_side else input_side)
        (sym same) in
    (
      record {
        timestamp = clock;
        times = 0;
        addr = addr;
        length = total_length ip tcp;
        side = determine_side nf (ip_string ip.src_ip);
      },
      ground (arith, unknown, room),
      ground (arith, side),
    )
