-- ===== src/System/Keeps.antt =====
-- What the operations of the monitor leave alone: the packets that wait, and the length of the
-- delay queue within its channel.
use go_netflow.Base.{
  ◌≤◌, ◌≡◌, refl, sym, subst, Bool, Option, none, some, List, [], ◌∷◌, length, length-append, arith,
  Option-cases, inl, inr,
}
use go_netflow.Base.Bytes.{Bytes}
use go_netflow.Base.Dict.{Dict}
use go_netflow.Base.Int64.{Int64, Time}
use go_netflow.Base.Outcome.{returns}
use go_netflow.Traffic.{Process, SideOption}
use go_netflow.Controller.{Ptr}
use go_netflow.Netflow.{
  Netflow, Chan, GoPacket, DelayEntry, try_send, handle_packet, handle_layers, increase_traffic,
  push_delay_queue, increase_process_traffic, get_process_by_addr,
}
use go_netflow.Netflow.Sync.{
  Line, rescan_resouce, handle_delay_entry, next_entry, consume_delay_queue,
}
use go_netflow.Netflow.Rank.{Ranking, get_process_rank}
use go_netflow.Netflow.Rescan.{rescan_resouce-eq_returns, get_process_rank-eq_some}
use go_netflow.System.{sync_round}

abbrev pub Fits : {A : Type 0} → Chan A → Type 0
Fits ch = length ch.items ≤ ch.capacity

-- An operation that leaves the packets alone, and keeps the delay queue within its channel.
abbrev pub Keeps : Netflow → Netflow → Type 0
Keeps nf nf' =
    (nf'.packet_queue ≡ nf.packet_queue)
    × (nf'.counter ≡ nf.counter)
    × (Fits nf.delay_queue → Fits nf'.delay_queue)

push_delay_queue-Keeps : (nf : Netflow) (de : DelayEntry) → Keeps nf (push_delay_queue nf de)
unfolding push_delay_queue try_send
push_delay_queue-Keeps nf de =
    (ground arith, ground arith, λ h. ground (arith, length-append nf.delay_queue.items (de ∷ [])))

increase_traffic-Keeps :
    (nf : Netflow) (addr : Bytes) (len : Int64) (side : SideOption) (now : Time)
    → Keeps nf (increase_traffic nf addr len side now)
unfolding increase_traffic increase_process_traffic
increase_traffic-Keeps nf addr len side now = elim (Option-cases (get_process_by_addr nf addr)) [
  | inl e ↦ rw (increase_traffic, e) (push_delay_queue-Keeps nf _)
  | inr (x, e) ↦ rw (increase_traffic, e) (refl, refl, λ h. h)
]

pub handle_packet-Keeps :
    (nf : Netflow) (pkt : GoPacket) (now : Time) → Keeps nf (handle_packet nf pkt now)
unfolding handle_packet handle_layers
handle_packet-Keeps nf pkt now = elim (Option-cases pkt.ipv4) [
  | inl e ↦ simp (handle_packet, e) (refl, refl, λ h. h)
  | inr (ip, e) ↦ elim (Option-cases pkt.tcp) [
    | inl f ↦ simp (handle_packet, e, f) (refl, refl, λ h. h)
    | inr (tcp, f) ↦ simp (handle_packet, e, f) (increase_traffic-Keeps nf _ _ _ now)
  ]
]

pub sync_round-Keeps :
    (take_done : Bool) (now last_time : Time) (entry : Option DelayEntry) (nf : Netflow)
    → Keeps nf (sync_round take_done now last_time entry nf).1
unfolding sync_round next_entry consume_delay_queue handle_delay_entry increase_process_traffic
sync_round-Keeps take_done now last_time none nf = (ground arith, ground arith, λ h. ground arith)
sync_round-Keeps take_done now last_time (some e) nf =
    (ground arith, ground arith, λ h. ground arith)

pub rescan_resouce-Keeps :
    (users : Dict Bytes) (nf nf' : Netflow) (lines : Option (List Line))
    (found : Option (Dict Process))
    → rescan_resouce users nf lines found ≡ returns nf'
    → Keeps nf nf'
rescan_resouce-Keeps users nf nf' lines found e =
    let (m, same, _) = rescan_resouce-eq_returns users nf nf' lines found e in
    subst (λ x. Keeps nf x) (sym same) (refl, refl, λ h. h)

pub get_process_rank-Keeps :
    (sort_by : (Ptr → Ptr → Bool) → List Ptr → List Ptr) (nf nf' : Netflow) (limit sec : Int64)
    (clock : Ptr → Time) (r : Ranking)
    → get_process_rank sort_by nf limit sec clock ≡ some (r, nf')
    → Keeps nf nf'
get_process_rank-Keeps sort_by nf nf' limit sec clock r e =
    elim (get_process_rank-eq_some sort_by nf nf' limit sec clock r e) [
      | inl same ↦ subst (λ x. Keeps nf x) (sym same) (refl, refl, λ h. h)
      | inr same ↦ subst (λ x. Keeps nf x) (sym same) (refl, refl, λ h. h)
    ]
