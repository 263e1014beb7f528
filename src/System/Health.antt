-- ===== src/System/Health.antt =====
-- The data of a running monitor: every pid keeps a process of its own, no address is listed twice,
-- and every process has statistics.
use go_netflow.Base.{
  ◌≡◌, sym, ap, ◌∙◌, subst, Bool, Option, none, some, List, [], ltb, All, length, arith, Bool-cases,
  Option-cases, inl, inr,
}
use go_netflow.Base.Bytes.{Bytes}
use go_netflow.Base.Dict.{Dict}
use go_netflow.Base.Int64.{Int64, Time}
use go_netflow.Base.Outcome.{returns}
use go_netflow.Traffic.{Process, SideOption, TrafficEntry}
use go_netflow.Mapping.Laws.{IsMapping, writes-IsMapping}
use go_netflow.Controller.{Controller, Ptr, sort, values}
use go_netflow.Controller.Refresh.{IsController, length-update, rescan-IsController}
use go_netflow.Netflow.{
  Netflow, GoPacket, DelayEntry, handle_packet, handle_layers, increase_traffic, push_delay_queue,
  increase_process_traffic, get_process_by_addr, enqueue,
}
use go_netflow.Netflow.Sync.{
  Line, rescan_resouce, clean_up, handle_delay_entry, next_entry, consume_delay_queue,
}
use go_netflow.Netflow.Rank.{Ranking, get_process_rank}
use go_netflow.Netflow.Rescan.{rescan_resouce-eq_returns, get_process_rank-eq_some}
use go_netflow.Scan.{Proc, get_processes}
use go_netflow.Scan.Fresh.{HasStats, get_processes-IsFresh}
use go_netflow.System.{sync_round, mixed}
use go_netflow.System.Stats.{
  All-update, increase_process_traffic-HasStats, analyse_all-stats, rescan-stats,
}
use go_netflow.Controller.Scans.{length-analyse_all}

-- The state of the monitor.
pub record IsHealthy (nf : Netflow) : Type 0 where
  pub controller : IsController nf.process_hash
  pub mapping : IsMapping nf.conn_inode_hash
  pub stats : All HasStats nf.process_hash.heap

-- A change of the heap that keeps its length, and the stats.
heap-IsHealthy :
    (nf : Netflow) (heap' : List Process)
    → IsHealthy nf
    → length heap' ≡ length nf.process_hash.heap
    → All HasStats heap'
    → IsHealthy (record nf { process_hash = record nf.process_hash { heap = heap' } })
heap-IsHealthy nf heap' v e a = record {
  controller = record {
    distinct = v.controller.distinct;
    valid = λ i x h. omega (arith, v.controller.valid i x h);
    separate = v.controller.separate;
  };
  mapping = v.mapping;
  stats = a;
}

increase_process_traffic-IsHealthy :
    (nf : Netflow) (x : Ptr) (len : Int64) (side : SideOption) (clock : Time)
    → IsHealthy nf
    → IsHealthy (increase_process_traffic nf x len side clock)
unfolding increase_process_traffic
increase_process_traffic-IsHealthy nf x len side clock v =
    heap-IsHealthy nf _ v (length-update _ x nf.process_hash.heap) (
      All-update HasStats _ x nf.process_hash.heap
        (increase_process_traffic-HasStats len side clock) v.stats)

-- A change of neither the mapping nor the controller.
pub same-IsHealthy :
    (nf nf' : Netflow)
    → IsHealthy nf
    → nf'.process_hash ≡ nf.process_hash
    → nf'.conn_inode_hash ≡ nf.conn_inode_hash
    → IsHealthy nf'
same-IsHealthy nf nf' v e d = record {
  controller = subst (λ c. IsController c) (sym e) v.controller;
  mapping = subst (λ m. IsMapping m) (sym d) v.mapping;
  stats = subst (λ (c : Controller). All HasStats c.heap) (sym e) v.stats;
}

increase_traffic-IsHealthy :
    (nf : Netflow) (addr : Bytes) (len : Int64) (side : SideOption) (clock : Time)
    → IsHealthy nf
    → IsHealthy (increase_traffic nf addr len side clock)
unfolding increase_traffic
increase_traffic-IsHealthy nf addr len side clock v =
    elim (Option-cases (get_process_by_addr nf addr)) [
      | inl e ↦
          rw (increase_traffic, e)
            (same-IsHealthy nf _ v (unfold push_delay_queue in ground arith)
              (unfold push_delay_queue in ground arith))
      | inr (x, e) ↦
          rw (increase_traffic, e) (increase_process_traffic-IsHealthy nf x len side clock v)
    ]

pub handle_packet-IsHealthy :
    (nf : Netflow) (pkt : GoPacket) (clock : Time)
    → IsHealthy nf
    → IsHealthy (handle_packet nf pkt clock)
unfolding handle_packet handle_layers
handle_packet-IsHealthy nf pkt clock v = elim (Option-cases pkt.ipv4) [
  | inl e ↦ simp (handle_packet, e) v
  | inr (ip, e) ↦ elim (Option-cases pkt.tcp) [
    | inl f ↦ simp (handle_packet, e, f) v
    | inr (tcp, f) ↦ simp (handle_packet, e, f) (increase_traffic-IsHealthy nf _ _ _ clock v)
  ]
]

handle_delay_entry-IsHealthy :
    (nf : Netflow) (entry : DelayEntry) (clock : Time)
    → IsHealthy nf
    → IsHealthy (handle_delay_entry nf entry clock)
unfolding handle_delay_entry
handle_delay_entry-IsHealthy nf entry clock v =
    elim (Option-cases (get_process_by_addr nf entry.addr)) [
      | inl e ↦ rw (handle_delay_entry, e) v
      | inr (x, e) ↦
          rw (handle_delay_entry, e)
            (increase_process_traffic-IsHealthy nf x entry.length entry.side clock v)
    ]

next_entry-IsHealthy :
    (take_done : Bool) (entry : Option DelayEntry) (nf : Netflow)
    → IsHealthy nf
    → IsHealthy (next_entry take_done entry nf).1
unfolding next_entry consume_delay_queue
next_entry-IsHealthy take_done none nf v = same-IsHealthy nf _ v (ground arith) (ground arith)
next_entry-IsHealthy take_done (some e) nf v = v

pub sync_round-IsHealthy :
    (take_done : Bool) (now last_time : Time) (entry : Option DelayEntry) (nf : Netflow)
    → IsHealthy nf
    → IsHealthy (sync_round take_done now last_time entry nf).1
unfolding sync_round
sync_round-IsHealthy take_done now last_time entry nf v =
    let w = next_entry-IsHealthy take_done entry nf v in
    elim (Option-cases (next_entry take_done entry nf).0) [
      | inl e ↦ rw (sync_round, e) w
      | inr (x, e) ↦ elim (Bool-cases (ltb last_time x.timestamp)) [
        | inl young ↦ rw (sync_round, e, young) w
        | inr due ↦ rw (sync_round, e, due) (handle_delay_entry-IsHealthy _ x now w)
      ]
    ]

pub enqueue-IsHealthy : (nf : Netflow) (pkt : GoPacket) → IsHealthy nf → IsHealthy (enqueue nf pkt)
unfolding enqueue
enqueue-IsHealthy nf pkt v = same-IsHealthy nf _ v (ground arith) (ground arith)

pub clean_up-IsHealthy :
    (nf : Netflow) (clock : Time) → IsHealthy nf → IsHealthy (clean_up nf clock)
unfolding clean_up
clean_up-IsHealthy nf clock v = record {
  controller = v.controller;
  mapping = (writes-IsMapping nf.conn_inode_hash [] [] _ clock v.mapping).2;
  stats = v.stats;
}

pub tick-IsHealthy :
    (users : Dict Bytes) (nf nf' : Netflow) (fs : Proc) (name_filter : Bytes)
    (lines : Option (List Line)) (found : Option (Dict Process))
    → get_processes fs name_filter ≡ returns found
    → rescan_resouce users nf lines found ≡ returns nf'
    → IsHealthy nf
    → IsHealthy nf'
tick-IsHealthy users nf nf' fs name_filter lines found f e v =
    let (m, same, mapped) = rescan_resouce-eq_returns users nf nf' lines found e in
    subst (λ x. IsHealthy x) (sym same)
      (record {
        controller = rescan-IsController nf.process_hash found v.controller;
        mapping = mapped v.mapping;
        stats =
            rescan-stats nf.process_hash found
              (λ ps q. get_processes-IsFresh fs name_filter ps (f ∙ ap returns q)) v.stats;
      })

pub rank-IsHealthy :
    (sort_by : (Ptr → Ptr → Bool) → List Ptr → List Ptr) (nf nf' : Netflow) (limit sec : Int64)
    (clock : Ptr → Time) (r : Ranking)
    → get_process_rank sort_by nf limit sec clock ≡ some (r, nf')
    → IsHealthy nf
    → IsHealthy nf'
unfolding sort
rank-IsHealthy sort_by nf nf' limit sec clock r e v =
    elim (get_process_rank-eq_some sort_by nf nf' limit sec clock r e) [
      | inl same ↦ subst (λ x. IsHealthy x) (sym same) v
      | inr same ↦
          let pos = values nf.process_hash.dict in
          let w =
            heap-IsHealthy nf _ v (length-analyse_all sec clock pos nf.process_hash.heap)
              (analyse_all-stats sec clock pos nf.process_hash.heap v.stats) in
          subst (λ x. IsHealthy x) (sym same)
            (record {
              controller = record {
                distinct = w.controller.distinct;
                valid = w.controller.valid;
                separate = w.controller.separate;
              };
              mapping = w.mapping;
              stats = w.stats;
            })
    ]

pub mixed-IsHealthy :
    (nf : Netflow) (x : Ptr) (ring : List TrafficEntry) → IsHealthy nf → IsHealthy (mixed nf x ring)
unfolding mixed
mixed-IsHealthy nf x ring v =
    heap-IsHealthy nf _ v (length-update _ x nf.process_hash.heap) (
      All-update HasStats (λ p. record p { ring = ring }) x nf.process_hash.heap (λ p w. w) v.stats)
