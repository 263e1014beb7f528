-- ===== src/System/Soundness.antt =====
-- Whatever the goroutines of a monitor do, in whatever order: its data stay sound.
use go_netflow.Base.{◌≡◌, refl, sym, subst, Bool, none, List, All, arith}
use go_netflow.Base.Bytes.{Bytes}
use go_netflow.Base.Dict.{Dict, lookup, Distinct}
use go_netflow.Base.Int64.{Time}
use go_netflow.Controller.{Ptr}
use go_netflow.Netflow.{Netflow}
use go_netflow.Netflow.Options.{Opt, ok, new}
use go_netflow.Netflow.Config.{new-fresh}
use go_netflow.System.Queues.{dequeue-eq_some, dequeue-eq_nil}
use go_netflow.System.Health.{
  IsHealthy, handle_packet-IsHealthy, sync_round-IsHealthy, enqueue-IsHealthy, clean_up-IsHealthy,
  tick-IsHealthy, rank-IsHealthy, same-IsHealthy, mixed-IsHealthy,
}
use go_netflow.Scan.Fresh.{HasStats}
use go_netflow.System.{
  System, Step, pass, capture, close, forward, take_packet, leave, handle, tick, round, quit, clean,
  rank, mix, cancel, forward_packet, Reach, here, next, launch,
}

Step-IsHealthy :
    (users : Dict Bytes) (sort_by : (Ptr → Ptr → Bool) → List Ptr → List Ptr) {s t : System}
    → Step users sort_by s t
    → IsHealthy s.nf
    → IsHealthy t.nf
unfolding forward_packet
Step-IsHealthy users sort_by (pass t h g) v = v
Step-IsHealthy users sort_by (capture i tap pkt h g) v = v
Step-IsHealthy users sort_by (close i tap h g) v = v
Step-IsHealthy users sort_by {s} (forward i tap pkt rest h e) v = enqueue-IsHealthy s.nf pkt v
Step-IsHealthy users sort_by {s} (take_packet i take_done pkt nf' h e) v =
    let (_, _, same) = dequeue-eq_some take_done s.nf nf' pkt e in
    subst (λ x. IsHealthy x) (sym same) (same-IsHealthy s.nf _ v refl refl)
Step-IsHealthy users sort_by {s} (leave i take_done nf' h e) v =
    subst (λ x. IsHealthy x) (sym (dequeue-eq_nil take_done s.nf nf' e)) v
Step-IsHealthy users sort_by {s} (handle i pkt clock h at) v =
    handle_packet-IsHealthy s.nf pkt clock v
Step-IsHealthy users sort_by {s} (tick fs lines found nf' entry p f e) v =
    tick-IsHealthy users s.nf nf' fs _ lines found f e v
Step-IsHealthy users sort_by {s} (round take_done clock last_time entry p at) v =
    sync_round-IsHealthy take_done clock last_time entry s.nf v
Step-IsHealthy users sort_by (quit entry p g) v = v
Step-IsHealthy users sort_by {s} clean v = clean_up-IsHealthy s.nf s.now v
Step-IsHealthy users sort_by {s} (rank limit sec clock r nf' e) v =
    rank-IsHealthy sort_by s.nf nf' limit sec clock r e v
Step-IsHealthy users sort_by {s} (mix x ring) v = mixed-IsHealthy s.nf x ring v
Step-IsHealthy users sort_by {s} cancel v = same-IsHealthy s.nf _ v refl refl

launch-IsHealthy :
    (ips devs : Dict (Unit {0})) (opts : List Opt) (nf : Netflow)
    → new ips devs opts ≡ ok nf
    → IsHealthy nf
unfolding lookup
launch-IsHealthy ips devs opts nf e =
    let (_, mapped, heap, dict) = new-fresh ips devs opts nf e in
    let absent : (i : Bytes) → lookup i nf.process_hash.dict ≡ none =
      λ i. subst (λ d. lookup i d ≡ none) (sym dict) refl in
    record {
      controller = record {
        distinct = subst (λ d. Distinct d) (sym dict) tt;
        valid = λ i x h. absurd (ground (arith, absent i, h));
        separate = λ i j x h k. absurd (ground (arith, absent i, h));
      };
      mapping = subst (λ d. Distinct d) (sym mapped) tt;
      stats = subst (λ h. All HasStats h) (sym heap) tt;
    }

-- However the goroutines of a monitor that `New` made interleave, two changes of the ring of one
-- process included: every pid keeps a process of its own, no address is listed twice, and every
-- process has statistics.
pub Reach-IsHealthy :
    (users : Dict Bytes) (sort_by : (Ptr → Ptr → Bool) → List Ptr → List Ptr)
    (ips devs : Dict (Unit {0})) (opts : List Opt) (nf : Netflow) (now : Time) {s : System}
    → new ips devs opts ≡ ok nf
    → Reach users sort_by (launch nf now) s
    → IsHealthy s.nf
Reach-IsHealthy users sort_by ips devs opts nf now e here = launch-IsHealthy ips devs opts nf e
Reach-IsHealthy users sort_by ips devs opts nf now e (next r st) =
    Step-IsHealthy users sort_by st (Reach-IsHealthy users sort_by ips devs opts nf now e r)
