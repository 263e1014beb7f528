-- ===== src/Core/Running.antt =====
-- A round of `processRanking` while the monitor runs.
use go_netflow.Base.{◌≤◌, ◌≡◌, Bool, false, some, List, length}
use go_netflow.Base.Bytes.{Bytes}
use go_netflow.Base.Dict.{Dict}
use go_netflow.Base.Int64.{Time}
use go_netflow.Controller.{Ptr}
use go_netflow.Controller.Rank.{IsSort}
use go_netflow.Netflow.{Netflow}
use go_netflow.Netflow.Options.{Opt, ok, new}
use go_netflow.Netflow.Rank.{ranking, get_process_rank}
use go_netflow.System.{System, Reach, launch}
use go_netflow.System.Soundness.{Reach-IsHealthy}
use go_netflow.Rpc.Define.{MonitorInfo}
use go_netflow.Rpc.Client.{Transport}
use go_netflow.Rpc.Calls.{answer}
use go_netflow.Core.{Config}
use go_netflow.Core.Report.{Printer, Table, rank_round}
use go_netflow.Core.Reported.{sums_request, rank_round_lem}

-- In every state that the goroutines of a monitor that `New` made reach, and over a `sort.Sort` that keeps its promises, a round of
-- `processRanking` does not panic: it ranks the processes over 5 seconds, shows at most one, and
-- sends one request, a POST of the sums of the rates of those shown, modulo 2 ^ 64.
pub rank_round-Reach :
    {D : Type 0} (pr : Printer) (tr : Transport D) (encode : List MonitorInfo → Bytes) (c : Config)
    (users : Dict Bytes) (sort_by : (Ptr → Ptr → Bool) → List Ptr → List Ptr)
    (ips devs : Dict (Unit {0})) (opts : List Opt) (nf : Netflow) (now : Time) {s : System}
    (clock : Ptr → Time)
    → IsSort sort_by
    → new ips devs opts ≡ ok nf
    → Reach users sort_by (launch nf now) s
    → (ps : List Ptr) × (nf' : Netflow) × (t : Table) × (length ps ≤ 1)
      × (get_process_rank sort_by s.nf 1 5 clock ≡ some (ranking ps, nf'))
      × (length t.items ≡ length ps)
      × (rank_round pr tr encode sort_by c s.nf clock s.now
          ≡ some (
            nf',
            some (t, answer tr false (sums_request pr tr encode c nf'.process_hash.heap ps s.now)),
          ))
rank_round-Reach pr tr encode c users sort_by ips devs opts nf now {s} clock laws e r =
    let v = Reach-IsHealthy users sort_by ips devs opts nf now e r in
    rank_round_lem pr tr encode c sort_by s.nf clock s.now laws v.controller
