-- ===== src/Core/Reported.antt =====
-- What a round of `processRanking` reports.
use go_netflow.Base.{
  ℕ, ◌+◌, ◌%◌, ◌≤◌, ◌<◌, ◌≡◌, refl, ap, ap₂, ◌∙◌, Bool, false, none, some, List, [], ◌∷◌, arith,
  All, length, length-append, get_elem?, inl, inr,
}
use go_netflow.Base.Bytes.{Bytes, codes}
use go_netflow.Base.Int64.{Int64, Time, mod64, mul64, quot64, unix}
use go_netflow.Traffic.{Process, TrafficStatsEntry}
use go_netflow.Controller.{Ptr}
use go_netflow.Controller.Refresh.{IsController}
use go_netflow.Controller.Rank.{IsSort, Ready}
use go_netflow.Netflow.{Netflow}
use go_netflow.Netflow.Rank.{ranking, get_process_rank, get_process_rank_lem}
use go_netflow.Rpc.Define.{MonitorInfo}
use go_netflow.Rpc.Client.{Request, Transport, report_monitor_info}
use go_netflow.Rpc.Calls.{answer, request, call_lem}
use go_netflow.Core.{Config}
use go_netflow.Core.Ready.{get_process_rank-Ready}
use go_netflow.Core.Report.{
  Printer, Table, row, add_row, show_rows, monitor_infos, url_provider, report_handler, show_table,
  rank_round,
}

-- A rate of the process behind a pointer, and the sum of the rates of several.
abbrev pub rate_of : (TrafficStatsEntry → Int64) → List Process → Ptr → ℕ
rate_of rate heap x = elim (get_elem? heap x) [
  | none ↦ 0
  | some p ↦ elim p.traffic_stats [ none ↦ 0 | some stats ↦ rate stats ]
]

unfoldable pub total : (TrafficStatsEntry → Int64) → List Process → List Ptr → ℕ
total rate heap [] = 0
total rate heap (x ∷ xs) = rate_of rate heap x + total rate heap xs

show_rows-cons :
    (pr : Printer) (heap : List Process) (x : Ptr) (ps : List Ptr) (table : Table) (p : Process)
    (stats : TrafficStatsEntry)
    → get_elem? heap x ≡ some p
    → p.traffic_stats ≡ some stats
    → show_rows pr heap (x ∷ ps) table ≡ show_rows pr heap ps (add_row pr table p stats)
unfolding show_rows
show_rows-cons pr heap x ps table p stats here has = ground (arith, here, has)

pub total-cons :
    (rate : TrafficStatsEntry → Int64) (heap : List Process) (x : Ptr) (ps : List Ptr) (p : Process)
    (stats : TrafficStatsEntry)
    → get_elem? heap x ≡ some p
    → p.traffic_stats ≡ some stats
    → total rate heap (x ∷ ps) ≡ rate stats + total rate heap ps
unfolding total
total-cons rate heap x ps p stats here has = ground (arith, here, has)

show_rows_lem :
    (pr : Printer) (heap : List Process) (ps : List Ptr) (table : Table)
    → All (Ready heap) ps
    → table.rate_in < mod64
    → table.rate_out < mod64
    → (t : Table) × (show_rows pr heap ps table ≡ some t)
      × (length t.items ≡ length table.items + length ps)
      × (t.rate_in ≡ (table.rate_in + total (λ s. s.in_rate) heap ps) % mod64)
      × (t.rate_out ≡ (table.rate_out + total (λ s. s.out_rate) heap ps) % mod64)
unfolding show_rows total add_row
show_rows_lem pr heap [] table r h k =
    (table, refl, omega arith, omega (arith, h), omega (arith, k))
show_rows_lem pr heap (x ∷ ps) table ((p, stats, here, has), r) h k =
    let (t, e, size, in_rate, out_rate) =
      show_rows_lem pr heap ps (add_row pr table p stats) r (omega arith) (omega arith) in
    (
      t,
      show_rows-cons pr heap x ps table p stats here has ∙ e,
      omega (arith, size, length-append table.items (row pr p stats ∷ [])),
      omega (arith, in_rate, total-cons (λ s. s.in_rate) heap x ps p stats here has),
      omega (arith, out_rate, total-cons (λ s. s.out_rate) heap x ps p stats here has),
    )

-- The request with the rates, which is a POST of one `MonitorInfo`: down the rate in, up the rate
-- out, at the start of the minute, for the device and the key of the configuration.
abbrev pub report_request :
    {D : Type 0}
    → Printer
    → Transport D
    → (List MonitorInfo → Bytes)
    → Config
    → Int64
    → Int64
    → Int64
    → Request
report_request pr tr encode c in_rate out_rate timestamp =
    request tr
      (record {
        server_endpoint = c.agent.server_endpoint;
        common_headers = record {
          image_version = [];
          device_id = c.agent.device_id;
          biz_type = c.agent.biz_type;
          ak = c.agent.app_key;
          app_secret = c.agent.app_secret;
        };
      })
      timestamp (codes "POST") (codes "/api/common/v1/nethogs/monitor")
      (some (
        encode (
          record {
            cpu_usage = 0;
            disk_usage = 0;
            down_bandwidth = pr.to_mb in_rate;
            mem_usage = 0;
            timestamp = mul64 (quot64 timestamp 60) 60;
            up_bandwidth = pr.to_mb out_rate;
          }
          ∷ [])))

module _ {D : Type 0} (pr : Printer) (tr : Transport D) (encode : List MonitorInfo → Bytes)
    (c : Config) where
  -- The request for the sums of the rates of the processes.
  abbrev pub sums_request : List Process → List Ptr → Time → Request
  sums_request heap ps now =
      report_request pr tr encode c (total (λ s. s.in_rate) heap ps % mod64)
        (total (λ s. s.out_rate) heap ps % mod64) (unix now)

  pub report_handler_lem :
      (in_rate out_rate timestamp : Int64)
      → report_handler pr tr encode c in_rate out_rate timestamp
        ≡ answer tr false (report_request pr tr encode c in_rate out_rate timestamp)
  unfolding report_handler report_monitor_info monitor_infos
  report_handler_lem in_rate out_rate timestamp =
      call_lem tr (url_provider c) timestamp (codes "POST") (codes "/api/common/v1/nethogs/monitor")
        (some (encode (monitor_infos pr in_rate out_rate timestamp))) false

  show_table_lem :
      (heap : List Process) (ps : List Ptr) (now : Time)
      → All (Ready heap) ps
      → (t : Table) × (length t.items ≡ length ps)
        × (show_table pr tr encode c heap ps (unix now)
            ≡ some (t, answer tr false (sums_request heap ps now)))
  unfolding show_table
  show_table_lem heap ps now r =
      let (t, e, size, in_rate, out_rate) =
        show_rows_lem pr heap ps (record { items = []; rate_in = 0; rate_out = 0 }) r (omega arith)
          (omega arith) in
      let ins : t.rate_in ≡ total (λ s. s.in_rate) heap ps % mod64 = omega (arith, in_rate) in
      let outs : t.rate_out ≡ total (λ s. s.out_rate) heap ps % mod64 = omega (arith, out_rate) in
      let replied =
        report_handler_lem t.rate_in t.rate_out (unix now)
        ∙ ap₂ (λ a b. answer tr false (report_request pr tr encode c a b (unix now))) ins outs in
      (t, omega (arith, size), rw (show_table, e) (ap (λ x. some (t, x)) replied))

  -- A round of `processRanking` on a controller with a process of its own for every pid, over a
  -- `sort.Sort` that keeps its promises, does not panic: it ranks the processes over 5 seconds,
  -- shows at most one, and sends one request, a POST of the sums of the rates of those shown,
  -- modulo 2 ^ 64.
  pub rank_round_lem :
      (sort_by : (Ptr → Ptr → Bool) → List Ptr → List Ptr) (nf : Netflow) (clock : Ptr → Time)
      (now : Time)
      → IsSort sort_by
      → IsController nf.process_hash
      → (ps : List Ptr) × (nf' : Netflow) × (t : Table) × (length ps ≤ 1)
        × (get_process_rank sort_by nf 1 5 clock ≡ some (ranking ps, nf'))
        × (length t.items ≡ length ps)
        × (rank_round pr tr encode sort_by c nf clock now
            ≡ some (nf', some (t, answer tr false (sums_request nf'.process_hash.heap ps now))))
  unfolding rank_round
  rank_round_lem sort_by nf clock now laws v =
      elim (get_process_rank_lem sort_by nf 1 5 clock laws v (λ e. omega arith) (omega arith)) [
        | inl (long, e) ↦ absurd (ground (arith, long))
        | inr (ps, nf', short, e, few, d) ↦
            let r = get_process_rank-Ready sort_by nf nf' 1 5 clock ps e in
            let (t, size, shown) = show_table_lem nf'.process_hash.heap ps now r in
            (ps, nf', t, few, e, size, rw (rank_round, e, shown) refl)
      ]
