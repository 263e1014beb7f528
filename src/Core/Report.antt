-- ===== src/Core/Report.antt =====
-- core/blocking.go: a round of `processRanking`, which ranks the processes, prints their table and
-- reports their rates. Texts of numbers, colours and the arithmetic on float64 are the argument
-- `Printer`; the table itself is printed by a package.
use go_netflow.Base.{
  ℕ, ◌*◌, Bool, Option, none, some, List, [], ◌∷◌, ◌++◌, if◌then◌else◌, get_elem?,
}
use go_netflow.Base.Bytes.{Bytes, codes}
use go_netflow.Base.Int64.{Int64, Time, add64, mul64, quot64, ltb64, unix}
use go_netflow.Base.Strconv.{format_int}
use go_netflow.Traffic.{Process, TrafficStatsEntry}
use go_netflow.Controller.{Ptr}
use go_netflow.Netflow.{Netflow}
use go_netflow.Netflow.Rank.{invalid_window, ranking, get_process_rank}
use go_netflow.Rpc.{UrlProvider, Reply}
use go_netflow.Rpc.Define.{MonitorInfo}
use go_netflow.Rpc.Client.{Transport, report_monitor_info}
use go_netflow.Core.{Config}

-- `two_decimals n` is `float64(n)/1000/1000` by "%.2f"; `to_mb` is `ConvertToMB`, of which the
-- result is a bit pattern.
pub record Printer : Type 0 where
  pub human_bytes : Int64 → Bytes
  pub two_decimals : Int64 → Bytes
  pub red : Bytes → Bytes
  pub to_mb : Int64 → ℕ

abbrev pub thold : Int64
thold = 1024 * 1024

-- `formatRates`, of one rate
unfoldable pub format_rate : Printer → Int64 → Bytes
format_rate pr rate =
    let text = pr.two_decimals (mul64 rate 8) ++ codes " Mbit/s" in
    if ltb64 thold rate then pr.red text else text

-- A row of the table, and what the loop of `showTable` adds up.
pub record Table : Type 0 where
  pub items : List (List Bytes)
  pub rate_in : Int64
  pub rate_out : Int64

unfoldable pub row : Printer → Process → TrafficStatsEntry → List Bytes
row pr po stats =
    po.pid
    ∷ po.name
    ∷ po.exe
    ∷ format_int po.inode_count
    ∷ pr.human_bytes (mul64 stats.in_bytes 8)
    ∷ pr.human_bytes (mul64 stats.out_bytes 8)
    ∷ format_rate pr stats.in_rate
    ∷ format_rate pr stats.out_rate
    ∷ []

unfoldable pub add_row : Printer → Table → Process → TrafficStatsEntry → Table
add_row pr table po stats = record {
  items = table.items ++ row pr po stats ∷ [];
  rate_in = add64 table.rate_in stats.in_rate;
  rate_out = add64 table.rate_out stats.out_rate;
}

-- The loop of `showTable`; `none` is a nil dereference.
unfoldable pub show_rows : Printer → List Process → List Ptr → Table → Option Table
show_rows pr heap [] table = some table
show_rows pr heap (po ∷ ps) table = elim (get_elem? heap po) [
  | none ↦ none
  | some p ↦ elim p.traffic_stats [
    | none ↦ none
    | some stats ↦ show_rows pr heap ps (add_row pr table p stats)
  ]
]

-- `(timestamp / 60) * 60`
abbrev pub adjusted_time : Int64 → Int64
adjusted_time timestamp = mul64 (quot64 timestamp 60) 60

-- The list that `reportHandler` sends.
unfoldable pub monitor_infos : Printer → Int64 → Int64 → Int64 → List MonitorInfo
monitor_infos pr in_rate out_rate timestamp =
    record {
      cpu_usage = 0;
      disk_usage = 0;
      down_bandwidth = pr.to_mb in_rate;
      mem_usage = 0;
      timestamp = adjusted_time timestamp;
      up_bandwidth = pr.to_mb out_rate;
    }
    ∷ []

-- The `UrlProvider` of `reportHandler`
abbrev pub url_provider : Config → UrlProvider
url_provider c = record {
  server_endpoint = c.agent.server_endpoint;
  common_headers = record {
    image_version = [];
    device_id = c.agent.device_id;
    biz_type = c.agent.biz_type;
    ak = c.agent.app_key;
    app_secret = c.agent.app_secret;
  };
}

module _ {D : Type 0} (pr : Printer) (tr : Transport D) (encode : List MonitorInfo → Bytes) where
  -- `reportHandler`; an error of the request is only printed.
  unfoldable pub report_handler : Config → Int64 → Int64 → Int64 → Reply D
  report_handler c in_rate out_rate timestamp =
      report_monitor_info tr encode (url_provider c) timestamp
        (monitor_infos pr in_rate out_rate timestamp)

  -- `showTable`, at time `timestamp`: the table and the reply to the report.
  unfoldable pub show_table : Config → List Process → List Ptr → Int64 → Option (Table × Reply D)
  show_table c heap ps timestamp =
      elim (show_rows pr heap ps (record { items = []; rate_in = 0; rate_out = 0 })) [
        | none ↦ none
        | some table ↦ some (table, report_handler c table.rate_in table.rate_out timestamp)
      ]

  -- `processRanking` at a tick: one process, over the last 5 seconds. `none` is a panic, and a
  -- round without a table is the error of `GetProcessRank`.
  unfoldable pub rank_round :
      ((Ptr → Ptr → Bool) → List Ptr → List Ptr)
      → Config
      → Netflow
      → (Ptr → Time)
      → Time
      → Option (Netflow × Option (Table × Reply D))
  rank_round sort_by c nf clock now = elim (get_process_rank sort_by nf 1 5 clock) [
    | none ↦ none
    | some (invalid_window, nf') ↦ some (nf', none)
    | some (ranking ps, nf') ↦ elim (show_table c nf'.process_hash.heap ps (unix now)) [
      | none ↦ none
      | some shown ↦ some (nf', some shown)
    ]
  ]
