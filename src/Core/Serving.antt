-- ===== src/Core/Serving.antt =====
-- core2/blocking.go: `processRanking`, and `showTable` from its monitor to its loop, as steps that
-- interleave with the goroutines of that monitor. A nil dereference ends the process. `rates` and
-- `replies` are not of the code: they record what was reported and the answers, newest first.
use go_netflow.Base.{◌≡◌, Bool, true, false, Option, none, some, List, [], ◌∷◌}
use go_netflow.Base.Bytes.{Bytes, codes}
use go_netflow.Base.Int64.{Int64, Time}
use go_netflow.Netflow.{Netflow}
use go_netflow.Netflow.Rank.{invalid_window, ranking, get_process_rank}
use go_netflow.Traffic.{Process}
use go_netflow.Controller.{Ptr}
use go_netflow.Upload.{
  TrafficMonitor, NetInterface, fails, makes, Run, get_upload_traffic, new_traffic_monitor,
}
use go_netflow.Upload
use go_netflow.Rpc.{Reply}
use go_netflow.Rpc.Define.{MonitorInfo}
use go_netflow.Rpc.Client.{Transport}
use go_netflow.Core.{Config}
use go_netflow.Core.Report.{Printer, Table}
use go_netflow.Core.Outgoing.{upload_round}

-- What a call of `showTable` works with: `shown` is its argument.
pub record Call (D : Type 0) : Type 0 where
  pub printer : Printer
  pub transport : Transport D
  pub encode : List MonitorInfo → Bytes
  pub config : Config
  pub shown : List Ptr

pub record Serving (D : Type 0) : Type 0 where
  pub traffic : Run
  pub heap : List Process
  pub crashed : Bool
  pub rates : List Int64
  pub replies : List (Reply D)

abbrev pub started : {D : Type 0} → TrafficMonitor → List Process → Serving D
started tm heap = record {
  traffic = Upload.launch tm;
  heap = heap;
  crashed = false;
  rates = [];
  replies = [];
}

-- `showTable` up to its loop: without a monitor `log.Fatalf` ends the process.
unfoldable pub show_upload :
    {D : Type 0}
    → Option (List NetInterface)
    → (Bytes → Bool)
    → (Bytes → Bool)
    → List Process
    → Option (Serving D)
show_upload ifaces open_live set_filter heap =
    elim (new_traffic_monitor ifaces open_live set_filter [] (codes "9080")) [
      | fails e ↦ none
      | makes tm ↦ some (started tm heap)
    ]

-- `processRanking` at a tick: one process, over the last 60 seconds, is what `showTable` is called
-- with. `none` is a panic, and a round without processes is the error of `GetProcessRank`.
unfoldable pub rank_upload :
    {D : Type 0}
    → ((Ptr → Ptr → Bool) → List Ptr → List Ptr)
    → Option (List NetInterface)
    → (Bytes → Bool)
    → (Bytes → Bool)
    → Netflow
    → (Ptr → Time)
    → Option (Netflow × Option (List Ptr × Option (Serving D)))
rank_upload sort_by ifaces open_live set_filter nf clock =
    elim (get_process_rank sort_by nf 1 60 clock) [
      | none ↦ none
      | some (invalid_window, nf') ↦ some (nf', none)
      | some (ranking rank, nf') ↦
          some (nf', some (rank, show_upload ifaces open_live set_filter nf'.process_hash.heap))
    ]

-- The call of `GetUploadTraffic`
unfoldable pub read_traffic : Run → TrafficMonitor → Run
read_traffic run monitor' = record run {
  monitor = monitor';
  reads = (get_upload_traffic run.monitor).0 ∷ run.reads;
}

-- A step of the goroutines of the monitor, which read nothing, or a tick of the loop.
pub data Step {D : Type 0} (call : Call D) (s : Serving D) : Serving D → Type 0 where
  captures :
      (run : Run)
      → s.crashed ≡ false
      → Upload.Step s.traffic run
      → run.reads ≡ s.traffic.reads
      → Step call s (record s { traffic = run })
  tick :
      (timestamp : Int64) (heap' : List Process) (monitor' : TrafficMonitor) (table : Table)
      (reply : Reply D)
      → s.crashed ≡ false
      → upload_round call.printer call.transport call.encode call.config s.heap call.shown
          s.traffic.monitor timestamp
        ≡ some (heap', monitor', table, reply)
      → Step call s (record s {
        traffic = read_traffic s.traffic monitor';
        heap = heap';
        rates = table.rate_out ∷ s.rates;
        replies = reply ∷ s.replies;
      })
  crash :
      (timestamp : Int64)
      → s.crashed ≡ false
      → upload_round call.printer call.transport call.encode call.config s.heap call.shown
          s.traffic.monitor timestamp
        ≡ none
      → Step call s (record s { crashed = true })

pub data Reach {D : Type 0} (call : Call D) (s : Serving D) : Serving D → Type 0 where
  here : Reach call s s
  next : {t u : Serving D} → Reach call s t → Step call t u → Reach call s u
