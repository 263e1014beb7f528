-- ===== src/Core/Outgoing.antt =====
-- core2/blocking.go: the command that reports the traffic of a port. `processRanking` ranks over 60
-- seconds; the loop of `showTable` never ends, and here is one tick of it. The rows, the rates and
-- the report are written as in core/blocking.go.
use go_netflow.Base.{
  ◌*◌, Option, none, some, List, [], ◌∷◌, if◌then◌else◌, get_elem?, set, length, ◌==◌,
}
use go_netflow.Base.Bytes.{Bytes, codes}
use go_netflow.Base.Int64.{Int64, quot64, second}
use go_netflow.Traffic.{Process}
use go_netflow.Controller.{Ptr}
use go_netflow.Netflow.Options.{Opt, name, capture_timeout}
use go_netflow.Upload.{TrafficMonitor, get_upload_traffic}
use go_netflow.Rpc.{Reply}
use go_netflow.Rpc.Define.{MonitorInfo}
use go_netflow.Rpc.Client.{Transport}
use go_netflow.Core.{Config}
use go_netflow.Core.Report.{Printer, Table, format_rate, add_row, report_handler}

-- The options of `StartOut`
unfoldable pub start_out_options : Config → List Opt
start_out_options c = name c.nethogs ∷ capture_timeout (12 * 30 * 24 * 60 * (60 * second)) ∷ []

-- The row for no process.
unfoldable pub server_row : Printer → Int64 → Table
server_row pr out_rate = record {
  items =
      (codes "0"
        ∷ codes "9080"
        ∷ codes "fileServer"
        ∷ codes "1"
        ∷ codes "0"
        ∷ codes "0"
        ∷ format_rate pr 0
        ∷ format_rate pr out_rate
        ∷ [])
      ∷ [];
  rate_in = 0;
  rate_out = out_rate;
}

-- The loop over the processes, which writes the rate into each; `none` is a nil dereference.
unfoldable pub upload_rows :
    Printer → Int64 → List Process → List Ptr → Table → Option (List Process × Table)
upload_rows pr out_rate heap [] table = some (heap, table)
upload_rows pr out_rate heap (po ∷ ps) table = elim (get_elem? heap po) [
  | none ↦ none
  | some p ↦ elim p.traffic_stats [
    | none ↦ none
    | some stats ↦
        let stats' = record stats { out_rate = out_rate } in
        upload_rows pr out_rate (set heap po (record p { traffic_stats = some stats' })) ps
          (add_row pr table p stats')
  ]
]

-- The rows of a tick, of which the rate is that of the 60 seconds between two ticks.
unfoldable pub upload_table :
    Printer → Int64 → List Process → List Ptr → Option (List Process × Table)
upload_table pr upload heap ps =
    if length ps == 0
    then some (heap, server_row pr (quot64 upload 60))
    else upload_rows pr (quot64 upload 60) heap ps
        (record { items = []; rate_in = 0; rate_out = 0 })

-- One tick of `showTable`, at time `timestamp`.
unfoldable pub upload_round :
    {D : Type 0}
    → Printer
    → Transport D
    → (List MonitorInfo → Bytes)
    → Config
    → List Process
    → List Ptr
    → TrafficMonitor
    → Int64
    → Option (List Process × TrafficMonitor × Table × Reply D)
upload_round pr tr encode c heap ps monitor timestamp =
    let (upload, monitor') = get_upload_traffic monitor in
    elim (upload_table pr upload heap ps) [
      | none ↦ none
      | some (heap', table) ↦ some (
        heap',
        monitor',
        table,
        report_handler pr tr encode c table.rate_in table.rate_out timestamp,
      )
    ]
