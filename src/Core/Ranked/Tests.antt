-- ===== src/Core/Ranked/Tests.antt =====
-- A ranking of core2/blocking.go, with a tick of the `showTable` that it calls.
use go_netflow.Base.{
  ◌+◌, ◌*◌, ◌≡◌, ◌≤◌, refl, true, false, none, some, List, [], ◌∷◌, length, arith,
}
use go_netflow.Base.Bytes.{Bytes, codes}
use go_netflow.Base.Int64.{quot64, epoch, second}
use go_netflow.Netflow.{Netflow, try_send}
use go_netflow.Netflow.Options.{defaults}
use go_netflow.Netflow.Rank.{get_process_rank}
use go_netflow.Controller.{new_controller}
use go_netflow.Controller.{get_rank, copies, sort, analyse_all}
use go_netflow.Traffic.{copy, analyse_stats, sum_window, Process, new_stats}
use go_netflow.Upload.{
  NetInterface, Frame, TrafficMonitor, makes, get_default_device, first_device, has_address,
  with_filter, new_traffic_monitor, process_packet, get_upload_traffic, Run, send, receive, process,
}
use go_netflow.Upload
use go_netflow.Upload.Conserved.{bytes, sum}
use go_netflow.Core.Report.{add_row, report_handler}
use go_netflow.Core.Outgoing.{upload_round, upload_table, upload_rows}
use go_netflow.Core.Serving.{
  Call, Serving, started, show_upload, rank_upload, read_traffic, Reach, here, next, captures, tick,
}
use go_netflow.Core.Ranked.{rates-ranked}

abbrev interfaces : List NetInterface
interfaces =
    record {
      name = codes "eth0";
      is_up = true;
      addresses = some (record { is_ipnet = true; is_loopback = false; is_valid = true } ∷ []);
    }
    ∷ []

abbrev monitor : TrafficMonitor
monitor = record {
  device = codes "eth0";
  port = codes "9080";
  packet_chan = record { capacity = 100; items = [] };
  total_tx_bytes = 0;
}

-- Texts are empty, nothing answers, and one process is shown.
abbrev call : Call Bytes
call = record {
  printer = record {
    human_bytes = λ n. [];
    two_decimals = λ n. [];
    red = λ text. text;
    to_mb = λ n. n;
  };
  transport = record {
    md5_hex = λ text. text;
    decode_data = λ text. none;
    decode = λ text. none;
    send = λ req. none;
  };
  encode = λ infos. [];
  config = record {
    agent = record {
      server_endpoint = codes "http://localhost";
      device_id = [];
      biz_type = [];
      app_key = [];
      app_secret = [];
    };
    device_id_path = [];
    nethogs = [];
    filter = [];
  };
  shown = 0 ∷ [];
}

abbrev po : Process
po = record {
  name = [];
  pid = codes "7";
  exe = [];
  state = [];
  inode_count = 0;
  traffic_stats = some new_stats;
  ring = [];
  inodes = [];
  revision = 0;
}

abbrev frame : Frame
frame = record { has_network = true; has_transport = true; data_length = 200 }

abbrev sent : Run
sent = record (Upload.launch monitor) {
  monitor = record monitor { packet_chan = record { capacity = 100; items = frame ∷ [] } };
  sent = frame ∷ [];
}

abbrev received : Run
received = record sent { monitor = monitor; hand = some frame }

abbrev counted : Run
counted = record sent { monitor = record monitor { total_tx_bytes = 200 } }

abbrev begin : Serving Bytes
begin = started monitor (po ∷ [])

abbrev nf : Netflow
nf = record (defaults [] []) {
  process_hash = record new_controller { heap = po ∷ []; dict = (codes "7", 0) ∷ [] };
}

abbrev ranked : Netflow
ranked = record nf { process_hash = record nf.process_hash { sorted_processes = 0 ∷ [] } }

to_begin :
    rank_upload
      (λ less xs. xs)
      (some interfaces)
      (λ dev. true)
      (λ filter. true)
      nf
      (λ po. (epoch + 100) * second)
    ≡ some (ranked, some (0 ∷ [], some begin))
unfolding rank_upload show_upload new_traffic_monitor get_default_device first_device has_address
    with_filter get_process_rank get_rank copies sort analyse_all copy analyse_stats sum_window
    quot64
to_begin = refl

abbrev filled : Serving Bytes
filled = record begin { traffic = counted }

to_filled : Reach call begin filled
unfolding try_send process_packet
to_filled =
    next
      (next (next here (captures sent refl (send frame _ refl) refl))
        (captures received refl (receive frame [] refl refl) refl))
      (captures counted refl (process frame refl) refl)

abbrev rated : Process
rated = record po { traffic_stats = some (record new_stats { out_rate = 3 }) }

-- The state after a tick, which reports 3 bytes a second.
abbrev ticked : Serving Bytes
ticked = record filled {
  traffic = record counted { monitor = monitor; reads = 200 ∷ [] };
  heap = rated ∷ [];
  rates = 3 ∷ [];
  replies = report_handler call.printer call.transport call.encode call.config 0 3 7260 ∷ [];
}

to_ticked : Reach call begin ticked
unfolding upload_round upload_table upload_rows get_upload_traffic read_traffic add_row quot64
to_ticked = next to_filled (tick 7260 _ _ _ _ refl refl)

rates-ranked_example :
    (ticked.crashed ≡ false)
    × (60 * sum ticked.rates ≤ bytes ticked.traffic.sent)
    × (bytes ticked.traffic.sent
        ≤ 60 * sum ticked.rates
          + 59 * length ticked.rates
          + (ticked.traffic.monitor.total_tx_bytes
              + bytes ticked.traffic.monitor.packet_chan.items))
unfolding bytes
rates-ranked_example =
    rates-ranked call (λ less xs. xs) (some interfaces) (λ dev. true) (λ filter. true) nf ranked
      (λ po. (epoch + 100) * second) (0 ∷ []) to_begin to_ticked (omega arith)
