-- ===== src/Core/Tests.antt =====
-- Runs of the command: two signals, of which each reader takes one; and a report.
use go_netflow.Base.{◌*◌, ◌%◌, ◌+◌, ◌≡◌, ◌≤◌, refl, true, false, none, some, List, [], ◌∷◌, length}
use go_netflow.Base.Bytes.{Bytes, codes, has_prefix, bytes_eq}
use go_netflow.Base.Int64.{Time, second, epoch, mod64}
use go_netflow.Base.Strconv.{format_int}
use go_netflow.Base.Dict.{Dict, lookup, insert}
use go_netflow.Base.Outcome.{returns}
use go_netflow.Traffic.{Process, new_stats}
use go_netflow.Scan.{
  Proc, found, get_processes, get_matching_pids, matching, matches, scan_pids, scan_files,
  scan_file, add_socket, inode_text,
}
use go_netflow.Upload.{TrafficMonitor}
use go_netflow.Controller.{Ptr, rescan}
use go_netflow.System.{System, Syncer}
use go_netflow.System
use go_netflow.Netflow.Sync.{rescan_resouce, rescan_conns, rescan_process_inodes}
use go_netflow.Controller.Tests.{insertion_sort, insertion_sort-IsSort}
use go_netflow.Netflow.{Netflow, try_send}
use go_netflow.Netflow.Options.{defaults, ok, new, apply_opts}
use go_netflow.Netflow.Rank.{get_process_rank, ranking}
use go_netflow.Rpc.Define.{MonitorInfo}
use go_netflow.Rpc.Client.{Transport}
use go_netflow.Rpc.Calls.{answer}
use go_netflow.Core.{
  Config, gone, Command, launch, notify, handle_signal, leave_start, signal, handle, exit,
  capture_ends, rank_ends, Reach, here, next,
}
use go_netflow.Core.Shutdown.{count, fired, shutdown}
use go_netflow.Core.Report.{Printer, Table, rank_round}
use go_netflow.Core.Reported.{sums_request, report_request, total}
use go_netflow.System.Health.{IsHealthy}
use go_netflow.System.Soundness.{Reach-IsHealthy}
use go_netflow.Core.Running.{rank_round-Reach}
use go_netflow.Core.Outgoing.{upload_round}
use go_netflow.Core.Uploaded.{out_sum, upload_round_lem}

-- One signal, taken by `handleSignals`: the ranking ends, and `Start` waits on.
abbrev deaf : Command
deaf = record launch { ctx_done = true; handler = gone; ranker = gone; accepted = 1 }

to_deaf : Reach launch deaf
unfolding notify try_send handle_signal
to_deaf = next (next (next here (signal 2)) (handle 2 [] refl refl)) (rank_ends refl refl)

abbrev ended : Command
ended = record deaf { main = gone; expired = true; stops = 2; accepted = 2; taken = 1 }

to_ended : Reach deaf ended
unfolding notify try_send leave_start
to_ended = next (next (next here (signal 15)) (exit 15 [] refl refl)) (capture_ends refl)

join : {s t u : Command} → Reach s t → Reach t u → Reach s u
join r here = r
join r (next q st) = next (join r q) st

shutdown_example :
    (2 ≤ ended.accepted → ended.sigch.items ≡ [] → (ended.main ≡ gone) × (ended.ctx_done ≡ true))
    × (3 ≤ ended.accepted → (ended.main ≡ gone) × (ended.ctx_done ≡ true))
    × (ended.stops ≡ count ended.main + fired ended.expired)
shutdown_example = shutdown (join to_deaf to_ended)

-- Texts are numbers, and nothing answers.
abbrev printer : Printer
printer = record {
  human_bytes = format_int;
  two_decimals = format_int;
  red = λ text. b'!' ∷ text;
  to_mb = λ n. n;
}

abbrev transport : Transport Bytes
transport = record {
  md5_hex = λ text. text;
  decode_data = λ text. none;
  decode = λ text. none;
  send = λ req. none;
}

abbrev config : Config
config = record {
  agent = record {
    server_endpoint = codes "http://localhost";
    device_id = codes "d1";
    biz_type = codes "1";
    app_key = codes "k";
    app_secret = codes "s";
  };
  device_id_path = codes "/etc/id";
  nethogs = [];
  filter = [];
}

abbrev encode : List MonitorInfo → Bytes
encode [] = []
encode (info ∷ infos) = format_int info.down_bandwidth

-- The monitor after its first rescan, which finds one process with a socket.
abbrev links : Dict Bytes
links =
    (codes "/proc/7/exe", codes "/usr/bin/curl") ∷ (codes "/proc/7/fd/3", codes "socket:[55]") ∷ []

abbrev machine : Proc
machine = record {
  pids = some (codes "7" ∷ []);
  files = λ pid. some (codes "/proc/7/fd/3" ∷ []);
  link = λ path. lookup path links;
}

abbrev fresh : Netflow
fresh = defaults [] []

fresh_lem : new [] [] [] ≡ ok fresh
unfolding new apply_opts
fresh_lem = refl

abbrev start : Time
start = (epoch + 100) * second

abbrev curl : Dict Process
curl = (codes "7", found machine [] (codes "7") (codes "55")) ∷ []

abbrev rescanned : Netflow
rescanned = record fresh { process_hash = rescan fresh.process_hash (some curl) }

scanned : get_processes machine [] ≡ returns (some curl)
unfolding get_processes get_matching_pids matching matches scan_pids scan_files scan_file add_socket
    inode_text has_prefix lookup insert bytes_eq
scanned = refl

rescanned_lem : rescan_resouce [] fresh none (some curl) ≡ returns rescanned
unfolding rescan_resouce rescan_conns rescan_process_inodes
rescanned_lem = refl

abbrev at_work : System
at_work = record (System.launch fresh start) { nf = rescanned; syncer = Syncer.waits none }

abbrev to_work : System.Reach [] insertion_sort (System.launch fresh start) at_work
to_work =
    System.next System.here
      (System.tick machine none (some curl) rescanned _ refl scanned rescanned_lem)

abbrev clock : Ptr → Time
clock po = start

rank_round-Reach_example :
    (ps : List Ptr) × (nf' : Netflow) × (t : Table) × (length ps ≤ 1)
    × (get_process_rank insertion_sort rescanned 1 5 clock ≡ some (ranking ps, nf'))
    × (length t.items ≡ length ps)
    × (rank_round printer transport encode insertion_sort config rescanned clock start
        ≡ some (
          nf',
          some (
            t,
            answer transport false
                (sums_request printer transport encode config nf'.process_hash.heap ps start),
          ),
        ))
rank_round-Reach_example =
    rank_round-Reach printer transport encode config [] insertion_sort [] [] [] fresh start clock
      insertion_sort-IsSort fresh_lem to_work

Reach-IsHealthy_example : IsHealthy rescanned
Reach-IsHealthy_example = Reach-IsHealthy [] insertion_sort [] [] [] fresh start fresh_lem to_work

-- A tick of the other command, on a process with statistics.
abbrev po : Process
po = found machine [] (codes "7") (codes "55")

abbrev monitor : TrafficMonitor
monitor = record {
  device = codes "eth0";
  port = codes "9080";
  packet_chan = record { capacity = 100; items = [] };
  total_tx_bytes = 6000;
}

upload_round_lem_example :
    (heap' : List Process) × (t : Table) × (upload_round printer transport encode config
        (po ∷ [])
        (0 ∷ [])
        monitor
        7260
      ≡ some (
        heap',
        record monitor { total_tx_bytes = 0 },
        t,
        answer transport false (
            report_request printer transport encode config
              (total (λ s. s.in_rate) (po ∷ []) (0 ∷ []) % mod64)
              (out_sum 6000 (0 ∷ []))
              7260),
      ))
upload_round_lem_example =
    upload_round_lem printer transport encode config (po ∷ []) (0 ∷ []) monitor 7260
      ((po, new_stats, refl, unfold found in refl), tt)
