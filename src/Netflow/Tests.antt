-- ===== src/Netflow/Tests.antt =====
-- Runs of `Netflow`, and instances of its theorems.
use go_netflow.Base.{◌+◌, ◌*◌, ◌%◌, ◌≡◌, refl, none, some, List, [], ◌∷◌, arith, false, All}
use go_netflow.Base.Bytes.{Bytes, codes, bytes_eq, split, trim_space}
use go_netflow.Base.Dict.{lookup, insert}
use go_netflow.Base.Int64.{Time, epoch, second, mod64}
use go_netflow.Base.Outcome.{returns}
use go_netflow.Base.Strconv.{parse_int, parse_uint, scan, digit, format_int}
use go_netflow.Traffic.{Process, new_stats, output_side}
use go_netflow.Mapping.{Mapping, Entry, exists, add}
use go_netflow.Mapping
use go_netflow.Controller.{new_controller, get_process_by_inode}
use go_netflow.Netstat.{
  ConnectionItem, parse_addr, parse_parts, hex2ip, hex2dec, remove_empty, get_connection_item,
  item_of_columns, finish_item, states, get_user_by_uid,
}
use go_netflow.Netstat.Tests.{local, remote, established_line, established}
use go_netflow.Netflow.{
  Netflow, DelayEntry, GoPacket, IPv4, Tcp, handle_packet, increase_process_traffic, determine_side,
  ip_string, get_process_by_addr, splice_addr,
}
use go_netflow.Netflow.Options.{
  Opt, queue_size, sync_interval, name, ok, new, defaults, default_queue_size, apply_opts, run_opt,
  with_queue_size, with_sync_interval, with_name,
}
use go_netflow.Netflow.Config.{IsConfigured, new-IsConfigured, new-capacity}
use go_netflow.Controller.Tests.{running}
use go_netflow.Controller.Rank.{key}
use go_netflow.Netflow.Totality.{IsWhole, rescan_conns_total}
use go_netflow.Netflow.Worker.{worker_rounds, with_queue, handle_all, worker_rounds_lem}
use go_netflow.Netflow.Sync.{
  Line, rescan_conns, note_lines, note_line, note_item, add_missing, handle_delay_entry, drain,
}
use go_netflow.Netflow.Attribution.{Agrees}
use go_netflow.Netflow.Established.{packet_between, ip_of, handle_packet-established}
use go_netflow.Netflow.Delay.{with_items, handle_entries, drain_lem}
use go_netflow.Netflow.Queues.{
  enqueue_all, with_packets, enqueue_all_lem, handle_delay_entry-handle_packet,
}

abbrev opts : List Opt
opts = name (codes "Wget") ∷ queue_size 20000 ∷ sync_interval (5 * second) ∷ []

-- The state that `New` returns for them.
abbrev started : Netflow
started = record (defaults [] []) {
  process_hash = record new_controller { filter_pname = codes "Wget" };
  qsize = 20000;
  sync_interval = 5 * second;
}

new-started : new [] [] opts ≡ ok started
unfolding new apply_opts run_opt with_name with_queue_size with_sync_interval
new-started = refl

new-IsConfigured_example : IsConfigured started
new-IsConfigured_example = new-IsConfigured [] [] opts started new-started

-- The queue size asked for is stored, and the channels are of the default size.
new-capacity_example :
    (started.packet_queue ≡ record { capacity = default_queue_size; items = [] })
    × (started.delay_queue ≡ record { capacity = default_queue_size; items = [] })
new-capacity_example = new-capacity [] [] opts started new-started

abbrev curl : Process
curl = record {
  name = codes "Curl";
  pid = codes "225";
  exe = codes "/usr/bin/curl";
  state = [];
  inode_count = 1;
  traffic_stats = some new_stats;
  ring = [];
  inodes = codes "41877" ∷ [];
  revision = 0;
}

-- A monitor that has seen the process, and not yet its connection.
abbrev scanned : Netflow
scanned = record started {
  process_hash = record new_controller {
    heap = curl ∷ [];
    dict = (codes "225", 0) ∷ [];
    inode_pid_map = (codes "41877", codes "225") ∷ [];
  };
  bind_ips = (codes "172.16.0.46", tt) ∷ [];
}

abbrev clock : Time
clock = (epoch + 100) * second

abbrev header_line : Line
header_line = record { text = codes "sl"; first = clock; later = clock }

abbrev conn_line : Line
conn_line = record { text = established_line; first = clock; later = clock + 1 }

-- The mapping after a rescan.
abbrev known : Netflow
known = record scanned {
  conn_inode_hash = record {
    dict =
        (
          codes "172.16.0.46:59544_10.0.0.1:443",
          record { value = codes "41877"; timestamp = clock },
        )
        ∷ (
          codes "10.0.0.1:443_172.16.0.46:59544",
          record { value = codes "41877"; timestamp = clock + 1 },
        )
        ∷ [];
  };
}

abbrev conn_item : ConnectionItem
conn_item = record {
  addr = codes "172.16.0.46:59544_10.0.0.1:443";
  reverse_addr = codes "10.0.0.1:443_172.16.0.46:59544";
  src_ip = codes "172.16.0.46";
  src_port = codes "59544";
  dest_ip = codes "10.0.0.1";
  dest_port = codes "443";
  state = codes "ESTABLISHED";
  tx_queue = 0;
  rx_queue = 0;
  uid = 1000;
  uname = [];
  inode = codes "41877";
  raw = established_line;
}

parsed_line : get_connection_item [] established_line ≡ returns (some conn_item)
unfolding get_connection_item item_of_columns finish_item parse_addr parse_parts hex2ip hex2dec
    states get_user_by_uid remove_empty split trim_space parse_int parse_uint scan digit format_int
    bytes_eq lookup
parsed_line = refl

rescan-known : rescan_conns [] scanned (some (header_line ∷ conn_line ∷ [])) ≡ returns known
unfolding rescan_conns note_lines note_line note_item add_missing exists add lookup insert bytes_eq
    get_connection_item item_of_columns finish_item parse_addr parse_parts hex2ip hex2dec states
    get_user_by_uid remove_empty split trim_space parse_int parse_uint scan digit format_int
rescan-known = refl

agrees : (key : Bytes) → All (Agrees [] key (codes "41877")) (conn_line ∷ [])
agrees key = ((λ conn parsed either. ground (arith, parsed_line)), tt)

handle_packet-established_example :
    (handle_packet known (packet_between local remote 5 8 100) clock
      ≡ increase_process_traffic known 0 152 (determine_side known (ip_string (ip_of local))) clock)
    × (handle_packet known (packet_between remote local 5 8 100) clock
        ≡ increase_process_traffic known 0 152
            (determine_side known (ip_string (ip_of remote)))
            clock)
unfolding get_process_by_inode lookup bytes_eq split trim_space remove_empty
handle_packet-established_example =
    handle_packet-established [] scanned known header_line [] conn_line [] local remote
      (codes "41877") 0 5 8 100 clock rescan-known established (agrees _) (agrees _) (cc) refl

-- Two packets of the connection that wait, and one that came after the rescan at second 200.
abbrev entry_at : Time → DelayEntry
entry_at t = record {
  timestamp = t;
  times = 0;
  addr = codes "172.16.0.46:59544_10.0.0.1:443";
  length = 152;
  side = output_side;
}

abbrev waiting : List DelayEntry
waiting = entry_at 100 ∷ entry_at 150 ∷ entry_at 201 ∷ entry_at 202 ∷ []

drain_lem_example :
    drain 5 (λ _. clock) false 200 none (with_items known waiting)
    ≡ some (
      some (entry_at 201),
      with_items
          (handle_entries
            (λ _. clock)
            5
            (with_items known waiting)
            (entry_at 100 ∷ entry_at 150 ∷ []))
          (entry_at 202 ∷ []),
    )
drain_lem_example = drain_lem 5 (λ _. clock) false 200 (with_items known waiting) refl (omega arith)

abbrev other : GoPacket
other = record { ipv4 = none; tcp = none }

-- A queue of two with one packet.
abbrev small : Netflow
small = record started { packet_queue = record { capacity = 2; items = other ∷ [] }; counter = 1 }

enqueue_all_lem_example :
    enqueue_all small (other ∷ other ∷ other ∷ [])
    ≡ with_packets small (other ∷ other ∷ []) (2 % mod64)
enqueue_all_lem_example =
    enqueue_all_lem small (other ∷ other ∷ other ∷ []) (omega arith) (omega arith)

abbrev ip_layer : IPv4
ip_layer = record { src_ip = ip_of local; dst_ip = ip_of remote; ihl = 5 }

abbrev tcp_layer : Tcp
tcp_layer = record { src_port = 59544; dst_port = 443; data_offset = 8; payload_length = 100 }

found_process :
    get_process_by_addr known (splice_addr (ip_of local) 59544 (ip_of remote) 443) ≡ some 0
unfolding get_process_by_addr Mapping.get lookup splice_addr format_int bytes_eq
    get_process_by_inode
found_process = refl

unknown_process :
    get_process_by_addr scanned (splice_addr (ip_of local) 59544 (ip_of remote) 443) ≡ none
unfolding get_process_by_addr Mapping.get lookup
unknown_process = refl

handle_delay_entry-handle_packet_example :
    (e : DelayEntry) × (handle_packet scanned
        (record { ipv4 = some ip_layer; tcp = some tcp_layer })
        clock
      ≡ record scanned { delay_queue = record scanned.delay_queue { items = e ∷ [] } })
    × (handle_delay_entry known e (clock + 5)
        ≡ handle_packet known (record { ipv4 = some ip_layer; tcp = some tcp_layer }) (clock + 5))
handle_delay_entry-handle_packet_example =
    handle_delay_entry-handle_packet scanned known ip_layer tcp_layer clock (clock + 5)
      unknown_process (omega arith) (λ e. ground (arith, found_process)) refl

-- A packet without layers waits before one of a known connection.
abbrev busy : Netflow
busy = with_queue known (other ∷ record { ipv4 = some ip_layer; tcp = some tcp_layer } ∷ [])

worker_rounds_lem_example :
    worker_rounds 2 (λ _. clock) false busy
    ≡ some (with_queue (handle_all (λ _. clock) busy.packet_queue.items busy) [])
worker_rounds_lem_example = worker_rounds_lem (λ _. clock) false busy refl

-- A state with the process of the controller's tests.
abbrev ranked : Netflow
ranked = record started { process_hash = running }

conn_line-IsWhole : IsWhole conn_line
unfolding split trim_space remove_empty
conn_line-IsWhole = record {
  queues = codes "00000000:00000000";
  tx = codes "00000000";
  rx = codes "00000000";
  wide = omega arith;
  fifth = refl;
  two = refl;
}

rescan_conns_total_example :
    (nf' : Netflow) × (rescan_conns [] scanned (some (header_line ∷ conn_line ∷ [])) ≡ returns nf')
rescan_conns_total_example =
    rescan_conns_total [] scanned (header_line ∷ conn_line ∷ []) (conn_line-IsWhole, tt)
