-- ===== src/Netflow/Options.antt =====
-- netflow.go: the options, and `New`. An option is a function on the state that may fail. The
-- interfaces of the machine (`parseIpaddrsAndDevices`) are arguments of `New`; the goroutine that
-- it starts, which cleans the mapping every two minutes, is in `Netflow.Sync`.
use go_netflow.Base.{ℕ, ◌*◌, Bool, true, false, ◌||◌, List, [], ◌∷◌, if◌then◌else◌, ◌==◌, length}
use go_netflow.Base.Bytes.{Bytes}
use go_netflow.Base.Dict.{Dict, insert}
use go_netflow.Base.Int64.{Int64, ltb64, is_neg64, second}
use go_netflow.Mapping.{new_mapping}
use go_netflow.Controller.{new_controller}
use go_netflow.Netflow.{Netflow}

pub data OptionError : Type 0 where
  invalid_sync_interval invalid_ips invalid_devs : OptionError

pub data Result (A : Type 0) : Type 0 where
  ok : A → Result A
  err : OptionError → Result A

-- `optionFunc`
abbrev pub OptionFunc : Type 0
OptionFunc = Netflow → Result Netflow

abbrev pub default_queue_size : ℕ
default_queue_size = 2000000

abbrev pub default_worker_num : ℕ
default_worker_num = 1

abbrev pub default_sync_interval : Int64
default_sync_interval = second

abbrev pub default_capture_timeout : Int64
default_capture_timeout = 12 * 30 * 24 * 60 * 60 * second

-- `WithPcapFilter`: the test of the prefix "and" has no effect.
unfoldable pub with_pcap_filter : Bytes → OptionFunc
with_pcap_filter filter o =
    if length filter == 0 then ok o else ok (record o { pcap_filter = filter })

unfoldable pub with_open_debug : OptionFunc
with_open_debug o = ok (record o { debug_mode = true })

unfoldable pub with_limit_cgroup : ℕ → Int64 → OptionFunc
with_limit_cgroup cpu mem o = ok (record o { cpu_core = cpu; mem_mb = mem })

unfoldable pub with_store_pcap : Bytes → OptionFunc
with_store_pcap fpath o = ok (record o { pcap_file_name = fpath })

unfoldable pub with_capture_timeout : Int64 → OptionFunc
with_capture_timeout dur o =
    let dur' = (if ltb64 default_capture_timeout dur then default_capture_timeout else dur) in
    ok (record o { capture_timeout = dur' })

unfoldable pub with_name : Bytes → OptionFunc
with_name pname o = ok (record o { process_hash = record o.process_hash { filter_pname = pname } })

-- `dur <= 0`
abbrev pub is_not_positive : Int64 → Bool
is_not_positive n = n == 0 || is_neg64 n

unfoldable pub with_sync_interval : Int64 → OptionFunc
with_sync_interval dur o =
    if is_not_positive dur then err invalid_sync_interval else ok (record o { sync_interval = dur })

unfoldable pub with_worker_num : Int64 → OptionFunc
with_worker_num num o =
    ok (record o { worker_num = if is_not_positive num then default_worker_num else num })

-- `WithCtx`: the new context, cancelled or not, takes the place of the one made by `New`.
unfoldable pub with_ctx : Bool → OptionFunc
with_ctx done o = ok (record o { ctx_done = done })

-- The loops of `WithBindIPs` and `WithBindDevices`.
unfoldable pub set_of : List Bytes → Dict (Unit {0}) → Dict (Unit {0})
set_of [] mm = mm
set_of (ip ∷ ips) mm = set_of ips (insert ip tt mm)

unfoldable pub with_bind_ips : List Bytes → OptionFunc
with_bind_ips ips o =
    if length ips == 0 then err invalid_ips else ok (record o { bind_ips = set_of ips [] })

unfoldable pub with_bind_devices : List Bytes → OptionFunc
with_bind_devices devs o =
    if length devs == 0 then err invalid_devs else ok (record o { bind_devices = set_of devs [] })

unfoldable pub with_queue_size : Int64 → OptionFunc
with_queue_size size o =
    ok (record o { qsize = if ltb64 size 1000 then default_queue_size else size })

-- The options that the package offers.
pub data Opt : Type 0 where
  pcap_filter : Bytes → Opt
  open_debug : Opt
  limit_cgroup : ℕ → Int64 → Opt
  store_pcap : Bytes → Opt
  capture_timeout : Int64 → Opt
  name : Bytes → Opt
  sync_interval : Int64 → Opt
  worker_num : Int64 → Opt
  ctx : Bool → Opt
  bind_ips : List Bytes → Opt
  bind_devices : List Bytes → Opt
  queue_size : Int64 → Opt

unfoldable pub run_opt : Opt → OptionFunc
run_opt (pcap_filter filter) = with_pcap_filter filter
run_opt open_debug = with_open_debug
run_opt (limit_cgroup cpu mem) = with_limit_cgroup cpu mem
run_opt (store_pcap fpath) = with_store_pcap fpath
run_opt (capture_timeout dur) = with_capture_timeout dur
run_opt (name pname) = with_name pname
run_opt (sync_interval dur) = with_sync_interval dur
run_opt (worker_num num) = with_worker_num num
run_opt (ctx done) = with_ctx done
run_opt (bind_ips ips) = with_bind_ips ips
run_opt (bind_devices devs) = with_bind_devices devs
run_opt (queue_size size) = with_queue_size size

-- The loop of `New` over its options.
unfoldable pub apply_opts : List Opt → OptionFunc
apply_opts [] nf = ok nf
apply_opts (opt ∷ opts) nf = elim (run_opt opt nf) [ err e ↦ err e | ok nf' ↦ apply_opts opts nf' ]

-- The state that `New` builds before it applies the options: the channels are made here.
abbrev pub defaults : Dict (Unit {0}) → Dict (Unit {0}) → Netflow
defaults ips devs = record {
  ctx_done = false;
  conn_inode_hash = new_mapping;
  process_hash = new_controller;
  worker_num = default_worker_num;
  qsize = default_queue_size;
  delay_queue = record { capacity = default_queue_size; items = [] };
  packet_queue = record { capacity = default_queue_size; items = [] };
  bind_ips = ips;
  bind_devices = devs;
  counter = 0;
  capture_timeout = default_capture_timeout;
  sync_interval = default_sync_interval;
  pcap_filter = [];
  pcap_file_name = [];
  debug_mode = false;
  cpu_core = 0;
  mem_mb = 0;
}

-- `New`
unfoldable pub new : Dict (Unit {0}) → Dict (Unit {0}) → List Opt → Result Netflow
new ips devs opts = apply_opts opts (defaults ips devs)
