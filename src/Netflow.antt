-- ===== src/Netflow.antt =====
-- netflow.go: the state `Netflow`, its two queues and the way of a packet from the capture to the
-- process that it belongs to. A channel is its capacity and its waiting items, oldest first. The
-- layers of a packet are what gopacket decoded. Printing and the loggers are left out. Each
-- function here is what a goroutine does between two waits; `System` has their interleavings.
pub mod Options
pub mod Config
pub mod Sync
pub mod Queues
pub mod Attribution
pub mod Established
pub mod Delay
pub mod Rank
pub mod Rescan
pub mod Worker
pub mod Totality
pub mod Sends
pub mod Payload
mod Tests
use go_netflow.Base.{
  ℕ, suc, ◌+◌, ◌*◌, ◌≡◌, Bool, true, false, ◌&&◌, ◌||◌, Option, none, some, List, [], ◌∷◌, ◌++◌,
  if◌then◌else◌, ◌==◌, ltb, length,
}
use go_netflow.Base.Bytes.{Bytes}
use go_netflow.Base.Dict.{Dict, lookup}
use go_netflow.Base.Int64.{Int64, Time, add64}
use go_netflow.Base.Strconv.{format_int}
use go_netflow.Netstat.{dotted, colon, join_addr}
use go_netflow.Traffic.{SideOption, input_side, output_side, Process}
use go_netflow.Traffic
use go_netflow.Mapping.{Mapping}
use go_netflow.Mapping
use go_netflow.Controller.{Controller, Ptr, update, has_key}
use go_netflow.Controller

-- A buffered channel.
pub record Chan (A : Type 0) : Type 0 where
  pub capacity : ℕ
  pub items : List A

-- The `net.IP` of an IPv4 layer, four bytes.
pub record Ip : Type 0 where
  pub a : ℕ
  pub b : ℕ
  pub c : ℕ
  pub d : ℕ

-- `ip.String()`
abbrev pub ip_string : Ip → Bytes
ip_string ip = dotted ip.a ip.b ip.c ip.d

-- What the code reads of the IPv4 layer and of the TCP layer.
pub record IPv4 : Type 0 where
  pub src_ip : Ip
  pub dst_ip : Ip
  pub ihl : ℕ

pub record Tcp : Type 0 where
  pub src_port : ℕ
  pub dst_port : ℕ
  pub data_offset : ℕ
  pub payload_length : ℕ

-- A captured packet: the layers that it has.
pub record GoPacket : Type 0 where
  pub ipv4 : Option IPv4
  pub tcp : Option Tcp

-- `delayEntry`
pub record DelayEntry : Type 0 where
  pub timestamp : Time
  pub times : Int64
  pub addr : Bytes
  pub length : Int64
  pub side : SideOption

-- `Netflow`. `ctx_done` is whether its context is cancelled; `cpu_core` is the bit pattern of a
-- float64. The pcap file, the exit functions
-- and the timer are in `Lifecycle`; the logger is left out.
pub record Netflow : Type 0 where
  pub ctx_done : Bool
  pub conn_inode_hash : Mapping
  pub process_hash : Controller
  pub worker_num : Int64
  pub qsize : Int64
  pub delay_queue : Chan DelayEntry
  pub packet_queue : Chan GoPacket
  pub bind_ips : Dict (Unit {0})
  pub bind_devices : Dict (Unit {0})
  pub counter : Int64
  pub capture_timeout : Int64
  pub sync_interval : Int64
  pub pcap_filter : Bytes
  pub pcap_file_name : Bytes
  pub debug_mode : Bool
  pub cpu_core : ℕ
  pub mem_mb : Int64

-- A send in a `select` with a default: `none` is the default.
unfoldable pub try_send : {A : Type 0} → Chan A → A → Option (Chan A)
try_send ch x =
    if ltb (length ch.items) ch.capacity
    then some (record ch { items = ch.items ++ x ∷ [] })
    else none

-- `isBindIPs`
unfoldable pub is_bind_ips : Netflow → Bytes → Bool
is_bind_ips nf ipa = has_key (lookup ipa nf.bind_ips)

-- `determineSide`
unfoldable pub determine_side : Netflow → Bytes → SideOption
determine_side nf src_ip = if is_bind_ips nf src_ip then output_side else input_side

-- `spliceAddr`
unfoldable pub splice_addr : Ip → ℕ → Ip → ℕ → Bytes
splice_addr sip sport dip dport =
    join_addr (ip_string sip) (format_int sport) (ip_string dip) (format_int dport)

-- `getProcessByAddr`; `none` is `errNotFound`.
unfoldable pub get_process_by_addr : Netflow → Bytes → Option Ptr
get_process_by_addr nf addr =
    let (inode, _) = Mapping.get nf.conn_inode_hash addr in
    if length inode == 0 then none else Controller.get_process_by_inode nf.process_hash inode

-- `increaseProcessTraffic`, through the pointer
unfoldable pub increase_process_traffic : Netflow → Ptr → Int64 → SideOption → Time → Netflow
increase_process_traffic nf proc len side clock =
    let heap' =
      update (λ p. Traffic.increase_process_traffic p len side clock) proc nf.process_hash.heap in
    record nf { process_hash = record nf.process_hash { heap = heap' } }

-- `pushDelayQueue`: an entry that finds the queue full is lost.
unfoldable pub push_delay_queue : Netflow → DelayEntry → Netflow
push_delay_queue nf de = elim (try_send nf.delay_queue de) [
  | none ↦ nf
  | some ch ↦ record nf { delay_queue = ch }
]

-- `increaseTraffic`
unfoldable pub increase_traffic : Netflow → Bytes → Int64 → SideOption → Time → Netflow
increase_traffic nf addr len side clock = elim (get_process_by_addr nf addr) [
  | none ↦
      push_delay_queue nf
        (record { timestamp = clock; times = 0; addr = addr; length = len; side = side })
  | some proc ↦ increase_process_traffic nf proc len side clock
]

-- `totalLength` of `handlePacket`: both headers, which are counted in words of four bytes, and the
-- payload.
abbrev pub total_length : IPv4 → Tcp → Int64
total_length ip tcp = ip.ihl * 4 + tcp.data_offset * 4 + tcp.payload_length

-- The end of `handlePacket`, for a packet with both layers.
unfoldable pub handle_layers : Netflow → IPv4 → Tcp → Time → Netflow
handle_layers nf ip tcp clock =
    let side = determine_side nf (ip_string ip.src_ip) in
    let addr = splice_addr ip.src_ip tcp.src_port ip.dst_ip tcp.dst_port in
    increase_traffic nf addr (total_length ip tcp) side clock

-- `handlePacket`
unfoldable pub handle_packet : Netflow → GoPacket → Time → Netflow
handle_packet nf packet clock = elim packet.ipv4 [
  | none ↦ nf
  | some ip ↦ elim packet.tcp [ none ↦ nf | some tcp ↦ handle_layers nf ip tcp clock ]
]

-- `enqueue`
unfoldable pub enqueue : Netflow → GoPacket → Netflow
enqueue nf pkt = elim (try_send nf.packet_queue pkt) [
  | none ↦ nf
  | some ch ↦ record nf { packet_queue = ch; counter = add64 nf.counter 1 }
]

-- `dequeue`: which of the cases that are ready its `select` takes is `take_done`. `none` is the
-- wait of a live context on an empty queue; `some none` is nil, the end of the worker.
unfoldable pub dequeue : Bool → Netflow → Option (Option GoPacket × Netflow)
dequeue take_done nf = elim nf.packet_queue.items [
  | [] ↦ if nf.ctx_done then some (none, nf) else none
  | pkt ∷ rest ↦
      if nf.ctx_done && take_done
      then some (none, nf)
      else some (some pkt, record nf { packet_queue = record nf.packet_queue { items = rest } })
]

-- One round of `loopHandlePacket`; `none` is a wait, and `false` the end of the worker.
unfoldable pub worker_round : Bool → Time → Netflow → Option (Bool × Netflow)
worker_round take_done clock nf = elim (dequeue take_done nf) [
  | none ↦ none
  | some (none, nf') ↦ some (false, nf')
  | some (some pkt, nf') ↦ some (true, handle_packet nf' pkt clock)
]
