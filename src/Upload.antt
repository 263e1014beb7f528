-- ===== src/Upload.antt =====
-- utils/helper.go: the monitor of the traffic of one port. `NewTrafficMonitor`, with the choice of
-- the device by `GetDefaultDevice`, over what the machine and libpcap return; and the goroutines
-- of a monitor as steps that interleave: `processPackets` receives a packet and then counts it, and
-- each method that holds the lock is one step. `sent` and
-- `reads` are not of the code: they record the packets that came in and the results of the reads.
pub mod Conserved
mod Tests
use go_netflow.Base.{
  ℕ, ◌+◌, ◌≡◌, Bool, true, false, not, ◌&&◌, ◌||◌, Option, none, some, List, [], ◌∷◌, ◌++◌,
  if◌then◌else◌, ◌==◌, length,
}
use go_netflow.Base.Bytes.{Bytes, codes}
use go_netflow.Base.Int64.{Int64, add64}
use go_netflow.Netflow.{Chan, try_send}

-- An address of an interface: whether it is a `*net.IPNet`, and what the tests of its IP return.
pub record NetAddress : Type 0 where
  pub is_ipnet : Bool
  pub is_loopback : Bool
  pub is_valid : Bool

-- `net.Interface`: its addresses, or the error of reading them.
pub record NetInterface : Type 0 where
  pub name : Bytes
  pub is_up : Bool
  pub addresses : Option (List NetAddress)

-- The loop over the addresses: whether one of them makes the function return.
unfoldable pub has_address : List NetAddress → Bool
has_address [] = false
has_address (addr ∷ addrs) =
    if not addr.is_ipnet
    then has_address addrs
    else if addr.is_loopback
    then has_address addrs
    else if addr.is_valid
    then true
    else has_address addrs

-- The loop of `GetDefaultDevice`; `none` is the error.
unfoldable pub first_device : List NetInterface → Option Bytes
first_device [] = none
first_device (iface ∷ ifaces) =
    let rest = first_device ifaces in
    if not iface.is_up then rest else (elim iface.addresses [
      | none ↦ rest
      | some addrs ↦ if has_address addrs then some iface.name else rest
    ])

-- `GetDefaultDevice`, given what `net.Interfaces` returns.
unfoldable pub get_default_device : Option (List NetInterface) → Option Bytes
get_default_device none = none
get_default_device (some ifaces) = first_device ifaces

-- What the monitor reads of a packet.
pub record Frame : Type 0 where
  pub has_network : Bool
  pub has_transport : Bool
  pub data_length : ℕ

-- `TrafficMonitor`
pub record TrafficMonitor : Type 0 where
  pub device : Bytes
  pub port : Bytes
  pub packet_chan : Chan Frame
  pub total_tx_bytes : Int64

pub data MonitorError : Type 0 where
  no_device not_opened no_filter : MonitorError

-- What `NewTrafficMonitor` leaves: an error, with the handle closed if there was one, or a monitor.
pub data Created : Type 0 where
  fails : MonitorError → Created
  makes : TrafficMonitor → Created

-- `handle.SetBPFFilter` and what follows it.
unfoldable pub with_filter : (Bytes → Bool) → Bytes → Bytes → Created
with_filter set_filter device port =
    if set_filter (codes "tcp and port " ++ port)
    then makes (record {
      device = device;
      port = port;
      packet_chan = record { capacity = 100; items = [] };
      total_tx_bytes = 0;
    })
    else fails no_filter

-- `NewTrafficMonitor`: `open_live` and `set_filter` are whether libpcap succeeds.
unfoldable pub new_traffic_monitor :
    Option (List NetInterface) → (Bytes → Bool) → (Bytes → Bool) → Bytes → Bytes → Created
new_traffic_monitor ifaces open_live set_filter device port =
    elim (if length device == 0 then get_default_device ifaces else some device) [
      | none ↦ fails no_device
      | some dev ↦ if open_live dev then with_filter set_filter dev port else fails not_opened
    ]

-- The test of `processPackets`
abbrev pub is_counted : Frame → Bool
is_counted packet = packet.has_network && packet.has_transport

-- `processPackets` at a packet.
unfoldable pub process_packet : TrafficMonitor → Frame → TrafficMonitor
process_packet tm packet =
    if is_counted packet
    then record tm { total_tx_bytes = add64 tm.total_tx_bytes packet.data_length }
    else tm

-- `GetUploadTraffic`
unfoldable pub get_upload_traffic : TrafficMonitor → Int64 × TrafficMonitor
get_upload_traffic tm = (tm.total_tx_bytes, record tm { total_tx_bytes = 0 })

-- `hand` is the packet that `processPackets` has received and not yet counted.
pub record Run : Type 0 where
  pub monitor : TrafficMonitor
  pub hand : Option Frame
  pub sent : List Frame
  pub reads : List Int64

-- The send of a packet waits until there is room.
pub data Step (s : Run) : Run → Type 0 where
  send :
      (packet : Frame) (ch : Chan Frame)
      → try_send s.monitor.packet_chan packet ≡ some ch
      → Step s (record s {
        monitor = record s.monitor { packet_chan = ch };
        sent = s.sent ++ packet ∷ [];
      })
  receive :
      (packet : Frame) (rest : List Frame)
      → s.hand ≡ none
      → s.monitor.packet_chan.items ≡ packet ∷ rest
      → Step s (record s {
        monitor = record s.monitor { packet_chan = record s.monitor.packet_chan { items = rest } };
        hand = some packet;
      })
  process :
      (packet : Frame)
      → s.hand ≡ some packet
      → Step s (record s { monitor = process_packet s.monitor packet; hand = none })
  read : Step s (record s {
    monitor = (get_upload_traffic s.monitor).1;
    reads = (get_upload_traffic s.monitor).0 ∷ s.reads;
  })

pub data Reach (s : Run) : Run → Type 0 where
  here : Reach s s
  next : {t u : Run} → Reach s t → Step t u → Reach s u

abbrev pub launch : TrafficMonitor → Run
launch tm = record { monitor = tm; hand = none; sent = []; reads = [] }
