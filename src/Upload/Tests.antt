-- ===== src/Upload/Tests.antt =====
-- A monitor that counts one packet, and one that cannot be made.
use go_netflow.Base.{◌+◌, ◌≡◌, ◌≤◌, refl, true, false, none, some, List, [], ◌∷◌, length, arith}
use go_netflow.Base.Bytes.{codes}
use go_netflow.Netflow.{try_send}
use go_netflow.Upload.{
  NetInterface, Frame, TrafficMonitor, makes, fails, no_device, get_default_device, first_device,
  has_address, with_filter, new_traffic_monitor, process_packet, get_upload_traffic, Run, Reach,
  here, next, send, receive, process, read, launch,
}
use go_netflow.Upload.Conserved.{bytes, in_hand, sum, reads-conserved}

abbrev interfaces : List NetInterface
interfaces =
    record {
      name = codes "lo";
      is_up = true;
      addresses = some (record { is_ipnet = true; is_loopback = true; is_valid = true } ∷ []);
    }
    ∷ record {
      name = codes "eth0";
      is_up = true;
      addresses = some (record { is_ipnet = true; is_loopback = false; is_valid = true } ∷ []);
    }
    ∷ []

abbrev monitor : TrafficMonitor
monitor = record {
  device = codes "eth0";
  port = codes "9080";
  packet_chan = record { capacity = 100; items = [] };
  total_tx_bytes = 0;
}

monitor_lem :
    new_traffic_monitor (some interfaces) (λ dev. true) (λ filter. true) [] (codes "9080")
    ≡ makes monitor
unfolding new_traffic_monitor get_default_device first_device has_address with_filter
monitor_lem = refl

abbrev frame : Frame
frame = record { has_network = true; has_transport = true; data_length = 60 }

abbrev counted : Run
counted = record (launch monitor) {
  monitor = record monitor { packet_chan = record { capacity = 100; items = frame ∷ [] } };
  sent = frame ∷ frame ∷ [];
  reads = 60 ∷ [];
}

to_counted : Reach (launch monitor) counted
unfolding try_send process_packet get_upload_traffic
to_counted =
    next
      (next
        (next (next (next here (send frame _ refl)) (receive frame [] refl refl))
          (process frame refl))
        read)
      (send frame _ refl)

reads-conserved_example :
    (sum counted.reads
        + counted.monitor.total_tx_bytes
        + in_hand counted.hand
        + bytes counted.monitor.packet_chan.items
      ≡ bytes counted.sent)
    × (length counted.monitor.packet_chan.items ≤ 100)
unfolding bytes
reads-conserved_example =
    reads-conserved (some interfaces) (λ dev. true) (λ filter. true) [] (codes "9080") monitor
      monitor_lem to_counted (omega arith)

no_interfaces :
    new_traffic_monitor none (λ dev. true) (λ filter. true) [] (codes "9080") ≡ fails no_device
unfolding new_traffic_monitor get_default_device
no_interfaces = refl
