-- ===== src/Upload/Conserved.antt =====
-- No byte is counted twice or lost between the packets and the reads.
use go_netflow.Base.{
  ℕ, ◌+◌, ◌≤◌, ◌<◌, ◌≡◌, refl, ap, ◌∙◌, Bool, Option, none, some, List, [], ◌∷◌, ◌++◌,
  if◌then◌else◌, arith, length,
}
use go_netflow.Base.Bytes.{Bytes}
use go_netflow.Base.Int64.{Int64, half64}
use go_netflow.Netflow.Sends.{try_send_lem}
use go_netflow.Upload.{
  Frame, TrafficMonitor, makes, NetInterface, with_filter, new_traffic_monitor, process_packet,
  get_upload_traffic, Run, Step, send, receive, process, read, Reach, here, next, launch,
}

-- The bytes of a packet that count, and of a list of packets.
abbrev pub bytes_of : Frame → ℕ
bytes_of packet =
    if packet.has_network then (if packet.has_transport then packet.data_length else 0) else 0

unfoldable pub bytes : List Frame → ℕ
bytes [] = 0
bytes (packet ∷ packets) = bytes_of packet + bytes packets

-- The bytes of a packet that was received and not yet counted.
abbrev pub in_hand : Option Frame → ℕ
in_hand none = 0
in_hand (some packet) = bytes_of packet

unfoldable pub sum : List Int64 → ℕ
sum [] = 0
sum (n ∷ ns) = n + sum ns

bytes-append : (xs ys : List Frame) → bytes (xs ++ ys) ≡ bytes xs + bytes ys
unfolding bytes
bytes-append [] ys = omega arith
bytes-append (x ∷ xs) ys = omega (arith, bytes-append xs ys)

pub record IsConserved (s : Run) : Type 0 where
  pub same :
      sum s.reads + s.monitor.total_tx_bytes + in_hand s.hand + bytes s.monitor.packet_chan.items
      ≡ bytes s.sent
  pub fits : length s.monitor.packet_chan.items ≤ s.monitor.packet_chan.capacity

pub Step-bytes : {s t : Run} → Step s t → bytes s.sent ≤ bytes t.sent
Step-bytes {s} (send packet ch e) = omega (arith, bytes-append s.sent (packet ∷ []))
Step-bytes (receive packet rest h e) = omega arith
Step-bytes (process packet e) = omega arith
Step-bytes read = omega arith

process_packet_lem :
    (tm : TrafficMonitor) (packet : Frame)
    → tm.total_tx_bytes + bytes_of packet < half64
    → ((process_packet tm packet).total_tx_bytes ≡ tm.total_tx_bytes + bytes_of packet)
      × ((process_packet tm packet).packet_chan ≡ tm.packet_chan)
unfolding process_packet
process_packet_lem tm packet h = ground (arith, h)

Step-capacity :
    {s t : Run} → Step s t → t.monitor.packet_chan.capacity ≡ s.monitor.packet_chan.capacity
unfolding get_upload_traffic
Step-capacity {s} (send packet ch e) = (try_send_lem s.monitor.packet_chan ch packet e).1
Step-capacity {s} (receive packet rest h e) = refl
Step-capacity {s} (process packet e) = unfold process_packet in ground arith
Step-capacity read = refl

Step-IsConserved : {s t : Run} → Step s t → bytes t.sent < half64 → IsConserved s → IsConserved t
unfolding sum bytes get_upload_traffic
Step-IsConserved {s} (send packet ch e) h v =
    let (items, same, fits) = try_send_lem s.monitor.packet_chan ch packet e in
    record {
      same = omega (
        arith,
        v.same,
        ap bytes items,
        bytes-append s.monitor.packet_chan.items (packet ∷ []),
        bytes-append s.sent (packet ∷ []),
      );
      fits = rw same fits;
    }
Step-IsConserved {s} (receive packet rest none_held e) h v = record {
  same = omega (arith, v.same, ap bytes e, ap in_hand none_held);
  fits = omega (arith, v.fits, ap length e);
}
Step-IsConserved {s} (process packet e) h v =
    let held = ap in_hand e in
    let (total, chan) = process_packet_lem s.monitor packet (omega (arith, v.same, held, h)) in
    record { same = rw (chan) (omega (arith, v.same, held, total)); fits = rw (chan) v.fits }
Step-IsConserved {s} read h v = record { same = omega (arith, v.same); fits = v.fits }

Reach-IsConserved : {s t : Run} → Reach s t → bytes t.sent < half64 → IsConserved s → IsConserved t
Reach-IsConserved here h v = v
Reach-IsConserved (next r st) h v =
    Step-IsConserved st h (Reach-IsConserved r (omega (arith, Step-bytes st, h)) v)

launch-IsConserved :
    (tm : TrafficMonitor)
    → tm.total_tx_bytes ≡ 0
    → tm.packet_chan.items ≡ []
    → IsConserved (launch tm)
unfolding sum bytes
launch-IsConserved tm h e = record { same = rw (h, e) (omega arith); fits = rw e (omega arith) }

new_traffic_monitor-empty :
    (ifaces : Option (List NetInterface)) (open_live set_filter : Bytes → Bool)
    (device port : Bytes) (tm : TrafficMonitor)
    → new_traffic_monitor ifaces open_live set_filter device port ≡ makes tm
    → (tm.total_tx_bytes ≡ 0) × (tm.packet_chan.items ≡ []) × (tm.packet_chan.capacity ≡ 100)
unfolding new_traffic_monitor with_filter
new_traffic_monitor-empty ifaces open_live set_filter device port tm e = ground (arith, e)

Reach-capacity :
    {s t : Run} → Reach s t → t.monitor.packet_chan.capacity ≡ s.monitor.packet_chan.capacity
Reach-capacity here = refl
Reach-capacity (next r st) = Step-capacity st ∙ Reach-capacity r

-- Whatever the order in which the goroutines of a new monitor run: as long as fewer than 2 ^ 63
-- bytes came in, the results of the calls of `GetUploadTraffic`, the bytes since the last call, and
-- those of the packet in hand and of the packets that wait sum up to the bytes of the packets with a network and a transport
-- layer that came in; and at most 100 packets wait.
pub reads-conserved :
    (ifaces : Option (List NetInterface)) (open_live set_filter : Bytes → Bool)
    (device port : Bytes) (tm : TrafficMonitor) {t : Run}
    → new_traffic_monitor ifaces open_live set_filter device port ≡ makes tm
    → Reach (launch tm) t
    → bytes t.sent < half64
    → (sum t.reads + t.monitor.total_tx_bytes + in_hand t.hand + bytes t.monitor.packet_chan.items
        ≡ bytes t.sent)
      × (length t.monitor.packet_chan.items ≤ 100)
reads-conserved ifaces open_live set_filter device port tm e r h =
    let (total, items, capacity) =
      new_traffic_monitor-empty ifaces open_live set_filter device port tm e in
    let v = Reach-IsConserved r h (launch-IsConserved tm total items) in
    (v.same, omega (arith, v.fits, Reach-capacity r, capacity))
