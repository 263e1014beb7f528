-- ===== src/Netflow/Payload.antt =====
-- netflow.go: `handlePacket1`, which nothing calls: it charges the payload of a packet without the
-- headers, and writes the packet to the pcap file, if there is one.
use go_netflow.Base.{◌≡◌, refl, Bool, Option, none, some, List, [], ◌∷◌, if◌then◌else◌, arith, ap}
use go_netflow.Base.Int64.{Time}
use go_netflow.Traffic.{input_side, output_side}
use go_netflow.Netflow.{
  Netflow, IPv4, Tcp, GoPacket, is_bind_ips, ip_string, splice_addr, increase_traffic,
  determine_side, handle_layers, handle_packet,
}

-- The end of `handlePacket1`, for a packet with both layers.
unfoldable pub charge_payload : Netflow → IPv4 → Tcp → Time → Netflow
charge_payload nf ip tcp clock =
    let side = (if is_bind_ips nf (ip_string ip.src_ip) then output_side else input_side) in
    let addr = splice_addr ip.src_ip tcp.src_port ip.dst_ip tcp.dst_port in
    increase_traffic nf addr tcp.payload_length side clock

-- `handlePacket1`, with the packets that it writes; `has_file` is whether there is a pcap file.
unfoldable pub handle_packet1 : Bool → Netflow → GoPacket → Time → Netflow × List GoPacket
handle_packet1 has_file nf packet clock = elim packet.ipv4 [
  | none ↦ (nf, [])
  | some ip ↦ elim packet.tcp [
    | none ↦ (nf, [])
    | some tcp ↦ (charge_payload nf ip tcp clock, if has_file then packet ∷ [] else [])
  ]
]

-- The packet with headers of length 0.
abbrev pub headless : GoPacket → GoPacket
headless packet = record {
  ipv4 = elim packet.ipv4 [ none ↦ none | some ip ↦ some (record ip { ihl = 0 }) ];
  tcp = elim packet.tcp [ none ↦ none | some tcp ↦ some (record tcp { data_offset = 0 }) ];
}

-- `handlePacket1` charges what `handlePacket` charges for the packet without its headers.
pub handle_packet1-headless :
    (has_file : Bool) (nf : Netflow) (packet : GoPacket) (clock : Time)
    → (handle_packet1 has_file nf packet clock).0 ≡ handle_packet nf (headless packet) clock
unfolding handle_packet1 handle_packet handle_layers charge_payload determine_side
handle_packet1-headless has_file nf packet clock = go packet.ipv4 packet.tcp
  where
    go :
        (i : Option IPv4) (t : Option Tcp)
        → (handle_packet1 has_file nf (record { ipv4 = i; tcp = t }) clock).0
          ≡ handle_packet nf (headless (record { ipv4 = i; tcp = t })) clock
    go none t = refl
    go (some ip) none = refl
    go (some ip) (some tcp) =
        ap
          (λ n.
            increase_traffic nf (splice_addr ip.src_ip tcp.src_port ip.dst_ip tcp.dst_port) n
              (if is_bind_ips nf (ip_string ip.src_ip) then output_side else input_side) clock)
          (omega arith)
