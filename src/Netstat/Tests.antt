-- ===== src/Netstat/Tests.antt =====
-- Lines of /proc/net/tcp.
use go_netflow.Base.{◌≡◌, ◌⊎◌, refl, some, List, [], ◌∷◌, arith, false}
use go_netflow.Base.Bytes.{Bytes, codes, bytes_eq, split, trim_space}
use go_netflow.Base.Outcome.{returns}
use go_netflow.Base.Strconv.{parse_int, parse_uint, scan, digit, format_int}
use go_netflow.Netstat.{
  ConnectionItem, parse_addr, parse_parts, hex2ip, hex2dec, dotted, join_addr, item_of_columns,
  remove_empty, established_symbol, listen_symbol,
}
use go_netflow.Netstat.Address.{
  Endpoint, IsColumn, kernel_addr, parse_addr-kernel_addr, item_of_columns_sound,
}
use go_netflow.Netstat.Lines.{IsEstablished, conn_addr, item_of_columns_complete}

-- 172.16.0.46, port 59544, and 10.0.0.1, port 443
abbrev pub local : Endpoint
local = record { a = 172; b = 16; c = 0; d = 46; port = 59544 }

abbrev pub remote : Endpoint
remote = record { a = 10; b = 0; c = 0; d = 1; port = 443 }

abbrev pub established_line : Bytes
established_line =
    codes
      "  12: 2E0010AC:E898 0100000A:01BB 01 00000000:00000000 02:00000A5B 00000000  1000        0 41877 2 x"

abbrev source : List Bytes
source =
    codes "12:"
    ∷ codes "2E0010AC:E898"
    ∷ codes "0100000A:01BB"
    ∷ codes "01"
    ∷ codes "00000000:00000000"
    ∷ codes "02:00000A5B"
    ∷ codes "00000000"
    ∷ codes "1000"
    ∷ codes "0"
    ∷ codes "41877"
    ∷ codes "2"
    ∷ codes "x"
    ∷ []

columns_of_line : remove_empty (split (trim_space established_line) b' ') ≡ source
unfolding remove_empty split trim_space
columns_of_line = refl

pub established : IsEstablished source local remote (codes "41877")
unfolding split parse_int parse_uint scan digit format_int bytes_eq
established = record {
  local = omega arith;
  remote = omega arith;
  bound = refl;
  queues = codes "00000000:00000000";
  tx = codes "00000000";
  rx = codes "00000000";
  user = codes "1000";
  src_column = refl;
  dest_column = refl;
  state_column = refl;
  queues_column = refl;
  user_column = refl;
  inode_column = refl;
  two = refl;
  tx_number = refl;
  rx_number = refl;
  user_number = refl;
}

parse_addr-kernel_addr_example :
    parse_addr (kernel_addr local) ≡ (dotted 172 16 0 46, format_int 59544)
parse_addr-kernel_addr_example = parse_addr-kernel_addr local (omega arith)

parse_addr_text : parse_addr (codes "2E0010AC:E898") ≡ (codes "172.16.0.46", codes "59544")
unfolding parse_addr parse_parts split hex2ip hex2dec parse_int parse_uint scan digit format_int
parse_addr_text = refl

item_of_columns_complete_example :
    (item : ConnectionItem) × (item_of_columns [] established_line source ≡ returns (some item))
    × (item.addr ≡ conn_addr local remote)
    × (item.reverse_addr ≡ conn_addr remote local)
    × (item.inode ≡ codes "41877")
    × (item.state ≡ codes "ESTABLISHED")
item_of_columns_complete_example =
    item_of_columns_complete [] established_line source local remote (codes "41877") established

abbrev item : ConnectionItem
item =
    (item_of_columns_complete [] established_line source local remote (codes "41877") established).0

item_of_columns_sound_example :
    (src dest st : Bytes) × IsColumn source 1 src
    × IsColumn source 2 dest
    × IsColumn source 3 st
    × IsColumn source 9 item.inode
    × ((st ≡ established_symbol) ⊎ (st ≡ listen_symbol))
    × (bytes_eq (parse_addr dest).0 (codes "0.0.0.0") ≡ false)
    × (item.addr
        ≡ join_addr (parse_addr src).0 (parse_addr src).1 (parse_addr dest).0 (parse_addr dest).1)
    × (item.reverse_addr
        ≡ join_addr (parse_addr dest).0 (parse_addr dest).1 (parse_addr src).0 (parse_addr src).1)
item_of_columns_sound_example =
    item_of_columns_sound [] established_line source item
      (item_of_columns_complete [] established_line source local remote (codes "41877")
        established).1
