-- ===== src/Netstat/Lines.antt =====
-- Which lines of /proc/net/tcp `getConnectionItem` accepts: those that are too short are a panic,
-- the kernel's lines of established IPv4 connections give their item.
use go_netflow.Base.{
  ◌<◌, ◌≤◌, ◌≡◌, ◌≢◌, refl, ap, ap₂, ◌∙◌, true, false, some, List, [], ◌∷◌, arith, length,
  get_elem?, get_elem?_total,
}
use go_netflow.Base.Bytes.{Bytes, codes, bytes_eq, bytes_eq_refl, split}
use go_netflow.Base.Dict.{Dict}
use go_netflow.Base.Outcome.{panic, returns}
use go_netflow.Base.Strconv.{parse_int, format_int, parse_uint, scan, digit}
use go_netflow.Netstat.{
  ConnectionItem, dotted, colon, parse_addr, join_addr, finish_item, item_of_columns,
  established_symbol, states, get_user_by_uid,
}
use go_netflow.Netstat.Address.{Endpoint, IsEndpoint, kernel_addr, parse_addr-kernel_addr, IsColumn}

-- A line of fewer than four columns makes `getConnectionItem` panic.
pub item_of_columns_short :
    (users : Dict Bytes) (line : Bytes) (source : List Bytes)
    → length source < 4
    → item_of_columns users line source ≡ panic
unfolding item_of_columns
item_of_columns_short users line [] h = refl
item_of_columns_short users line (a ∷ []) h = refl
item_of_columns_short users line (a ∷ b ∷ []) h = refl
item_of_columns_short users line (a ∷ b ∷ c ∷ []) h = refl
item_of_columns_short users line (a ∷ b ∷ c ∷ d ∷ source) h = absurd (omega arith)

-- A line of ten columns, with the two queue sizes in the fifth, never panics.
pub item_of_columns_total :
    (users : Dict Bytes) (line : Bytes) (source : List Bytes) (queues tx rx : Bytes)
    → 10 ≤ length source
    → IsColumn source 4 queues
    → split queues colon ≡ tx ∷ rx ∷ []
    → item_of_columns users line source ≢ panic
unfolding item_of_columns finish_item
item_of_columns_total users line source queues tx rx h q two =
    let (c1, e1) = get_elem?_total source 1 (omega arith) in
    let (c2, e2) = get_elem?_total source 2 (omega arith) in
    let (c3, e3) = get_elem?_total source 3 (omega arith) in
    let (c7, e7) = get_elem?_total source 7 (omega arith) in
    let (c9, e9) = get_elem?_total source 9 (omega arith) in
    let first : get_elem? (split queues colon) 0 ≡ some tx = ap (λ l. get_elem? l 0) two in
    let second : get_elem? (split queues colon) 1 ≡ some rx = ap (λ l. get_elem? l 1) two in
    ground arith

-- The text of the connection between two ends, seen from the first.
abbrev pub conn_addr : Endpoint → Endpoint → Bytes
conn_addr e r =
    join_addr (dotted e.a e.b e.c e.d) (format_int e.port) (dotted r.a r.b r.c r.d)
      (format_int r.port)

-- What is known of the columns of an established connection between two ends.
pub record IsEstablished (source : List Bytes) (e r : Endpoint) (inode : Bytes) : Type 0 where
  pub local : IsEndpoint e
  pub remote : IsEndpoint r
  pub bound : bytes_eq (dotted r.a r.b r.c r.d) (codes "0.0.0.0") ≡ false
  pub queues : Bytes
  pub tx : Bytes
  pub rx : Bytes
  pub user : Bytes
  pub src_column : IsColumn source 1 (kernel_addr e)
  pub dest_column : IsColumn source 2 (kernel_addr r)
  pub state_column : IsColumn source 3 established_symbol
  pub queues_column : IsColumn source 4 queues
  pub user_column : IsColumn source 7 user
  pub inode_column : IsColumn source 9 inode
  pub two : split queues colon ≡ tx ∷ rx ∷ []
  pub tx_number : (parse_int 16 32 tx).1 ≡ true
  pub rx_number : (parse_int 16 32 rx).1 ≡ true
  pub user_number : (parse_int 10 64 user).1 ≡ true

-- The item of a line, for its parts.
abbrev pub item_of :
    Dict Bytes
    → Bytes
    → Bytes × Bytes
    → Bytes × Bytes
    → Bytes
    → Bytes
    → Bytes
    → Bytes
    → Bytes
    → ConnectionItem
item_of users line (ip, port) (dest_ip, dest_port) state tx rx user inode = record {
  addr = join_addr ip port dest_ip dest_port;
  reverse_addr = join_addr dest_ip dest_port ip port;
  src_ip = ip;
  src_port = port;
  dest_ip = dest_ip;
  dest_port = dest_port;
  state = state;
  tx_queue = (parse_int 16 32 tx).0;
  rx_queue = (parse_int 16 32 rx).0;
  uid = (parse_int 10 64 user).0;
  uname = get_user_by_uid users user;
  inode = inode;
  raw = line;
}

-- The end of `getConnectionItem`, for queue sizes and a user that are numbers.
finish_item_complete :
    (users : Dict Bytes) (line : Bytes) (source : List Bytes) (e r : Endpoint) (inode : Bytes)
    (src dest : Bytes × Bytes) (state : Bytes) (v : IsEstablished source e r inode)
    → finish_item users line source src dest state
      ≡ returns (some (item_of users line src dest state v.tx v.rx v.user inode))
unfolding finish_item
finish_item_complete users line source e r inode src dest state v =
    let first : get_elem? (split v.queues colon) 0 ≡ some v.tx = ap (λ l. get_elem? l 0) v.two in
    let second : get_elem? (split v.queues colon) 1 ≡ some v.rx = ap (λ l. get_elem? l 1) v.two in
    ground arith

-- An established line reaches the end of `getConnectionItem`.
to_finish :
    (users : Dict Bytes) (line : Bytes) (source : List Bytes) (src dest : Bytes)
    → IsColumn source 1 src
    → IsColumn source 2 dest
    → IsColumn source 3 established_symbol
    → bytes_eq (parse_addr dest).0 (codes "0.0.0.0") ≡ false
    → item_of_columns users line source
      ≡ finish_item users line source
          (parse_addr src)
          (parse_addr dest)
          (states (parse_int 16 32 established_symbol).0)
unfolding item_of_columns
to_finish users line source src dest h1 h2 h3 h = ground (arith, bytes_eq_refl established_symbol)

established_state : states (parse_int 16 32 established_symbol).0 ≡ codes "ESTABLISHED"
unfolding states parse_int parse_uint scan digit
established_state = refl

-- The line of an established connection between two IPv4 ends gives an item with its inode and
-- state, whose address is the decimal text of the local end before the remote end, and whose
-- reverse address is that of the remote end before the local one.
pub item_of_columns_complete :
    (users : Dict Bytes) (line : Bytes) (source : List Bytes) (e r : Endpoint) (inode : Bytes)
    (v : IsEstablished source e r inode)
    → (item : ConnectionItem) × (item_of_columns users line source ≡ returns (some item))
      × (item.addr ≡ conn_addr e r)
      × (item.reverse_addr ≡ conn_addr r e)
      × (item.inode ≡ inode)
      × (item.state ≡ codes "ESTABLISHED")
item_of_columns_complete users line source e r inode v =
    let src : Bytes × Bytes = (dotted e.a e.b e.c e.d, format_int e.port) in
    let dest : Bytes × Bytes = (dotted r.a r.b r.c r.d, format_int r.port) in
    let p = parse_addr-kernel_addr e v.local in
    let q = parse_addr-kernel_addr r v.remote in
    (
      item_of users line src dest (codes "ESTABLISHED") v.tx v.rx v.user inode,
      to_finish users line source (kernel_addr e) (kernel_addr r) v.src_column v.dest_column
            v.state_column (ap (λ a. bytes_eq a.0 (codes "0.0.0.0")) q ∙ v.bound)
          ∙ ap₂
              (λ a b.
                finish_item users line source a b (states (parse_int 16 32 established_symbol).0))
              p q
          ∙ ap (finish_item users line source src dest) established_state
          ∙ finish_item_complete users line source e r inode src dest (codes "ESTABLISHED") v,
      refl,
      refl,
      refl,
      refl,
    )
