-- ===== src/Netstat/Address.antt =====
-- Addresses: what `parseAddr` makes of the kernel's print of an IPv4 address and port, and what a
-- line of /proc/net/tcp gives.
use go_netflow.Base.{
  ℕ, ◌/◌, ◌%◌, ◌<◌, ◌≡◌, ap, ◌∙◌, false, ◌⊎◌, inl, inr, some, List, [], ◌∷◌, ◌++◌, arith, ◌==◌,
  get_elem?, Option-cases,
}
use go_netflow.Base.Bytes.{Bytes, codes, bytes_eq, bytes_eq_iff, Lacks, split-two}
use go_netflow.Base.Dict.{Dict}
use go_netflow.Base.Outcome.{returns}
use go_netflow.Base.Strconv.{hex_digit, parse_int, format_int, parse_int-hex2, parse_int-hex4}
use go_netflow.Netstat.{
  ConnectionItem, hex2dec, hex2ip, dotted, colon, parse_parts, parse_addr, join_addr, finish_item,
  item_of_columns, established_symbol, listen_symbol, states,
}

-- Two digits of a byte, and four of a port.
abbrev pub hex2 : ℕ → Bytes
hex2 x = hex_digit (x / 16) ∷ hex_digit (x % 16) ∷ []

abbrev pub hex4 : ℕ → Bytes
hex4 x =
    hex_digit (x / 4096)
    ∷ hex_digit (x / 256 % 16)
    ∷ hex_digit (x / 16 % 16)
    ∷ hex_digit (x % 16)
    ∷ []

-- An IPv4 address and a port, as the kernel keeps them.
pub record Endpoint : Type 0 where
  pub a : ℕ
  pub b : ℕ
  pub c : ℕ
  pub d : ℕ
  pub port : ℕ

pub record IsEndpoint (e : Endpoint) : Type 0 where
  pub a_byte : e.a < 256
  pub b_byte : e.b < 256
  pub c_byte : e.c < 256
  pub d_byte : e.d < 256
  pub port_short : e.port < 65536

-- The kernel's print on a little-endian machine, "%08X:%04X".
abbrev pub kernel_addr : Endpoint → Bytes
kernel_addr e = (hex2 e.d ++ (hex2 e.c ++ (hex2 e.b ++ hex2 e.a))) ++ colon ∷ hex4 e.port

-- A byte in hexadecimal is read as itself.
parse_int-byte : (x : ℕ) → x < 256 → (parse_int 16 64 (hex2 x)).0 ≡ x
parse_int-byte x h =
    ap (λ r. r.0) (parse_int-hex2 (x / 16) (x % 16) (omega arith) (omega arith)) ∙ omega arith

hex2dec-hex4 : (x : ℕ) → x < 65536 → hex2dec (hex4 x) ≡ format_int x
unfolding hex2dec
hex2dec-hex4 x h =
    ap (λ r. format_int r.0)
      (parse_int-hex4 (x / 4096) (x / 256 % 16) (x / 16 % 16) (x % 16) (omega arith) (omega arith)
        (omega arith) (omega arith))
    ∙ ap format_int (omega arith)

hex2ip-kernel :
    (e : Endpoint)
    → IsEndpoint e
    → hex2ip (hex2 e.d ++ (hex2 e.c ++ (hex2 e.b ++ hex2 e.a))) ≡ some (dotted e.a e.b e.c e.d)
unfolding hex2ip
hex2ip-kernel e v = rw (
  parse_int-byte e.a v.a_byte,
  parse_int-byte e.b v.b_byte,
  parse_int-byte e.c v.c_byte,
  parse_int-byte e.d v.d_byte,
)

not_colon : (d : ℕ) → d < 16 → (hex_digit d == colon) ≡ false
not_colon d h = ground arith

hex2-Lacks : (x : ℕ) (s : Bytes) → x < 256 → Lacks colon s → Lacks colon (hex2 x ++ s)
hex2-Lacks x s h l = (not_colon (x / 16) (omega arith), (not_colon (x % 16) (omega arith), l))

kernel_ip-Lacks :
    (e : Endpoint) → IsEndpoint e → Lacks colon (hex2 e.d ++ (hex2 e.c ++ (hex2 e.b ++ hex2 e.a)))
kernel_ip-Lacks e v =
    let la = hex2-Lacks e.a [] v.a_byte tt in
    let lb = hex2-Lacks e.b (hex2 e.a) v.b_byte la in
    let lc = hex2-Lacks e.c (hex2 e.b ++ hex2 e.a) v.c_byte lb in
    hex2-Lacks e.d (hex2 e.c ++ (hex2 e.b ++ hex2 e.a)) v.d_byte lc

hex4-Lacks : (x : ℕ) → x < 65536 → Lacks colon (hex4 x)
hex4-Lacks x h = (
  not_colon (x / 4096) (omega arith),
  (
    not_colon (x / 256 % 16) (omega arith),
    (not_colon (x / 16 % 16) (omega arith), (not_colon (x % 16) (omega arith), tt)),
  ),
)

parse_parts-two :
    (str l0 l1 ip : Bytes) → hex2ip l0 ≡ some ip → parse_parts str (l0 ∷ l1 ∷ []) ≡ (ip, hex2dec l1)
unfolding parse_parts
parse_parts-two str l0 l1 ip e = rw (e, parse_parts)

-- `parseAddr` reads the kernel's print of any IPv4 address and port as the dotted address and the
-- decimal port.
pub parse_addr-kernel_addr :
    (e : Endpoint)
    → IsEndpoint e
    → parse_addr (kernel_addr e) ≡ (dotted e.a e.b e.c e.d, format_int e.port)
unfolding parse_addr
parse_addr-kernel_addr e v =
    let ip = hex2 e.d ++ (hex2 e.c ++ (hex2 e.b ++ hex2 e.a)) in
    ap (parse_parts (kernel_addr e))
      (split-two colon ip (hex4 e.port) (kernel_ip-Lacks e v) (hex4-Lacks e.port v.port_short))
    ∙ parse_parts-two (kernel_addr e) ip (hex4 e.port) (dotted e.a e.b e.c e.d) (hex2ip-kernel e v)
    ∙ ap (λ port. (dotted e.a e.b e.c e.d, port)) (hex2dec-hex4 e.port v.port_short)

-- A column of a line.
abbrev pub IsColumn : List Bytes → ℕ → Bytes → Type 0
IsColumn source i text = get_elem? source i ≡ some text

finish_item_sound :
    (users : Dict Bytes) (line : Bytes) (source : List Bytes) (src dest : Bytes × Bytes)
    (state : Bytes) (item : ConnectionItem)
    → finish_item users line source src dest state ≡ returns (some item)
    → IsColumn source 9 item.inode
      × (item.state ≡ state)
      × (item.addr ≡ join_addr src.0 src.1 dest.0 dest.1)
      × (item.reverse_addr ≡ join_addr dest.0 dest.1 src.0 src.1)
unfolding finish_item
finish_item_sound users line source src dest state item h = ground arith

-- What `getConnectionItem` returns, for the columns of its line: the state column is one of the
-- two that count, the remote address is not 0.0.0.0, the inode is column 9, and the two texts
-- of the addresses are the local and the remote end in the two orders.
pub item_of_columns_sound :
    (users : Dict Bytes) (line : Bytes) (source : List Bytes) (item : ConnectionItem)
    → item_of_columns users line source ≡ returns (some item)
    → (src dest st : Bytes) × IsColumn source 1 src
      × IsColumn source 2 dest
      × IsColumn source 3 st
      × IsColumn source 9 item.inode
      × ((st ≡ established_symbol) ⊎ (st ≡ listen_symbol))
      × (bytes_eq (parse_addr dest).0 (codes "0.0.0.0") ≡ false)
      × (item.addr
          ≡ join_addr (parse_addr src).0 (parse_addr src).1 (parse_addr dest).0 (parse_addr dest).1)
      × (item.reverse_addr
          ≡ join_addr (parse_addr dest).0 (parse_addr dest).1 (parse_addr src).0 (parse_addr src).1)
unfolding item_of_columns
item_of_columns_sound users line source item h = elim (Option-cases (get_elem? source 3)) [
  | inl e ↦ absurd (ground arith)
  | inr (st, e3) ↦ elim (Option-cases (get_elem? source 2)) [
    | inl e ↦ absurd (ground arith)
    | inr (dest, e2) ↦ elim (Option-cases (get_elem? source 1)) [
      | inl e ↦ absurd (ground arith)
      | inr (src, e1) ↦
          let counts : (st ≡ established_symbol) ⊎ (st ≡ listen_symbol) =
            ground (arith, bytes_eq_iff st established_symbol, bytes_eq_iff st listen_symbol) in
          let remote : bytes_eq (parse_addr dest).0 (codes "0.0.0.0") ≡ false = ground arith in
          let done : finish_item users line source (parse_addr src) (parse_addr dest)
                (states (parse_int 16 32 st).0)
              ≡ returns (some item) =
            ground arith in
          let (inode, _, addr, reverse_addr) =
            finish_item_sound users line source (parse_addr src) (parse_addr dest) _ item done in
          (src, dest, st, e1, e2, e3, inode, counts, remote, addr, reverse_addr)
    ]
  ]
]
