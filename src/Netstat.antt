-- ===== src/Netstat.antt =====
-- netstat.go: the lines of /proc/net/tcp as connections, with the state names of types.go and
-- `getUserByUID` of user.go. The fields of `ConnectionItem` that nothing sets (`Timer`,
-- `TimerDuration`, `Rto`, `Timeout`) are left out. A panic, an index out of range, is an outcome.
pub mod Address
pub mod Lines
mod States
pub mod Tests
use go_netflow.Base.{
  ℕ, ◌+◌, ◌≡◌, Bool, true, false, not, ◌&&◌, Option, none, some, List, [], ◌∷◌, ◌++◌, if◌then◌else◌,
  ◌==◌, length,
}
use go_netflow.Base.Bytes.{Bytes, codes, bytes_eq, split, trim_space}
use go_netflow.Base.Dict.{Dict, lookup}
use go_netflow.Base.Int64.{Int64}
use go_netflow.Base.Outcome.{Outcome, panic, returns, ◌>>=◌, index}
use go_netflow.Base.Strconv.{parse_int, format_int}

abbrev pub established_symbol : Bytes
established_symbol = codes "01"

abbrev pub listen_symbol : Bytes
listen_symbol = codes "0A"

-- `ConnectionItem`
pub record ConnectionItem : Type 0 where
  pub addr : Bytes
  pub reverse_addr : Bytes
  pub src_ip : Bytes
  pub src_port : Bytes
  pub dest_ip : Bytes
  pub dest_port : Bytes
  pub state : Bytes
  pub tx_queue : Int64
  pub rx_queue : Int64
  pub uid : Int64
  pub uname : Bytes
  pub inode : Bytes
  pub raw : Bytes

-- `states` of types.go; a missing number gives the empty text.
unfoldable pub states : ℕ → Bytes
states n =
    if n == 1
    then codes "ESTABLISHED"
    else if n == 2
    then codes "SYN_SENT"
    else if n == 3
    then codes "SYN_RECV"
    else if n == 4
    then codes "FIN_WAIT1"
    else if n == 5
    then codes "FIN_WAIT2"
    else if n == 6
    then codes "TIME_WAIT"
    else if n == 7
    then codes "CLOSE"
    else if n == 8
    then codes "CLOSE_WAIT"
    else if n == 9
    then codes "LAST_ACK"
    else if n == 10
    then codes "LISTEN"
    else if n == 11
    then codes "CLOSING"
    else []

-- The choice of the file in `parseNetworkLines`.
unfoldable pub proc_file : Bytes → Bytes
proc_file tp =
    if bytes_eq tp (codes "udp")
    then codes "/proc/net/udp"
    else if bytes_eq tp (codes "tcp6")
    then codes "/proc/net/tcp6"
    else if bytes_eq tp (codes "udp6")
    then codes "/proc/net/udp6"
    else codes "/proc/net/tcp"

-- The lines that `parseNetworkLines` hands to its callback: all but the header.
unfoldable pub network_lines : List Bytes → List Bytes
network_lines [] = []
network_lines (header ∷ lines) = lines

-- `hex2dec`; the value of a failed parse is printed as well.
unfoldable pub hex2dec : Bytes → Bytes
hex2dec hexstr = format_int (parse_int 16 64 hexstr).0

abbrev pub colon : ℕ
colon = b':'

abbrev pub dot : ℕ
dot = b'.'

-- `fmt.Sprintf("%d.%d.%d.%d", i1, i2, i3, i4)`
abbrev pub dotted : Int64 → Int64 → Int64 → Int64 → Bytes
dotted i1 i2 i3 i4 =
    format_int i1 ++ dot ∷ (format_int i2 ++ dot ∷ (format_int i3 ++ dot ∷ format_int i4))

-- `hex2ip`: `none` is the error, a text of other than 8 bytes.
unfoldable pub hex2ip : Bytes → Option Bytes
hex2ip (a ∷ b ∷ c ∷ d ∷ e ∷ f ∷ g ∷ h ∷ []) =
    let i1 = (parse_int 16 64 (g ∷ h ∷ [])).0 in
    let i2 = (parse_int 16 64 (e ∷ f ∷ [])).0 in
    let i3 = (parse_int 16 64 (c ∷ d ∷ [])).0 in
    let i4 = (parse_int 16 64 (a ∷ b ∷ [])).0 in some (dotted i1 i2 i3 i4)
hex2ip _ = none

-- The end of `parseAddr`, for the two parts of its text.
unfoldable pub parse_parts : Bytes → List Bytes → Bytes × Bytes
parse_parts str (l0 ∷ l1 ∷ []) = elim (hex2ip l0) [ none ↦ (str, []) | some ip ↦ (ip, hex2dec l1) ]
parse_parts str _ = (str, [])

-- `parseAddr`
unfoldable pub parse_addr : Bytes → Bytes × Bytes
parse_addr str = parse_parts str (split str colon)

-- `removeEmpty`
unfoldable pub remove_empty : List Bytes → List Bytes
remove_empty [] = []
remove_empty ([] ∷ array) = remove_empty array
remove_empty ((c ∷ i) ∷ array) = (c ∷ i) ∷ remove_empty array

-- `ip + ":" + port + "_" + destIP + ":" + destPort`
abbrev pub join_addr : Bytes → Bytes → Bytes → Bytes → Bytes
join_addr ip port dest_ip dest_port = ip ++ colon ∷ (port ++ b'_' ∷ (dest_ip ++ colon ∷ dest_port))

-- `getUserByUID` of user.go, over the users that were loaded
unfoldable pub get_user_by_uid : Dict Bytes → Bytes → Bytes
get_user_by_uid users uid = elim (lookup uid users) [ none ↦ [] | some name ↦ name ]

-- The end of `getConnectionItem`, from the queue sizes on. `returns none` is nil.
unfoldable pub finish_item :
    Dict Bytes
    → Bytes
    → List Bytes
    → Bytes × Bytes
    → Bytes × Bytes
    → Bytes
    → Outcome (Option ConnectionItem)
finish_item users line source (ip, port) (dest_ip, dest_port) state = do
  queues ← index source 4
  let tcp_queue = split queues colon
  tx ← index tcp_queue 0
  let txq = parse_int 16 32 tx
  if not txq.1 then returns none else do
    rx ← index tcp_queue 1
    let rxq = parse_int 16 32 rx
    if not rxq.1 then returns none else do
      user ← index source 7
      let uid = parse_int 10 64 user
      if not uid.1 then returns none else do
        inode ← index source 9
        returns (
            some (record {
              addr = join_addr ip port dest_ip dest_port;
              reverse_addr = join_addr dest_ip dest_port ip port;
              src_ip = ip;
              src_port = port;
              dest_ip = dest_ip;
              dest_port = dest_port;
              state = state;
              tx_queue = txq.0;
              rx_queue = rxq.0;
              uid = uid.0;
              uname = get_user_by_uid users user;
              inode = inode;
              raw = line;
            }))

-- `getConnectionItem` on the columns of its line
unfoldable pub item_of_columns : Dict Bytes → Bytes → List Bytes → Outcome (Option ConnectionItem)
item_of_columns users line source = do
  st ← index source 3
  if not (bytes_eq st established_symbol) && not (bytes_eq st listen_symbol)
      then returns none
      else do
        dest ← index source 2
        let (dest_ip, dest_port) = parse_addr dest
        if bytes_eq dest_ip (codes "0.0.0.0") then returns none else do
          src ← index source 1
          finish_item users line source (parse_addr src) (dest_ip, dest_port)
              (states (parse_int 16 32 st).0)

-- `getConnectionItem`
unfoldable pub get_connection_item : Dict Bytes → Bytes → Outcome (Option ConnectionItem)
get_connection_item users line =
    item_of_columns users line (remove_empty (split (trim_space line) b' '))
