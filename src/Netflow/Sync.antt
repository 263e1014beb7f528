-- ===== src/Netflow/Sync.antt =====
-- netflow.go: `rescanConns`, `rescanResouce`, and what `startResourceSyncer` does at a tick: a
-- rescan, and then the packets that waited for one.
use go_netflow.Base.{
  ℕ, zero, suc, ◌*◌, Bool, not, ◌&&◌, Option, none, some, List, [], ◌∷◌, if◌then◌else◌, ltb,
}
use go_netflow.Base.Bytes.{Bytes}
use go_netflow.Base.Dict.{Dict}
use go_netflow.Base.Int64.{Time, second}
use go_netflow.Base.Outcome.{Outcome, returns, ◌>>=◌}
use go_netflow.Traffic.{Process}
use go_netflow.Mapping.{Mapping, exists, add, cleanup}
use go_netflow.Controller
use go_netflow.Netstat.{ConnectionItem, get_connection_item}
use go_netflow.Netflow.{Netflow, DelayEntry, get_process_by_addr, increase_process_traffic}

-- A line of the connection table, and the times at which its two addresses are added.
pub record Line : Type 0 where
  pub text : Bytes
  pub first : Time
  pub later : Time

-- `if !Exists(addr, inode) { Add(addr, inode) }`
unfoldable pub add_missing : Mapping → Bytes → Bytes → Time → Mapping
add_missing m addr inode clock = if not (exists m addr inode) then add m addr inode clock else m

-- The callback of `rescanConns`, for the item of its line.
unfoldable pub note_item : Mapping → Option ConnectionItem → Time → Time → Mapping
note_item m none first later = m
note_item m (some conn) first later =
    add_missing (add_missing m conn.addr conn.inode first) conn.reverse_addr conn.inode later

-- The callback of `rescanConns`
unfoldable pub note_line : Dict Bytes → Mapping → Line → Outcome Mapping
note_line users m line = do
  conn ← get_connection_item users line.text
  returns (note_item m conn line.first line.later)

unfoldable pub note_lines : Dict Bytes → Mapping → List Line → Outcome Mapping
note_lines users m [] = returns m
note_lines users m (line ∷ lines) = do m' ← note_line users m line; note_lines users m' lines

-- All but the header, as `parseNetworkLines` hands them over.
abbrev pub after_header : List Line → List Line
after_header [] = []
after_header (header ∷ lines) = lines

-- `rescanConns`: `none` is a file that does not open. (A read error ends the loop early, and what
-- was read is kept: it is the rescan of a shorter file.)
unfoldable pub rescan_conns : Dict Bytes → Netflow → Option (List Line) → Outcome Netflow
rescan_conns users nf none = returns nf
rescan_conns users nf (some lines) = do
  m ← note_lines users nf.conn_inode_hash (after_header lines)
  returns (record nf { conn_inode_hash = m })

-- `rescanProcessInodes`
unfoldable pub rescan_process_inodes : Netflow → Option (Dict Process) → Netflow
rescan_process_inodes nf found = record nf {
  process_hash = Controller.rescan nf.process_hash found;
}

-- `rescanResouce`: its two goroutines write different maps; here the connections come first.
unfoldable pub rescan_resouce :
    Dict Bytes → Netflow → Option (List Line) → Option (Dict Process) → Outcome Netflow
rescan_resouce users nf lines found = do
  nf' ← rescan_conns users nf lines
  returns (rescan_process_inodes nf' found)

-- The cleaner that `New` starts: every two minutes, what is older than two minutes.
unfoldable pub clean_up : Netflow → Time → Netflow
clean_up nf clock = record nf {
  conn_inode_hash = cleanup nf.conn_inode_hash (2 * (60 * second)) clock;
}

-- `consumeDelayQueue`: `take_done` is whether its `select` takes the cancelled context where both
-- cases are ready.
unfoldable pub consume_delay_queue : Bool → Netflow → Option DelayEntry × Netflow
consume_delay_queue take_done nf = elim nf.delay_queue.items [
  | [] ↦ (none, nf)
  | den ∷ rest ↦
      if nf.ctx_done && take_done
      then (none, nf)
      else (some den, record nf { delay_queue = record nf.delay_queue { items = rest } })
]

-- `handleDelayEntry`: an entry whose address is still unknown is dropped.
unfoldable pub handle_delay_entry : Netflow → DelayEntry → Time → Netflow
handle_delay_entry nf entry clock = elim (get_process_by_addr nf entry.addr) [
  | none ↦ nf
  | some proc ↦ increase_process_traffic nf proc entry.length entry.side clock
]

-- The first `if` of the inner loop of `startResourceSyncer`: the entry that the loop holds, or one
-- from the queue.
unfoldable pub next_entry : Bool → Option DelayEntry → Netflow → Option DelayEntry × Netflow
next_entry take_done none nf = consume_delay_queue take_done nf
next_entry take_done (some e) nf = (some e, nf)

-- The inner loop of `startResourceSyncer`, which returns the entry that it holds. `clock` gives the
-- time of each round, and `none` means that the fuel ran out.
unfoldable pub drain :
    ℕ
    → (ℕ → Time)
    → Bool
    → Time
    → Option DelayEntry
    → Netflow
    → Option (Option DelayEntry × Netflow)
drain zero clock take_done last_time entry nf = none
drain (suc fuel) clock take_done last_time entry nf =
    let (found, nf') = next_entry take_done entry nf in
    elim found [
      | none ↦ some (none, nf')
      | some e ↦
          let rest =
            drain fuel clock take_done last_time none (handle_delay_entry nf' e (clock fuel)) in
          if ltb last_time e.timestamp then some (some e, nf') else rest
    ]
