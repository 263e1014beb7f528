-- ===== src/Netflow/Totality.antt =====
-- When the rescan of the connection table does not panic.
use go_netflow.Base.{◌≤◌, ◌≡◌, refl, some, List, [], ◌∷◌, All, length, inl, inr}
use go_netflow.Base.Bytes.{Bytes, split}
use go_netflow.Base.Dict.{Dict}
use go_netflow.Base.Outcome.{Outcome-cases, returns}
use go_netflow.Mapping.{Mapping}
use go_netflow.Netstat.{colon, get_connection_item}
use go_netflow.Netstat.Address.{IsColumn}
use go_netflow.Netstat.Lines.{item_of_columns_total}
use go_netflow.Netflow.{Netflow}
use go_netflow.Netflow.Sync.{Line, note_item, note_line, note_lines, after_header, rescan_conns}
use go_netflow.Netflow.Established.{columns}

-- The line has ten columns, and two queue sizes in the fifth.
pub record IsWhole (line : Line) : Type 0 where
  pub queues : Bytes
  pub tx : Bytes
  pub rx : Bytes
  pub wide : 10 ≤ length (columns line.text)
  pub fifth : IsColumn (columns line.text) 4 queues
  pub two : split queues colon ≡ tx ∷ rx ∷ []

note_line_total :
    (users : Dict Bytes) (m : Mapping) (line : Line)
    → IsWhole line
    → (m' : Mapping) × (note_line users m line ≡ returns m')
unfolding note_line get_connection_item
note_line_total users m line v = elim (Outcome-cases (get_connection_item users line.text)) [
  | inl e ↦ absurd (
      item_of_columns_total users line.text (columns line.text) v.queues v.tx v.rx v.wide v.fifth
        v.two e)
  | inr (conn, e) ↦ (note_item m conn line.first line.later, rw e refl)
]

note_lines_total :
    (users : Dict Bytes) (m : Mapping) (lines : List Line)
    → All IsWhole lines
    → (m' : Mapping) × (note_lines users m lines ≡ returns m')
unfolding note_lines
note_lines_total users m [] a = (m, refl)
note_lines_total users m (line ∷ lines) a =
    let (m', e) = note_line_total users m line a.0 in
    let (m'', e') = note_lines_total users m' lines a.1 in (m'', rw e e')

-- A rescan of a connection table, each of whose lines behind the header has ten columns and two
-- queue sizes in the fifth, does not panic.
pub rescan_conns_total :
    (users : Dict Bytes) (nf : Netflow) (lines : List Line)
    → All IsWhole (after_header lines)
    → (nf' : Netflow) × (rescan_conns users nf (some lines) ≡ returns nf')
unfolding rescan_conns
rescan_conns_total users nf lines a =
    let (m, e) = note_lines_total users nf.conn_inode_hash (after_header lines) a in
    (record nf { conn_inode_hash = m }, rw e refl)
