-- ===== src/Netflow/Attribution.antt =====
-- A packet is charged to the process that owns its socket: from the lines of the connection table,
-- through the mapping and the controller, to the process that grows.
use go_netflow.Base.{
  ◌≡◌, ◌≢◌, refl, subst, ◌∙◌, true, ◌⊎◌, inl, inr, Option, none, some, List, [], ◌∷◌, arith, All,
  Bool-cases,
}
use go_netflow.Base.Bytes.{Bytes, bytes_eq, bytes_eq_iff}
use go_netflow.Base.Dict.{Dict}
use go_netflow.Base.Int64.{Time}
use go_netflow.Base.Outcome.{Outcome, Outcome-cases, panic, returns}
use go_netflow.Mapping.{Mapping, get, exists}
use go_netflow.Mapping.Laws.{get-add, exists-get}
use go_netflow.Controller.{Ptr, get_process_by_inode}
use go_netflow.Netstat.{ConnectionItem, get_connection_item}
use go_netflow.Netflow.{
  Netflow, IPv4, Tcp, ip_string, splice_addr, get_process_by_addr, increase_process_traffic,
  increase_traffic, handle_layers, handle_packet, determine_side, total_length,
}
use go_netflow.Netflow.Sync.{
  Line, add_missing, note_item, note_line, note_lines, after_header, rescan_conns,
}

-- The mapping leads from an address to an inode.
abbrev pub Leads : Mapping → Bytes → Bytes → Type 0
Leads m key inode = get m key ≡ (inode, true)

-- The line is that of the connection with one of the two addresses `key`, and with the inode.
pub record Shows (users : Dict Bytes) (key inode : Bytes) (line : Line) : Type 0 where
  pub conn : ConnectionItem
  pub parsed : get_connection_item users line.text ≡ returns (some conn)
  pub either : (conn.addr ≡ key) ⊎ (conn.reverse_addr ≡ key)
  pub owner : conn.inode ≡ inode

-- Some line is.
abbrev pub Listed : Dict Bytes → Bytes → Bytes → List Line → Type 0
Listed users key inode [] = ⊥
Listed users key inode (line ∷ lines) = Shows users key inode line ⊎ Listed users key inode lines

-- Every line with the address `key` has the inode.
abbrev pub Agrees : Dict Bytes → Bytes → Bytes → Line → Type 0
Agrees users key inode line =
    (conn : ConnectionItem)
    → get_connection_item users line.text ≡ returns (some conn)
    → (conn.addr ≡ key) ⊎ (conn.reverse_addr ≡ key)
    → conn.inode ≡ inode

add_missing-Leads :
    (m : Mapping) (key inode : Bytes) (clock : Time)
    → Leads (add_missing m key inode clock) key inode
unfolding add_missing
add_missing-Leads m key inode clock = elim (Bool-cases (exists m key inode)) [
  | inl e ↦ rw e (ground (arith, exists-get m key inode, bytes_eq_iff (get m key).0 inode))
  | inr e ↦ rw e (ground (arith, get-add m key key inode clock, bytes_eq_iff key key))
]

add_missing-Leads_other :
    (m : Mapping) (addr value key inode : Bytes) (clock : Time)
    → (addr ≡ key → value ≡ inode)
    → Leads m key inode
    → Leads (add_missing m addr value clock) key inode
unfolding add_missing
add_missing-Leads_other m addr value key inode clock same h =
    elim (Bool-cases (exists m addr value)) [
      | inl e ↦ rw e h
      | inr e ↦ rw e (
          get-add m addr key value clock ∙ elim (Bool-cases (bytes_eq addr key)) [
            | inl q ↦ rw (q, same ((bytes_eq_iff addr key).0 q))
            | inr q ↦ rw q h
          ])
    ]

-- A line with the address makes the mapping lead to its inode.
note_item-Leads :
    (m : Mapping) (conn : ConnectionItem) (key : Bytes) (first later : Time)
    → (conn.addr ≡ key) ⊎ (conn.reverse_addr ≡ key)
    → Leads (note_item m (some conn) first later) key conn.inode
unfolding note_item
note_item-Leads m conn key first later (inl e) =
    add_missing-Leads_other _ conn.reverse_addr conn.inode key conn.inode later (λ _. refl)
      (subst (λ k. Leads (add_missing m conn.addr conn.inode first) k conn.inode) e
        (add_missing-Leads m conn.addr conn.inode first))
note_item-Leads m conn key first later (inr e) =
    subst (λ k. Leads (note_item m (some conn) first later) k conn.inode) e
      (add_missing-Leads _ conn.reverse_addr conn.inode later)

note_item-Leads_other :
    (m : Mapping) (conn : ConnectionItem) (key inode : Bytes) (first later : Time)
    → ((conn.addr ≡ key) ⊎ (conn.reverse_addr ≡ key) → conn.inode ≡ inode)
    → Leads m key inode
    → Leads (note_item m (some conn) first later) key inode
unfolding note_item
note_item-Leads_other m conn key inode first later same h =
    add_missing-Leads_other _ conn.reverse_addr conn.inode key inode later (λ e. same (inr e))
      (add_missing-Leads_other m conn.addr conn.inode key inode first (λ e. same (inl e)) h)

note_line-eq_returns :
    (users : Dict Bytes) (m m' : Mapping) (line : Line) (i : Option ConnectionItem)
    → note_line users m line ≡ returns m'
    → get_connection_item users line.text ≡ returns i
    → note_item m i line.first line.later ≡ m'
unfolding note_line
note_line-eq_returns users m m' line i e p = ground arith

-- One line that agrees keeps what the mapping leads to.
note_line-Leads :
    (users : Dict Bytes) (m m' : Mapping) (key inode : Bytes) (line : Line)
    (o : Outcome (Option ConnectionItem))
    → get_connection_item users line.text ≡ o
    → note_line users m line ≡ returns m'
    → Agrees users key inode line
    → Leads m key inode
    → Leads m' key inode
note_line-Leads users m m' key inode line panic p e agrees h =
    absurd (unfold note_line in ground arith)
note_line-Leads users m m' key inode line (returns none) p e agrees h =
    subst (λ x. Leads x key inode) (note_line-eq_returns users m m' line none e p)
      (unfold note_item in h)
note_line-Leads users m m' key inode line (returns (some conn)) p e agrees h =
    subst (λ x. Leads x key inode) (note_line-eq_returns users m m' line (some conn) e p)
      (note_item-Leads_other m conn key inode line.first line.later (agrees conn p) h)

-- One line that shows the address makes the mapping lead to the inode.
note_line-Shows :
    (users : Dict Bytes) (m m' : Mapping) (key inode : Bytes) (line : Line)
    → note_line users m line ≡ returns m'
    → Shows users key inode line
    → Leads m' key inode
note_line-Shows users m m' key inode line e s =
    subst (λ x. Leads x key inode) (note_line-eq_returns users m m' line (some s.conn) e s.parsed)
      (subst (λ i. Leads (note_item m (some s.conn) line.first line.later) key i) s.owner
        (note_item-Leads m s.conn key line.first line.later s.either))

note_lines-Leads :
    (users : Dict Bytes) (key inode : Bytes) (lines : List Line) (m m' : Mapping)
    → note_lines users m lines ≡ returns m'
    → All (Agrees users key inode) lines
    → Leads m key inode ⊎ Listed users key inode lines
    → Leads m' key inode
unfolding note_lines
note_lines-Leads users key inode [] m m' e a (inl h) =
    subst (λ x. Leads x key inode) (ground arith) h
note_lines-Leads users key inode [] m m' e a (inr h) = absurd h
note_lines-Leads users key inode (line ∷ lines) m m' e a s =
    elim (Outcome-cases (note_line users m line)) [
      | inl p ↦ absurd (ground arith)
      | inr (mid, p) ↦
          let next : Leads mid key inode ⊎ Listed users key inode lines = elim s [
            | inl h ↦ inl (
                note_line-Leads users m mid key inode line (get_connection_item users line.text)
                  refl p a.0 h)
            | inr here ↦ elim here [
              | inl shows ↦ inl (note_line-Shows users m mid key inode line p shows)
              | inr later ↦ inr later
            ]
          ] in
          note_lines-Leads users key inode lines mid m' (ground arith) a.1 next
    ]

-- A rescan of the connections changes nothing but the mapping.
rescan_conns-eq_returns :
    (users : Dict Bytes) (nf nf' : Netflow) (lines : List Line)
    → rescan_conns users nf (some lines) ≡ returns nf'
    → (m : Mapping) × (note_lines users nf.conn_inode_hash (after_header lines) ≡ returns m)
      × (nf' ≡ record nf { conn_inode_hash = m })
unfolding rescan_conns
rescan_conns-eq_returns users nf nf' lines e =
    elim (Outcome-cases (note_lines users nf.conn_inode_hash (after_header lines))) [
      | inl p ↦ absurd (ground arith)
      | inr (m, p) ↦ (m, p, ground arith)
    ]

-- The process of an address whose inode is known.
get_process_by_addr_lem :
    (nf : Netflow) (key inode : Bytes) (x : Ptr)
    → Leads nf.conn_inode_hash key inode
    → inode ≢ []
    → get_process_by_inode nf.process_hash inode ≡ some x
    → get_process_by_addr nf key ≡ some x
unfolding get_process_by_addr
get_process_by_addr_lem nf key [] x h ne found = absurd (ne refl)
get_process_by_addr_lem nf key (c ∷ inode) x h ne found = ground arith

-- After a rescan of the connections that returns, where some line shows the addresses of a packet
-- with the inode of a known process, and no line shows them with another inode, the packet is
-- charged to that process: its total length, as input or output by its source address; nothing
-- else changes.
pub handle_packet-rescan_conns :
    (users : Dict Bytes) (nf nf' : Netflow) (lines : List Line) (ip : IPv4) (tcp : Tcp)
    (inode : Bytes) (x : Ptr) (clock : Time)
    → rescan_conns users nf (some lines) ≡ returns nf'
    → let key = splice_addr ip.src_ip tcp.src_port ip.dst_ip tcp.dst_port in
      Listed users key inode (after_header lines)
      → All (Agrees users key inode) (after_header lines)
      → inode ≢ []
      → get_process_by_inode nf.process_hash inode ≡ some x
      → handle_packet nf' (record { ipv4 = some ip; tcp = some tcp }) clock
        ≡ increase_process_traffic nf' x
            (total_length ip tcp)
            (determine_side nf' (ip_string ip.src_ip))
            clock
unfolding handle_packet handle_layers increase_traffic
handle_packet-rescan_conns users nf nf' lines ip tcp inode x clock e listed agrees ne found =
    let key = splice_addr ip.src_ip tcp.src_port ip.dst_ip tcp.dst_port in
    let (m, noted, same) = rescan_conns-eq_returns users nf nf' lines e in
    let leads =
      note_lines-Leads users key inode (after_header lines) nf.conn_inode_hash m noted agrees
        (inr listed) in
    let known : get_process_by_addr nf' key ≡ some x =
      rw same
        (get_process_by_addr_lem (record nf { conn_inode_hash = m }) key inode x leads ne found) in
    rw (known, increase_traffic)
