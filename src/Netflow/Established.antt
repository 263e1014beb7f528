-- ===== src/Netflow/Established.antt =====
-- The two directions of an established IPv4 connection, from its line in the kernel's table.
use go_netflow.Base.{ℕ, ◌+◌, ◌*◌, ◌≡◌, ◌≢◌, inl, inr, some, List, [], ◌∷◌, ◌++◌, All}
use go_netflow.Base.Bytes.{Bytes, split, trim_space}
use go_netflow.Base.Dict.{Dict}
use go_netflow.Base.Int64.{Time}
use go_netflow.Base.Outcome.{returns}
use go_netflow.Controller.{Ptr, get_process_by_inode}
use go_netflow.Netstat.{get_connection_item, remove_empty}
use go_netflow.Netstat.Address.{Endpoint}
use go_netflow.Netstat.Lines.{IsEstablished, conn_addr, item_of_columns_complete}
use go_netflow.Netflow.{
  Netflow, GoPacket, Ip, ip_string, splice_addr, increase_process_traffic, handle_packet,
  determine_side,
}
use go_netflow.Netflow.Sync.{Line, rescan_conns}
use go_netflow.Netflow.Attribution.{Shows, Listed, Agrees, handle_packet-rescan_conns}

-- The columns of a line.
abbrev pub columns : Bytes → List Bytes
columns text = remove_empty (split (trim_space text) b' ')

-- The line of a connection shows both its addresses.
Shows-established :
    (users : Dict Bytes) (line : Line) (e r : Endpoint) (inode : Bytes)
    → IsEstablished (columns line.text) e r inode
    → Shows users (conn_addr e r) inode line × Shows users (conn_addr r e) inode line
unfolding get_connection_item
Shows-established users line e r inode v =
    let (item, parsed, addr, reverse_addr, owner, _) =
      item_of_columns_complete users line.text (columns line.text) e r inode v in
    (
      record { conn = item; parsed = parsed; either = inl addr; owner = owner },
      record { conn = item; parsed = parsed; either = inr reverse_addr; owner = owner },
    )

Listed-middle :
    (users : Dict Bytes) (key inode : Bytes) (before : List Line) (line : Line) (after : List Line)
    → Shows users key inode line
    → Listed users key inode (before ++ line ∷ after)
Listed-middle users key inode [] line after s = inl s
Listed-middle users key inode (b ∷ before) line after s =
    inr (Listed-middle users key inode before line after s)

-- The address of an end.
abbrev pub ip_of : Endpoint → Ip
ip_of e = record { a = e.a; b = e.b; c = e.c; d = e.d }

-- A TCP packet from one end to the other, with the lengths of its headers in words and of its
-- payload.
abbrev pub packet_between : Endpoint → Endpoint → ℕ → ℕ → ℕ → GoPacket
packet_between e r ihl offset payload = record {
  ipv4 = some (record { src_ip = ip_of e; dst_ip = ip_of r; ihl = ihl });
  tcp = some (record {
    src_port = e.port;
    dst_port = r.port;
    data_offset = offset;
    payload_length = payload;
  });
}

-- After a rescan, which did not panic, of a connection table that holds the line of an established
-- connection between IPv4 ends, with the inode, not empty, of a known process, where no line shows
-- one of its two addresses with another inode: a packet in either direction is charged to that
-- process with the length of its headers and its payload, as output if its source is one of the
-- machine's addresses and as input if not.
pub handle_packet-established :
    (users : Dict Bytes) (nf nf' : Netflow) (header : Line) (before : List Line) (line : Line)
    (after : List Line) (e r : Endpoint) (inode : Bytes) (x : Ptr) (ihl offset payload : ℕ)
    (clock : Time)
    → rescan_conns users nf (some (header ∷ (before ++ line ∷ after))) ≡ returns nf'
    → IsEstablished (columns line.text) e r inode
    → All (Agrees users (conn_addr e r) inode) (before ++ line ∷ after)
    → All (Agrees users (conn_addr r e) inode) (before ++ line ∷ after)
    → inode ≢ []
    → get_process_by_inode nf.process_hash inode ≡ some x
    → let len = ihl * 4 + offset * 4 + payload in
      (handle_packet nf' (packet_between e r ihl offset payload) clock
        ≡ increase_process_traffic nf' x len (determine_side nf' (ip_string (ip_of e))) clock)
      × (handle_packet nf' (packet_between r e ihl offset payload) clock
          ≡ increase_process_traffic nf' x len (determine_side nf' (ip_string (ip_of r))) clock)
unfolding splice_addr
handle_packet-established users nf nf' header before line after e r inode x ihl offset payload clock
      done v out_agrees in_agrees ne found =
    let (out, back) = Shows-established users line e r inode v in
    let lines = header ∷ (before ++ line ∷ after) in
    (
      handle_packet-rescan_conns users nf nf' lines _ _ inode x clock done
          (Listed-middle users (conn_addr e r) inode before line after out) out_agrees ne found,
      handle_packet-rescan_conns users nf nf' lines _ _ inode x clock done
          (Listed-middle users (conn_addr r e) inode before line after back) in_agrees ne found,
    )
