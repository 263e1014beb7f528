-- ===== src/Netflow/Rescan.antt =====
-- What a rescan and a ranking change: each writes its own map, and leaves the rest of the state.
use go_netflow.Base.{
  ◌≡◌, ◌⊎◌, inl, inr, Option, none, some, List, [], ◌∷◌, arith, Bool, subst, Bool-cases,
  Option-cases,
}
use go_netflow.Base.Bytes.{Bytes}
use go_netflow.Base.Dict.{Dict}
use go_netflow.Base.Int64.{Int64, Time, ltb64}
use go_netflow.Base.Outcome.{Outcome-cases, returns}
use go_netflow.Traffic.{Process, max_ring_size}
use go_netflow.Mapping.{Mapping, exists}
use go_netflow.Mapping.Laws.{IsMapping, writes-IsMapping}
use go_netflow.Controller.{Ptr, rescan, sort, get_rank}
use go_netflow.Netstat.{ConnectionItem, get_connection_item}
use go_netflow.Netflow.{Netflow}
use go_netflow.Netflow.Sync.{
  Line, add_missing, note_item, note_line, note_lines, after_header, rescan_conns,
  rescan_process_inodes, rescan_resouce,
}
use go_netflow.Netflow.Rank.{Ranking, get_process_rank}

add_missing-IsMapping :
    (m : Mapping) (addr inode : Bytes) (clock : Time)
    → IsMapping m
    → IsMapping (add_missing m addr inode clock)
unfolding add_missing
add_missing-IsMapping m addr inode clock v = elim (Bool-cases (exists m addr inode)) [
  | inl e ↦ rw e v
  | inr e ↦ rw e (writes-IsMapping m addr inode 0 clock v).0
]

note_item-IsMapping :
    (m : Mapping) (item : Option ConnectionItem) (first later : Time)
    → IsMapping m
    → IsMapping (note_item m item first later)
unfolding note_item
note_item-IsMapping m none first later v = v
note_item-IsMapping m (some conn) first later v =
    add_missing-IsMapping _ conn.reverse_addr conn.inode later
      (add_missing-IsMapping m conn.addr conn.inode first v)

note_lines-IsMapping :
    (users : Dict Bytes) (lines : List Line) (m m' : Mapping)
    → note_lines users m lines ≡ returns m'
    → IsMapping m
    → IsMapping m'
unfolding note_lines note_line
note_lines-IsMapping users [] m m' e v = subst (λ x. IsMapping x) (ground (arith, e)) v
note_lines-IsMapping users (line ∷ lines) m m' e v =
    elim (Outcome-cases (get_connection_item users line.text)) [
      | inl p ↦ absurd (ground (arith, p, e))
      | inr (item, p) ↦
          note_lines-IsMapping users lines (note_item m item line.first line.later) m'
            (ground (arith, p, e)) (note_item-IsMapping m item line.first line.later v)
    ]

-- A rescan that returns has written the mapping, whose keys stay distinct, and the controller.
pub rescan_resouce-eq_returns :
    (users : Dict Bytes) (nf nf' : Netflow) (lines : Option (List Line))
    (found : Option (Dict Process))
    → rescan_resouce users nf lines found ≡ returns nf'
    → (m : Mapping) × (nf'
        ≡ record nf { conn_inode_hash = m; process_hash = rescan nf.process_hash found })
      × (IsMapping nf.conn_inode_hash → IsMapping m)
unfolding rescan_resouce rescan_conns rescan_process_inodes
rescan_resouce-eq_returns users nf nf' none found e =
    (nf.conn_inode_hash, ground (arith, e), λ v. v)
rescan_resouce-eq_returns users nf nf' (some lines) found e =
    elim (Outcome-cases (note_lines users nf.conn_inode_hash (after_header lines))) [
      | inl p ↦ absurd (ground (arith, p, e))
      | inr (m, p) ↦
          (m, ground (arith, p, e), note_lines-IsMapping users (after_header lines) _ m p)
    ]

-- A ranking that does not panic has changed nothing, or has sorted.
pub get_process_rank-eq_some :
    (sort_by : (Ptr → Ptr → Bool) → List Ptr → List Ptr) (nf nf' : Netflow) (limit sec : Int64)
    (clock : Ptr → Time) (r : Ranking)
    → get_process_rank sort_by nf limit sec clock ≡ some (r, nf')
    → (nf' ≡ nf) ⊎ (nf' ≡ record nf { process_hash = sort sort_by nf.process_hash sec clock })
unfolding get_process_rank
get_process_rank-eq_some sort_by nf nf' limit sec clock r e =
    elim (Bool-cases (ltb64 max_ring_size sec)) [
      | inl long ↦ inl (ground (arith, long, e))
      | inr short ↦ elim (Option-cases (get_rank (sort sort_by nf.process_hash sec clock) limit)) [
        | inl p ↦ absurd (ground (arith, short, p, e))
        | inr (ps, p) ↦ inr (ground (arith, short, p, e))
      ]
    ]
