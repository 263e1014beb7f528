-- ===== src/Controller/Owners.antt =====
-- From an inode to its process, after a `Rescan`.
use go_netflow.Base.{
  ◌≡◌, refl, ap, ◌∙◌, Bool, true, false, ◌||◌, Option, none, some, List, [], ◌∷◌, arith,
  if◌then◌else◌, get_elem?, Bool-cases, inl, inr, ◌⊎◌,
}
use go_netflow.Base.Bytes.{Bytes, bytes_eq, bytes_eq_iff, bytes_eq_refl}
use go_netflow.Base.Dict.{Dict, lookup, insert, Distinct, lookup-insert, lookup-Fresh}
use go_netflow.Traffic.{Process}
use go_netflow.Controller.{Controller, index_inodes, index_processes, get_process_by_inode, rescan}
use go_netflow.Controller.Refresh.{IsController, cell, merge, cell-rescan}

abbrev pub contains : Bytes → List Bytes → Bool
contains inode [] = false
contains inode (i ∷ inodes) = bytes_eq i inode || contains inode inodes

-- The last process of a scan that holds the inode.
abbrev pub owner : Bytes → Option Bytes → Dict Process → Option Bytes
owner inode last [] = last
owner inode last ((pid, po) ∷ ps) =
    owner inode (if contains inode po.inodes then some pid else last) ps

lookup-index_inodes :
    (inode pid : Bytes) (inodes : List Bytes) (m : Dict Bytes)
    → lookup inode (index_inodes pid inodes m)
      ≡ (if contains inode inodes then some pid else lookup inode m)
unfolding index_inodes
lookup-index_inodes inode pid [] m = refl
lookup-index_inodes inode pid (i ∷ inodes) m =
    ground
      (arith, lookup-index_inodes inode pid inodes (insert i pid m), lookup-insert i inode pid m)

lookup-index_processes :
    (inode : Bytes) (ps : Dict Process) (m : Dict Bytes)
    → lookup inode (index_processes ps m) ≡ owner inode (lookup inode m) ps
unfolding index_processes
lookup-index_processes inode [] m = refl
lookup-index_processes inode ((pid, po) ∷ ps) m =
    lookup-index_processes inode ps (index_inodes pid po.inodes m)
    ∙ ap (λ last. owner inode last ps) (lookup-index_inodes inode pid po.inodes m)

-- A process of the scan that holds the inode.
abbrev pub Holds : Bytes → Dict Process → Bytes → Process → Type 0
Holds inode ps pid po = (lookup pid ps ≡ some po) × (contains inode po.inodes ≡ true)

-- Either the last holder is found, or nobody holds the inode.
owner_cases :
    (inode : Bytes) (last : Option Bytes) (ps : Dict Process)
    → Distinct ps
    → ((pid : Bytes) × (po : Process) × Holds inode ps pid po × (owner inode last ps ≡ some pid))
      ⊎ ((owner inode last ps ≡ last)
          × ((pid : Bytes) (po : Process)
              → lookup pid ps ≡ some po
              → contains inode po.inodes ≡ false))
unfolding lookup
owner_cases inode last [] d = inr (refl, λ pid po h. cc)
owner_cases inode last ((pid, po) ∷ ps) d =
    elim (owner_cases inode (if contains inode po.inodes then some pid else last) ps d.1) [
      | inl (q, qo, (found, holds), e) ↦
          let here : lookup q ((pid, po) ∷ ps) ≡ some qo =
            ground (arith, bytes_eq_iff pid q, lookup-Fresh pid ps d.0) in
          inl (q, qo, (here, holds), e)
      | inr (e, nobody) ↦ elim (Bool-cases (contains inode po.inodes)) [
        | inl held ↦ inl (pid, po, (rw (bytes_eq_refl pid), held), e ∙ rw held)
        | inr free ↦ inr (e ∙ rw free, λ r ro h. ground (arith, nobody r ro, bytes_eq_iff pid r))
      ]
    ]

-- The process that `GetProcessByInode` returns.
abbrev pub process_by_inode : Controller → Bytes → Option Process
process_by_inode pm inode = elim (get_process_by_inode pm inode) [
  | none ↦ none
  | some x ↦ get_elem? pm.heap x
]

pid_of_inode :
    (pm : Controller) (ps : Dict Process) (inode : Bytes)
    → lookup inode (rescan pm (some ps)).inode_pid_map ≡ owner inode none ps
unfolding rescan lookup
pid_of_inode pm ps inode = lookup-index_processes inode ps []

-- The lookup goes through the owner that the scan shows.
process_by_inode-owner :
    (pm : Controller) (ps : Dict Process) (inode : Bytes) (o : Option Bytes)
    → owner inode none ps ≡ o
    → process_by_inode (rescan pm (some ps)) inode
      ≡ (elim o [ none ↦ none | some pid ↦ cell (rescan pm (some ps)) pid ])
unfolding get_process_by_inode
process_by_inode-owner pm ps inode none e = ground (arith, pid_of_inode pm ps inode)
process_by_inode-owner pm ps inode (some pid) e = ground (arith, pid_of_inode pm ps inode)

-- On a controller with a process of its own for every pid, after a `Rescan` that found `ps`, of
-- distinct pids: an inode that one process of `ps` alone holds leads to the process
-- of that pid, never to a nil: the one known before with its inodes replaced, or the new one.
pub process_by_inode-rescan :
    (pm : Controller) (ps : Dict Process) (inode pid : Bytes) (po : Process)
    → IsController pm
    → Distinct ps
    → Holds inode ps pid po
    → ((q : Bytes) (qo : Process) → Holds inode ps q qo → q ≡ pid)
    → process_by_inode (rescan pm (some ps)) inode ≡ merge (cell pm pid) po
process_by_inode-rescan pm ps inode pid po v d holder only = elim (owner_cases inode none ps d) [
  | inl (q, qo, held, e) ↦
      process_by_inode-owner pm ps inode (some pid) (e ∙ ap some (only q qo held))
      ∙ cell-rescan pm ps pid v d
      ∙ rw holder.0
  | inr (e, nobody) ↦ absurd (ground (arith, nobody pid po holder.0))
]
