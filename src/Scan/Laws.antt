-- ===== src/Scan/Laws.antt =====
-- The result of `GetProcesses`: the processes that match and hold sockets, with their inodes.
use go_netflow.Base.{
  ◌+◌, ◌-◌, ◌%◌, ◌<◌, ◌≡◌, refl, ap₂, ◌∙◌, true, false, ◌&&◌, Option, none, some, List, [], ◌∷◌,
  ◌++◌, if◌then◌else◌, ltb, length, take, arith, Bool-cases, Option-cases, inl, inr,
}
use mathlib.Core.List.{append-nil, append_assoc}
use go_netflow.Base.Bytes.{Bytes, bytes_eq, bytes_eq_iff, bytes_eq_refl, has_prefix}
use go_netflow.Base.Dict.{Dict, lookup, Distinct, lookup-insert, insert-Distinct}
use go_netflow.Base.Int64.{add64, mod64}
use go_netflow.Base.Outcome.{returns}
use go_netflow.Traffic.{Process}
use go_netflow.Controller.Owners.{contains}
use go_netflow.Scan.{
  Proc, label, drop, inode_text, matches, matching, get_matching_pids, found, add_socket, scan_file,
  scan_files, scan_pids, get_processes,
}

-- No target of a link is the label alone.
abbrev pub IsProper : Proc → Type 0
IsProper fs =
    (path name : Bytes)
    → fs.link path ≡ some name
    → has_prefix name label ≡ true
    → ltb (length label) (length name) ≡ true

-- The inodes of the sockets among some paths, in their order.
abbrev pub sockets : Proc → List Bytes → List Bytes
sockets fs [] = []
sockets fs (fpath ∷ files) = elim (fs.link fpath) [
  | none ↦ sockets fs files
  | some name ↦
      if has_prefix name label
      then drop (length label) (take (length name - 1) name) ∷ sockets fs files
      else sockets fs files
]

abbrev pub sockets_of : Proc → Bytes → List Bytes
sockets_of fs pid = elim (fs.files pid) [ none ↦ [] | some files ↦ sockets fs files ]

-- The process with some sockets: none without one.
abbrev pub holding : Proc → Bytes → Bytes → List Bytes → Option Process
holding fs name_filter pid [] = none
holding fs name_filter pid (inode ∷ inodes) = some (record (found fs name_filter pid inode) {
  inodes = inode ∷ inodes;
  inode_count = (1 + length inodes) % mod64;
})

-- The pids are distinct.
abbrev pub Once : List Bytes → Type 0
Once [] = Unit {0}
Once (pid ∷ pids) = (contains pid pids ≡ false) × Once pids

add_sockets : Proc → Bytes → Bytes → List Bytes → Dict Process → Dict Process
add_sockets fs name_filter pid [] ppm = ppm
add_sockets fs name_filter pid (i ∷ inodes) ppm =
    add_sockets fs name_filter pid inodes (add_socket fs name_filter pid i ppm)

add_pids : Proc → Bytes → List Bytes → Dict Process → Dict Process
add_pids fs name_filter [] ppm = ppm
add_pids fs name_filter (pid ∷ pids) ppm =
    add_pids fs name_filter pids (add_sockets fs name_filter pid (sockets_of fs pid) ppm)

module _ (fs : Proc) (name_filter : Bytes) where
  scan_files-add_sockets :
      (pid : Bytes) (files : List Bytes) (ppm : Dict Process)
      → IsProper fs
      → scan_files fs name_filter pid files ppm
        ≡ returns (add_sockets fs name_filter pid (sockets fs files) ppm)
  unfolding scan_files scan_file inode_text add_sockets
  scan_files-add_sockets pid [] ppm proper = refl
  scan_files-add_sockets pid (fpath ∷ files) ppm proper = elim (Option-cases (fs.link fpath)) [
    | inl e ↦ rw (scan_files, scan_file, sockets, e) (scan_files-add_sockets pid files ppm proper)
    | inr (name, e) ↦ elim (Bool-cases (has_prefix name label)) [
      | inl h ↦
          rw (scan_files, scan_file, sockets, inode_text, e, h, proper fpath name e h)
            (scan_files-add_sockets pid files _ proper)
      | inr n ↦
          rw (scan_files, scan_file, sockets, e, n) (scan_files-add_sockets pid files ppm proper)
    ]
  ]

  scan_pids-add_pids :
      (pids : List Bytes) (ppm : Dict Process)
      → IsProper fs
      → scan_pids fs name_filter pids ppm ≡ returns (add_pids fs name_filter pids ppm)
  unfolding scan_pids add_pids add_sockets
  scan_pids-add_pids [] ppm proper = refl
  scan_pids-add_pids (pid ∷ pids) ppm proper = elim (Option-cases (fs.files pid)) [
    | inl e ↦ rw (scan_pids, add_pids, sockets_of, e) (scan_pids-add_pids pids ppm proper)
    | inr (files, e) ↦
        rw (scan_pids, add_pids, sockets_of, e, scan_files-add_sockets pid files ppm proper)
          (scan_pids-add_pids pids _ proper)
  ]

  -- What `add_socket` makes of the entry of its pid.
  grown : Bytes → Bytes → Option Process → Option Process
  grown pid inode none = some (found fs name_filter pid inode)
  grown pid inode (some po) =
      some (record po { inodes = po.inodes ++ inode ∷ []; inode_count = add64 po.inode_count 1 })

  all_grown : Bytes → List Bytes → Option Process → Option Process
  all_grown pid [] o = o
  all_grown pid (i ∷ inodes) o = all_grown pid inodes (grown pid i o)

  lookup-add_socket :
      (pid j inode : Bytes) (ppm : Dict Process)
      → lookup j (add_socket fs name_filter pid inode ppm)
        ≡ (if bytes_eq pid j then grown pid inode (lookup pid ppm) else lookup j ppm)
  unfolding add_socket grown
  lookup-add_socket pid j inode ppm = elim (Option-cases (lookup pid ppm)) [
    | inl e ↦ rw (add_socket, e) (lookup-insert pid j _ ppm)
    | inr (po, e) ↦ rw (add_socket, e) (lookup-insert pid j _ ppm)
  ]

  lookup-add_sockets :
      (pid j : Bytes) (inodes : List Bytes) (ppm : Dict Process)
      → lookup j (add_sockets fs name_filter pid inodes ppm)
        ≡ (if bytes_eq pid j then all_grown pid inodes (lookup pid ppm) else lookup j ppm)
  unfolding add_sockets all_grown
  lookup-add_sockets pid j [] ppm = ground (arith, bytes_eq_iff pid j)
  lookup-add_sockets pid j (i ∷ inodes) ppm = ground (
    arith,
    bytes_eq_refl pid,
    lookup-add_sockets pid j inodes (add_socket fs name_filter pid i ppm),
    lookup-add_socket pid pid i ppm,
    lookup-add_socket pid j i ppm,
  )

  all_grown-some :
      (pid : Bytes) (inodes : List Bytes) (po : Process)
      → po.inode_count < mod64
      → all_grown pid inodes (some po)
        ≡ some (record po {
          inodes = po.inodes ++ inodes;
          inode_count = (po.inode_count + length inodes) % mod64;
        })
  unfolding all_grown grown
  all_grown-some pid [] po h =
      ap₂ (λ i c. some (record po { inodes = i; inode_count = c })) (rw append-nil refl)
        (omega arith)
  all_grown-some pid (i ∷ inodes) po h =
      all_grown-some pid inodes _ (omega arith)
      ∙ ap₂ (λ is c. some (record po { inodes = is; inode_count = c })) (rw append_assoc refl)
          (omega arith)

  all_grown-holding :
      (pid : Bytes) (inodes : List Bytes)
      → all_grown pid inodes none ≡ holding fs name_filter pid inodes
  unfolding all_grown grown found
  all_grown-holding pid [] = refl
  all_grown-holding pid (i ∷ inodes) =
      all_grown-some pid inodes (found fs name_filter pid i) (omega arith)

  lookup-add_pids :
      (pids : List Bytes) (j : Bytes) (ppm : Dict Process)
      → Once pids
      → lookup j (add_pids fs name_filter pids ppm)
        ≡ (if contains j pids then all_grown j (sockets_of fs j) (lookup j ppm) else lookup j ppm)
  unfolding add_pids
  lookup-add_pids [] j ppm once = refl
  lookup-add_pids (pid ∷ pids) j ppm once = ground (
    arith,
    bytes_eq_iff pid j,
    lookup-add_pids pids j (add_sockets fs name_filter pid (sockets_of fs pid) ppm) once.1,
    lookup-add_sockets pid j (sockets_of fs pid) ppm,
    once.0,
  )

  contains-matching :
      (j : Bytes) (pids : List Bytes)
      → contains j (matching fs name_filter pids) ≡ (contains j pids && matches fs name_filter j)
  unfolding matching
  contains-matching j [] = refl
  contains-matching j (pid ∷ pids) = ground (arith, bytes_eq_iff pid j, contains-matching j pids)

  matching-Once : (pids : List Bytes) → Once pids → Once (matching fs name_filter pids)
  unfolding matching
  matching-Once [] once = tt
  matching-Once (pid ∷ pids) once =
      ground (arith, contains-matching pid pids, matching-Once pids once.1, once.0)

  add_socket-Distinct :
      (pid inode : Bytes) (ppm : Dict Process)
      → Distinct ppm
      → Distinct (add_socket fs name_filter pid inode ppm)
  unfolding add_socket
  add_socket-Distinct pid inode ppm d = elim (Option-cases (lookup pid ppm)) [
    | inl e ↦ rw (add_socket, e) (insert-Distinct pid _ ppm d)
    | inr (po, e) ↦ rw (add_socket, e) (insert-Distinct pid _ ppm d)
  ]

  add_sockets-Distinct :
      (pid : Bytes) (inodes : List Bytes) (ppm : Dict Process)
      → Distinct ppm
      → Distinct (add_sockets fs name_filter pid inodes ppm)
  unfolding add_sockets
  add_sockets-Distinct pid [] ppm d = d
  add_sockets-Distinct pid (i ∷ inodes) ppm d =
      add_sockets-Distinct pid inodes _ (add_socket-Distinct pid i ppm d)

  add_pids-Distinct :
      (pids : List Bytes) (ppm : Dict Process)
      → Distinct ppm
      → Distinct (add_pids fs name_filter pids ppm)
  unfolding add_pids
  add_pids-Distinct [] ppm d = d
  add_pids-Distinct (pid ∷ pids) ppm d =
      add_pids-Distinct pids _ (add_sockets-Distinct pid (sockets_of fs pid) ppm d)

  -- For a machine whose pids are distinct and whose links are proper, `GetProcesses` does not panic
  -- or fail. Its processes are those that match the filter and have a socket among their files;
  -- each has the filter for its name, the inodes of its sockets in the order of its files, and
  -- their number (modulo 2 ^ 64) as its inode count. No pid comes twice.
  pub get_processes_lem :
      (pids : List Bytes)
      → IsProper fs
      → fs.pids ≡ some pids
      → Once pids
      → (ppm : Dict Process) × (get_processes fs name_filter ≡ returns (some ppm))
        × Distinct ppm
        × ((j : Bytes)
            → lookup j ppm ≡ (
                if contains j pids && matches fs name_filter j
                then holding fs name_filter j (sockets_of fs j)
                else none))
  unfolding get_processes get_matching_pids lookup
  get_processes_lem pids proper e once =
      let all = matching fs name_filter pids in
      (
        add_pids fs name_filter all [],
        simp (get_processes, get_matching_pids, e, scan_pids-add_pids all [] proper),
        add_pids-Distinct all [] tt,
        λ j.
            lookup-add_pids all j [] (matching-Once pids once)
            ∙ rw (contains-matching j pids, all_grown-holding j (sockets_of fs j)) refl,
      )
