-- ===== src/Scan/Fresh.antt =====
-- The processes that a scan finds start with statistics.
use go_netflow.Base.{
  ◌≡◌, refl, subst, some, List, [], ◌∷◌, All, arith, Bool-cases, Option-cases, inl, inr,
}
use go_netflow.Base.Bytes.{Bytes, bytes_eq, has_prefix}
use go_netflow.Base.Dict.{Dict, lookup, insert}
use go_netflow.Base.Outcome.{Outcome-cases, returns}
use go_netflow.Traffic.{Process, TrafficStatsEntry}
use go_netflow.Scan.{
  Proc, label, inode_text, get_matching_pids, found, add_socket, scan_file, scan_files, scan_pids,
  get_processes,
}

-- A process whose pointer to its statistics is not nil.
abbrev pub HasStats : Process → Type 0
HasStats p = (stats : TrafficStatsEntry) × (p.traffic_stats ≡ some stats)

abbrev pub IsFresh : Dict Process → Type 0
IsFresh = All (λ e. HasStats e.1)

insert-IsFresh :
    (k : Bytes) (v : Process) (m : Dict Process) → HasStats v → IsFresh m → IsFresh (insert k v m)
unfolding insert
insert-IsFresh k v [] h a = (h, tt)
insert-IsFresh k v ((j, w) ∷ m) h a = elim (Bool-cases (bytes_eq j k)) [
  | inl e ↦ rw e (h, a.1)
  | inr e ↦ rw e (a.0, insert-IsFresh k v m h a.1)
]

lookup-IsFresh :
    (k : Bytes) (v : Process) (m : Dict Process) → IsFresh m → lookup k m ≡ some v → HasStats v
unfolding lookup
lookup-IsFresh k v [] a h = absurd (ground (arith, h))
lookup-IsFresh k v ((j, w) ∷ m) a h = elim (Bool-cases (bytes_eq j k)) [
  | inl e ↦ let same : w ≡ v = ground (arith, e, h) in subst (λ p. HasStats p) same a.0
  | inr e ↦ lookup-IsFresh k v m a.1 (ground (arith, e, h))
]

module _ (fs : Proc) (name_filter : Bytes) where
  add_socket-IsFresh :
      (pid inode : Bytes) (ppm : Dict Process)
      → IsFresh ppm
      → IsFresh (add_socket fs name_filter pid inode ppm)
  unfolding add_socket found
  add_socket-IsFresh pid inode ppm a = elim (Option-cases (lookup pid ppm)) [
    | inl e ↦ rw (add_socket, e) (insert-IsFresh pid _ ppm (_, refl) a)
    | inr (po, e) ↦ rw (add_socket, e) (insert-IsFresh pid _ ppm (lookup-IsFresh pid po ppm a e) a)
  ]

  scan_file-IsFresh :
      (pid fpath : Bytes) (ppm ppm' : Dict Process)
      → scan_file fs name_filter pid fpath ppm ≡ returns ppm'
      → IsFresh ppm
      → IsFresh ppm'
  unfolding scan_file
  scan_file-IsFresh pid fpath ppm ppm' e a = elim (Option-cases (fs.link fpath)) [
    | inl n ↦ subst (λ m. IsFresh m) (ground (arith, n, e)) a
    | inr (name, n) ↦ elim (Bool-cases (has_prefix name label)) [
      | inr h ↦ subst (λ m. IsFresh m) (ground (arith, n, h, e)) a
      | inl h ↦ elim (Outcome-cases (inode_text name)) [
        | inl p ↦ absurd (ground (arith, n, h, p, e))
        | inr (inode, p) ↦
            subst (λ m. IsFresh m) (ground (arith, n, h, p, e)) (add_socket-IsFresh pid inode ppm a)
      ]
    ]
  ]

  scan_files-IsFresh :
      (pid : Bytes) (files : List Bytes) (ppm ppm' : Dict Process)
      → scan_files fs name_filter pid files ppm ≡ returns ppm'
      → IsFresh ppm
      → IsFresh ppm'
  unfolding scan_files
  scan_files-IsFresh pid [] ppm ppm' e a = subst (λ m. IsFresh m) (ground (arith, e)) a
  scan_files-IsFresh pid (fpath ∷ files) ppm ppm' e a =
      elim (Outcome-cases (scan_file fs name_filter pid fpath ppm)) [
        | inl p ↦ absurd (ground (arith, p, e))
        | inr (mid, p) ↦
            scan_files-IsFresh pid files mid ppm' (ground (arith, p, e))
              (scan_file-IsFresh pid fpath ppm mid p a)
      ]

  scan_pids-IsFresh :
      (pids : List Bytes) (ppm ppm' : Dict Process)
      → scan_pids fs name_filter pids ppm ≡ returns ppm'
      → IsFresh ppm
      → IsFresh ppm'
  unfolding scan_pids
  scan_pids-IsFresh [] ppm ppm' e a = subst (λ m. IsFresh m) (ground (arith, e)) a
  scan_pids-IsFresh (pid ∷ pids) ppm ppm' e a = elim (Option-cases (fs.files pid)) [
    | inl n ↦ scan_pids-IsFresh pids ppm ppm' (ground (arith, n, e)) a
    | inr (files, n) ↦ elim (Outcome-cases (scan_files fs name_filter pid files ppm)) [
      | inl p ↦ absurd (ground (arith, n, p, e))
      | inr (mid, p) ↦
          scan_pids-IsFresh pids mid ppm' (ground (arith, n, p, e))
            (scan_files-IsFresh pid files ppm mid p a)
    ]
  ]

  -- What `GetProcesses` finds has statistics.
  pub get_processes-IsFresh :
      (ps : Dict Process) → get_processes fs name_filter ≡ returns (some ps) → IsFresh ps
  unfolding get_processes
  get_processes-IsFresh ps e = elim (Option-cases (get_matching_pids fs name_filter)) [
    | inl n ↦ absurd (ground (arith, n, e))
    | inr (pids, n) ↦ elim (Outcome-cases (scan_pids fs name_filter pids [])) [
      | inl p ↦ absurd (ground (arith, n, p, e))
      | inr (ppm, p) ↦
          subst (λ m. IsFresh m) (ground (arith, n, p, e)) (scan_pids-IsFresh pids [] ppm p tt)
    ]
  ]
