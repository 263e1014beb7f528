-- ===== src/Scan/Equivalent.antt =====
-- `GetProcesses1` against `GetProcesses`, on a file system of which the paths lie as in /proc.
use go_netflow.Base.{
  ◌≡◌, refl, sym, ap, ◌∙◌, true, false, none, some, List, [], ◌∷◌, ◌++◌, ◌==◌, length, All, arith,
  Bool-cases, Option-cases, inl, inr,
}
use go_netflow.Base.Bytes.{Bytes, has_prefix}
use go_netflow.Base.Dict.{Dict, lookup}
use go_netflow.Base.Outcome.{returns, ◌>>=◌}
use go_netflow.Traffic.{Process}
use go_netflow.Scan.{
  Proc, label, matches, matching, get_matching_pids, add_socket, scan_files, scan_pids,
  get_processes,
}
use go_netflow.Scan.Laws.{IsProper}
use go_netflow.Scan.Flat.{read_link, scan_paths, get_processes1}
use go_netflow.Scan.Layouts.{
  Lies, files_of, flat, IsLaidOut, inode_of, Fits, scan_file_lem, scan_path_lem, add_named_lem,
  add_named-skips, add_socket-Fits,
}

module _ (fs : Proc) (name_filter : Bytes) (proper : IsProper fs)
    (filtered : (length name_filter == 0) ≡ false) where
  -- The rest of the paths after those of a pid that matches.
  files_lem :
      (pid : Bytes) (files more : List Bytes) (ppm : Dict Process)
      → matches fs name_filter pid ≡ true
      → All (Lies fs pid) files
      → Fits fs name_filter ppm
      → (ppm' : Dict Process) × (scan_files fs name_filter pid files ppm ≡ returns ppm')
        × (scan_paths fs name_filter (files ++ more) ppm ≡ scan_paths fs name_filter more ppm')
        × Fits fs name_filter ppm'
  unfolding scan_files scan_paths
  files_lem pid [] more ppm m laid fits = (ppm, refl, refl, fits)
  files_lem pid (fpath ∷ files) more ppm m (lies, laid) fits =
      elim (Bool-cases (has_prefix (read_link fs fpath) label)) [
        | inl h ↦
            let inode = inode_of (read_link fs fpath) in
            let (ppm', e, e', v) =
              files_lem pid files more (add_socket fs name_filter pid inode ppm) m laid
                (add_socket-Fits fs name_filter proper pid inode ppm m fits) in
            (
              ppm',
              rw (scan_files, scan_file_lem fs name_filter proper pid fpath ppm, h) e,
              rw
                  (
                    scan_paths,
                    scan_path_lem fs name_filter proper pid fpath ppm lies,
                    h,
                    add_named_lem fs name_filter proper pid inode ppm filtered m fits,
                  )
                  e',
              v,
            )
        | inr h ↦
            let (ppm', e, e', v) = files_lem pid files more ppm m laid fits in
            (
              ppm',
              rw (scan_files, scan_file_lem fs name_filter proper pid fpath ppm, h) e,
              rw (scan_paths, scan_path_lem fs name_filter proper pid fpath ppm lies, h) e',
              v,
            )
      ]

  -- The paths of a pid that does not match change nothing.
  files-skips :
      (pid : Bytes) (files more : List Bytes) (ppm : Dict Process)
      → matches fs name_filter pid ≡ false
      → All (Lies fs pid) files
      → Fits fs name_filter ppm
      → scan_paths fs name_filter (files ++ more) ppm ≡ scan_paths fs name_filter more ppm
  unfolding scan_paths
  files-skips pid [] more ppm m laid fits = refl
  files-skips pid (fpath ∷ files) more ppm m (lies, laid) fits =
      let rest = files-skips pid files more ppm m laid fits in
      elim (Bool-cases (has_prefix (read_link fs fpath) label)) [
        | inl h ↦
            rw
              (
                scan_paths,
                scan_path_lem fs name_filter proper pid fpath ppm lies,
                h,
                add_named-skips fs name_filter proper pid (inode_of (read_link fs fpath)) ppm m
                    fits,
              )
              rest
        | inr h ↦ rw (scan_paths, scan_path_lem fs name_filter proper pid fpath ppm lies, h) rest
      ]

  -- A pid of which the directory cannot be read has no paths.
  scan_pids-cons :
      (pid : Bytes) (pids : List Bytes) (ppm : Dict Process)
      → scan_pids fs name_filter (pid ∷ pids) ppm ≡ (
          scan_files fs name_filter pid (files_of fs pid) ppm >>= λ ppm'.
          scan_pids fs name_filter pids ppm')
  unfolding scan_pids scan_files
  scan_pids-cons pid pids ppm = elim (Option-cases (fs.files pid)) [
    | inl e ↦ rw (scan_pids, files_of, e) refl
    | inr (files, e) ↦ rw (scan_pids, files_of, e) refl
  ]

  pids_lem :
      (pids : List Bytes) (ppm : Dict Process)
      → IsLaidOut fs pids
      → Fits fs name_filter ppm
      → scan_paths fs name_filter (flat fs pids) ppm
        ≡ scan_pids fs name_filter (matching fs name_filter pids) ppm
  unfolding scan_pids scan_paths matching
  pids_lem [] ppm laid fits = refl
  pids_lem (pid ∷ pids) ppm (here, laid) fits = elim (Bool-cases (matches fs name_filter pid)) [
    | inl m ↦
        let (ppm', e, e', v) = files_lem pid (files_of fs pid) (flat fs pids) ppm m here fits in
        rw (matching, m, scan_pids-cons pid (matching fs name_filter pids) ppm, e)
          (e' ∙ pids_lem pids ppm' laid v)
    | inr m ↦
        rw (matching, m)
          (files-skips pid (files_of fs pid) (flat fs pids) ppm m here fits
            ∙ pids_lem pids ppm laid fits)
  ]

-- With a filter that is not empty, on a machine where the third part of a path is its pid, no link
-- is the label alone and the standard streams are no sockets, `GetProcesses1` over the paths of all
-- pids gives the same processes as `GetProcesses`.
pub get_processes1_lem :
    (fs : Proc) (name_filter : Bytes) (pids : List Bytes)
    → (length name_filter == 0) ≡ false
    → IsProper fs
    → fs.pids ≡ some pids
    → IsLaidOut fs pids
    → get_processes1 fs (some (flat fs pids)) name_filter ≡ get_processes fs name_filter
unfolding get_processes1 get_processes get_matching_pids lookup
get_processes1_lem fs name_filter pids n proper e laid =
    let matched : get_matching_pids fs name_filter ≡ some (matching fs name_filter pids) =
      ap (λ o. elim o [ none ↦ none | some pids' ↦ some (matching fs name_filter pids') ]) e in
    ap (λ o. o >>= λ ppm. returns (some ppm))
      (pids_lem fs name_filter proper n pids [] laid (λ pid po h. absurd (ground (arith, h))))
    ∙ sym (
        ap
          (λ o. elim o [
            | none ↦ returns none
            | some pids' ↦ scan_pids fs name_filter pids' [] >>= λ ppm. returns (some ppm)
          ])
          matched)
