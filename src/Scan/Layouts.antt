-- ===== src/Scan/Layouts.antt =====
-- A round of `GetProcesses1` beside one of `GetProcesses`, for a path that lies as in /proc.
use go_netflow.Base.{
  ◌-◌, ◌%◌, ◌≡◌, refl, ap, true, false, none, some, List, [], ◌∷◌, ◌++◌, if◌then◌else◌, ◌==◌, ltb,
  length, length-append, take, subst, All, arith, Bool-cases, Option-cases, inl, inr,
}
use go_netflow.Base.Bytes.{Bytes, bytes_eq, bytes_eq_iff, has_prefix, split}
use go_netflow.Base.Dict.{Dict, lookup, insert, lookup-insert}
use go_netflow.Base.Int64.{mod64}
use go_netflow.Base.Outcome.{returns, index}
use go_netflow.Traffic.{Process}
use go_netflow.Scan.{
  Proc, label, drop, inode_text, matches, found, add_socket, scan_file, get_process_exe,
  get_process_name, match_string_suffix,
}
use go_netflow.Scan.Laws.{IsProper}
use go_netflow.Scan.Flat.{rules, read_link, found_named, add_named, scan_path}

-- The third part of a path is the pid, and a standard stream is no socket.
abbrev pub Lies : Proc → Bytes → Bytes → Type 0
Lies fs pid fpath =
    (index (split fpath b'/') 2 ≡ returns pid)
    × (match_string_suffix fpath rules ≡ true → has_prefix (read_link fs fpath) label ≡ false)

abbrev pub files_of : Proc → Bytes → List Bytes
files_of fs pid = elim (fs.files pid) [ none ↦ [] | some files ↦ files ]

-- The paths of all pids, in the order of the pids.
abbrev pub flat : Proc → List Bytes → List Bytes
flat fs [] = []
flat fs (pid ∷ pids) = files_of fs pid ++ flat fs pids

abbrev pub IsLaidOut : Proc → List Bytes → Type 0
IsLaidOut fs [] = Unit {0}
IsLaidOut fs (pid ∷ pids) = All (Lies fs pid) (files_of fs pid) × IsLaidOut fs pids

abbrev pub inode_of : Bytes → Bytes
inode_of name = drop (length label) (take (length name - 1) name)

-- What the loops keep: only processes that match are found, with the count of their inodes.
abbrev pub Fits : Proc → Bytes → Dict Process → Type 0
Fits fs name_filter ppm =
    (pid : Bytes) (po : Process)
    → lookup pid ppm ≡ some po
    → (matches fs name_filter pid ≡ true) × (po.inode_count ≡ length po.inodes % mod64)

inode_text_lem :
    (name : Bytes)
    → ltb (length label) (length name) ≡ true
    → inode_text name ≡ returns (inode_of name)
unfolding inode_text
inode_text_lem name h = rw h refl

read_link-none :
    (fs : Proc) (fpath : Bytes)
    → fs.link fpath ≡ none
    → has_prefix (read_link fs fpath) label ≡ false
unfolding has_prefix
read_link-none fs fpath e = rw (read_link, e) refl

read_link-some :
    (fs : Proc) (fpath name : Bytes) → fs.link fpath ≡ some name → read_link fs fpath ≡ name
read_link-some fs fpath name e = rw (read_link, e) refl

read_link-proper :
    (fs : Proc) (fpath : Bytes)
    → IsProper fs
    → has_prefix (read_link fs fpath) label ≡ true
    → inode_text (read_link fs fpath) ≡ returns (inode_of (read_link fs fpath))
read_link-proper fs fpath proper h = elim (Option-cases (fs.link fpath)) [
  | inl e ↦ absurd (ground (arith, h, read_link-none fs fpath e))
  | inr (name, e) ↦
      let same = read_link-some fs fpath name e in
      inode_text_lem (read_link fs fpath)
        (rw same (proper fpath name e (subst (λ n. has_prefix n label ≡ true) same h)))
]

found_named-found :
    (fs : Proc) (name_filter pid inode : Bytes)
    → get_process_name (get_process_exe fs pid) ≡ name_filter
    → found_named fs pid inode ≡ found fs name_filter pid inode
unfolding found_named found
found_named-found fs name_filter pid inode e =
    ap (λ n. record (found fs name_filter pid inode) { name = n }) e

module _ (fs : Proc) (name_filter : Bytes) (proper : IsProper fs) where
  pub scan_file_lem :
      (pid fpath : Bytes) (ppm : Dict Process)
      → scan_file fs name_filter pid fpath ppm ≡ (
          if has_prefix (read_link fs fpath) label
          then returns (add_socket fs name_filter pid (inode_of (read_link fs fpath)) ppm)
          else returns ppm)
  unfolding scan_file has_prefix
  scan_file_lem pid fpath ppm = elim (Option-cases (fs.link fpath)) [
    | inl e ↦ rw (scan_file, e, read_link-none fs fpath e) refl
    | inr (name, e) ↦
        rw (scan_file, e, read_link-some fs fpath name e)
          (elim (Bool-cases (has_prefix name label)) [
            | inl h ↦ rw (h, inode_text_lem name (proper fpath name e h)) refl
            | inr h ↦ rw h refl
          ])
  ]

  pub scan_path_lem :
      (pid fpath : Bytes) (ppm : Dict Process)
      → Lies fs pid fpath
      → scan_path fs name_filter fpath ppm ≡ (
          if has_prefix (read_link fs fpath) label
          then returns (add_named fs name_filter pid (inode_of (read_link fs fpath)) ppm)
          else returns ppm)
  unfolding scan_path
  scan_path_lem pid fpath ppm (third, std) = elim (Bool-cases (match_string_suffix fpath rules)) [
    | inl m ↦ rw (m, std m) refl
    | inr m ↦
        rw (m, third)
          (elim (Bool-cases (has_prefix (read_link fs fpath) label)) [
            | inl h ↦ rw (h, read_link-proper fs fpath proper h) refl
            | inr h ↦ rw h refl
          ])
  ]

  pub add_named_lem :
      (pid inode : Bytes) (ppm : Dict Process)
      → (length name_filter == 0) ≡ false
      → matches fs name_filter pid ≡ true
      → Fits fs name_filter ppm
      → add_named fs name_filter pid inode ppm ≡ add_socket fs name_filter pid inode ppm
  unfolding add_named add_socket matches
  add_named_lem pid inode ppm n m fits = elim (Option-cases (lookup pid ppm)) [
    | inl e ↦
        let named : bytes_eq (get_process_name (get_process_exe fs pid)) name_filter ≡ true =
          ground (arith, n, m) in
        rw (add_named, add_socket, e, n, named)
          (ap (λ po. insert pid po ppm)
            (found_named-found fs name_filter pid inode ((bytes_eq_iff _ _).0 named)))
    | inr (po, e) ↦
        rw (add_named, add_socket, e)
          (ap
            (λ n. insert pid (record po { inodes = po.inodes ++ inode ∷ []; inode_count = n }) ppm)
            (omega (arith, length-append po.inodes (inode ∷ []), (fits pid po e).1)))
  ]

  pub add_named-skips :
      (pid inode : Bytes) (ppm : Dict Process)
      → matches fs name_filter pid ≡ false
      → Fits fs name_filter ppm
      → add_named fs name_filter pid inode ppm ≡ ppm
  unfolding add_named matches
  add_named-skips pid inode ppm m fits = elim (Option-cases (lookup pid ppm)) [
    | inl e ↦ rw (add_named, e) (ground (arith, m))
    | inr (po, e) ↦ absurd (ground (arith, m, (fits pid po e).0))
  ]

  insert-Fits :
      (pid : Bytes) (po : Process) (ppm : Dict Process)
      → matches fs name_filter pid ≡ true
      → po.inode_count ≡ length po.inodes % mod64
      → Fits fs name_filter ppm
      → Fits fs name_filter (insert pid po ppm)
  insert-Fits pid po ppm m n fits q qo h = elim (Bool-cases (bytes_eq pid q)) [
    | inl e ↦
        let same : po ≡ qo = ground (arith, lookup-insert pid q po ppm, e, h) in
        (
          subst (λ j. matches fs name_filter j ≡ true) ((bytes_eq_iff pid q).0 e) m,
          subst (λ o. o.inode_count ≡ length o.inodes % mod64) same n,
        )
    | inr e ↦ fits q qo (ground (arith, lookup-insert pid q po ppm, e, h))
  ]

  pub add_socket-Fits :
      (pid inode : Bytes) (ppm : Dict Process)
      → matches fs name_filter pid ≡ true
      → Fits fs name_filter ppm
      → Fits fs name_filter (add_socket fs name_filter pid inode ppm)
  unfolding add_socket found
  add_socket-Fits pid inode ppm m fits = elim (Option-cases (lookup pid ppm)) [
    | inl e ↦
        rw (add_socket, e)
          (insert-Fits pid (found fs name_filter pid inode) ppm m (omega arith) fits)
    | inr (po, e) ↦
        rw (add_socket, e)
          (insert-Fits pid _ ppm m
            (omega (arith, length-append po.inodes (inode ∷ []), (fits pid po e).1)) fits)
  ]
