-- ===== src/Scan/Flat.antt =====
-- process.go: `GetProcesses1`, the scan of /proc by one pattern, `/proc/[0-9]*/fd/[0-9]*`. The
-- paths that the pattern gives are an argument beside the file system.
use go_netflow.Base.{
  not, ◌&&◌, Option, none, some, List, [], ◌∷◌, ◌++◌, ◌%◌, if◌then◌else◌, ◌==◌, length,
}
use go_netflow.Base.Bytes.{Bytes, codes, bytes_eq, has_prefix, split}
use go_netflow.Base.Dict.{Dict, lookup, insert}
use go_netflow.Base.Int64.{mod64}
use go_netflow.Base.Outcome.{Outcome, returns, index, ◌>>=◌}
use go_netflow.Traffic.{Process, new_stats}
use go_netflow.Scan.{
  Proc, label, inode_text, get_process_exe, get_process_name, match_string_suffix,
}

-- The standard streams, which are passed over.
abbrev pub rules : List Bytes
rules = codes "fd/0" ∷ codes "fd/1" ∷ codes "fd/2" ∷ []

-- `name, _ := os.Readlink(fpath)`
abbrev pub read_link : Proc → Bytes → Bytes
read_link fs fpath = elim (fs.link fpath) [ none ↦ [] | some name ↦ name ]

-- The new process of `GetProcesses1`; it has the name of the program.
unfoldable pub found_named : Proc → Bytes → Bytes → Process
found_named fs pid inode = record {
  name = get_process_name (get_process_exe fs pid);
  pid = pid;
  exe = get_process_exe fs pid;
  state = [];
  inode_count = 1;
  traffic_stats = some new_stats;
  ring = [];
  inodes = inode ∷ [];
  revision = 0;
}

-- `GetProcesses1` at a socket.
unfoldable pub add_named : Proc → Bytes → Bytes → Bytes → Dict Process → Dict Process
add_named fs name_filter pid inode ppm = elim (lookup pid ppm) [
  | some po ↦
      let inodes = po.inodes ++ inode ∷ [] in
      insert pid (record po { inodes = inodes; inode_count = length inodes % mod64 }) ppm
  | none ↦
      let pname = get_process_name (get_process_exe fs pid) in
      if not (length name_filter == 0) && not (bytes_eq pname name_filter)
      then ppm
      else insert pid (found_named fs pid inode) ppm
]

-- One round of the loop of `GetProcesses1`
unfoldable pub scan_path : Proc → Bytes → Bytes → Dict Process → Outcome (Dict Process)
scan_path fs name_filter fpath ppm =
    let added = (do
      pid ← index (split fpath b'/') 2
      inode ← inode_text (read_link fs fpath)
      returns (add_named fs name_filter pid inode ppm)) in
    if match_string_suffix fpath rules
    then returns ppm
    else if not (has_prefix (read_link fs fpath) label)
    then returns ppm
    else added

-- The loop of `GetProcesses1`
unfoldable pub scan_paths : Proc → Bytes → List Bytes → Dict Process → Outcome (Dict Process)
scan_paths fs name_filter [] ppm = returns ppm
scan_paths fs name_filter (fpath ∷ files) ppm = do
  ppm' ← scan_path fs name_filter fpath ppm
  scan_paths fs name_filter files ppm'

-- `GetProcesses1`, given what the pattern gives; `returns none` is the error.
unfoldable pub get_processes1 : Proc → Option (List Bytes) → Bytes → Outcome (Option (Dict Process))
get_processes1 fs globbed name_filter = elim globbed [
  | none ↦ returns none
  | some files ↦ do ppm ← scan_paths fs name_filter files []; returns (some ppm)
]
