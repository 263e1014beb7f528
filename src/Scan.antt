-- ===== src/Scan.antt =====
-- process.go: the scan of /proc for the processes that hold sockets, `GetProcesses`, with
-- `getMatchingPIDs` and `getProcessName`. The file system is an argument. `Title` is for ASCII.
pub mod Laws
pub mod Owner
pub mod Fresh
pub mod Flat
pub mod Layouts
pub mod Equivalent
mod Tests
use go_netflow.Base.{
  ℕ, zero, suc, ◌+◌, ◌-◌, Bool, true, false, ◌&&◌, ◌||◌, Option, none, some, List, [], ◌∷◌, ◌++◌,
  if◌then◌else◌, ◌==◌, leb, ltb, length, take,
}
use go_netflow.Base.Bytes.{Bytes, codes, bytes_eq, has_prefix, has_suffix, split}
use go_netflow.Base.Dict.{Dict, lookup, insert}
use go_netflow.Base.Int64.{add64}
use go_netflow.Base.Outcome.{Outcome, panic, returns, ◌>>=◌}
use go_netflow.Traffic.{Process, new_stats}

-- What the scan reads: the pids of /proc, or the error of the first `Glob`; the paths below a
-- pid's fd; and the target of a link.
pub record Proc : Type 0 where
  pub pids : Option (List Bytes)
  pub files : Bytes → Option (List Bytes)
  pub link : Bytes → Option Bytes

abbrev pub label : Bytes
label = codes "socket:["

-- `s[n:]`, for `n` at most the length
abbrev pub drop : ℕ → Bytes → Bytes
drop zero s = s
drop (suc n) [] = []
drop (suc n) (c ∷ s) = drop n s

-- `name[len(label) : len(name)-1]`, which is out of range for the label alone.
unfoldable pub inode_text : Bytes → Outcome Bytes
inode_text name =
    if ltb (length label) (length name)
    then returns (drop (length label) (take (length name - 1) name))
    else panic

-- `getProcessExe`: the empty text for a link that cannot be read.
unfoldable pub get_process_exe : Proc → Bytes → Bytes
get_process_exe fs pid = elim (fs.link (codes "/proc/" ++ pid ++ codes "/exe")) [
  | none ↦ []
  | some path ↦ path
]

-- Whether `strings.Title` takes the character for a part of a word.
abbrev pub in_word : ℕ → Bool
in_word c =
    (leb b'0' c && leb c b'9')
    || (leb b'A' c && leb c b'Z')
    || (leb b'a' c && leb c b'z')
    || c == b'_'

abbrev pub upper : ℕ → ℕ
upper c = if leb b'a' c && leb c b'z' then c - 32 else c

-- `strings.Title`: the first letter of each word in upper case; `inside` is whether the character
-- before is part of a word.
unfoldable pub title : Bool → Bytes → Bytes
title inside [] = []
title inside (c ∷ s) = (if inside then c else upper c) ∷ title (in_word c) s

-- `n[len(n)-1]`; `strings.Split` gives one part at least.
abbrev pub last_part : List Bytes → Bytes
last_part [] = []
last_part (part ∷ []) = part
last_part (part ∷ next ∷ parts) = last_part (next ∷ parts)

-- `getProcessName`
unfoldable pub get_process_name : Bytes → Bytes
get_process_name exe = title false (last_part (split exe b'/'))

-- The test of `getMatchingPIDs`
unfoldable pub matches : Proc → Bytes → Bytes → Bool
matches fs name_filter pid =
    length name_filter == 0 || bytes_eq (get_process_name (get_process_exe fs pid)) name_filter

-- The loop of `getMatchingPIDs`
unfoldable pub matching : Proc → Bytes → List Bytes → List Bytes
matching fs name_filter [] = []
matching fs name_filter (pid ∷ pids) =
    let rest = matching fs name_filter pids in
    if matches fs name_filter pid then pid ∷ rest else rest

-- `getMatchingPIDs`; `none` is the error.
unfoldable pub get_matching_pids : Proc → Bytes → Option (List Bytes)
get_matching_pids fs name_filter = elim fs.pids [
  | none ↦ none
  | some pids ↦ some (matching fs name_filter pids)
]

-- The new process of `GetProcesses`, for its first socket; its name is the filter.
unfoldable pub found : Proc → Bytes → Bytes → Bytes → Process
found fs name_filter pid inode = record {
  name = name_filter;
  pid = pid;
  exe = get_process_exe fs pid;
  state = [];
  inode_count = 1;
  traffic_stats = some new_stats;
  ring = [];
  inodes = inode ∷ [];
  revision = 0;
}

-- `GetProcesses` at a socket.
unfoldable pub add_socket : Proc → Bytes → Bytes → Bytes → Dict Process → Dict Process
add_socket fs name_filter pid inode ppm = elim (lookup pid ppm) [
  | some po ↦
      insert pid
        (record po { inodes = po.inodes ++ inode ∷ []; inode_count = add64 po.inode_count 1 }) ppm
  | none ↦ insert pid (found fs name_filter pid inode) ppm
]

-- One round of the inner loop of `GetProcesses`
unfoldable pub scan_file : Proc → Bytes → Bytes → Bytes → Dict Process → Outcome (Dict Process)
scan_file fs name_filter pid fpath ppm = elim (fs.link fpath) [
  | none ↦ returns ppm
  | some name ↦
      let added = (do inode ← inode_text name; returns (add_socket fs name_filter pid inode ppm)) in
      if has_prefix name label then added else returns ppm
]

-- The inner loop of `GetProcesses`
unfoldable pub scan_files :
    Proc → Bytes → Bytes → List Bytes → Dict Process → Outcome (Dict Process)
scan_files fs name_filter pid [] ppm = returns ppm
scan_files fs name_filter pid (fpath ∷ files) ppm = do
  ppm' ← scan_file fs name_filter pid fpath ppm
  scan_files fs name_filter pid files ppm'

-- The outer loop of `GetProcesses`
unfoldable pub scan_pids : Proc → Bytes → List Bytes → Dict Process → Outcome (Dict Process)
scan_pids fs name_filter [] ppm = returns ppm
scan_pids fs name_filter (pid ∷ pids) ppm = elim (fs.files pid) [
  | none ↦ scan_pids fs name_filter pids ppm
  | some files ↦ do
    ppm' ← scan_files fs name_filter pid files ppm
    scan_pids fs name_filter pids ppm'
]

-- `GetProcesses`; `returns none` is the error.
unfoldable pub get_processes : Proc → Bytes → Outcome (Option (Dict Process))
get_processes fs name_filter = elim (get_matching_pids fs name_filter) [
  | none ↦ returns none
  | some pids ↦ do ppm ← scan_pids fs name_filter pids []; returns (some ppm)
]

-- `matchStringSuffix` of utils.go
unfoldable pub match_string_suffix : Bytes → List Bytes → Bool
match_string_suffix s [] = false
match_string_suffix s (val ∷ mv) = has_suffix s val || match_string_suffix s mv
