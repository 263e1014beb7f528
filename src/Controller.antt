-- ===== src/Controller.antt =====
-- process.go: `processController`, the processes that own sockets. The pointers of the code are
-- positions in `heap`, which holds the `Process` objects; so what one holder of a pointer changes,
-- every holder sees. A map is its entries in the order in which `range` goes through it: that order
-- is arbitrary in Go. Each method holds the lock for its whole body, so it is one step.
-- `sortNetflow` and `analyse`, which print, are left out.
pub mod Refresh
pub mod Owners
pub mod Rank
pub mod Volume
pub mod Unordered
pub mod Loop
pub mod Scans
pub mod Tests
mod TwoProcesses
use go_netflow.Base.{
  ℕ, suc, ◌+◌, ◌≡◌, Bool, true, false, Option, none, some, List, [], ◌∷◌, ◌++◌, map, length,
  get_elem?, set, take, if◌then◌else◌, ltb,
}
use go_netflow.Base.Bytes.{Bytes}
use go_netflow.Base.Dict.{Dict, lookup, insert, keep}
use go_netflow.Base.Dict
use go_netflow.Base.Int64.{Int64, Time, add64, ltb64, is_neg64}
use go_netflow.Traffic.{Process, TrafficStatsEntry, analyse_stats}
use go_netflow.Traffic

abbrev pub Ptr : Type 0
Ptr = ℕ

-- `processController`, with the objects that its pointers reach
pub record Controller : Type 0 where
  pub heap : List Process
  pub dict : Dict Ptr
  pub revision : Int64
  pub inode_pid_map : Dict Bytes
  pub sorted_processes : List Ptr
  pub filter_pname : Bytes

-- `NewProcessController`
abbrev pub new_controller : Controller
new_controller = record {
  heap = [];
  dict = [];
  revision = 0;
  inode_pid_map = [];
  sorted_processes = [];
  filter_pname = [];
}

-- `Add`
unfoldable pub add : Controller → Bytes → Ptr → Controller
add pm pid p = record pm { dict = insert pid p pm.dict }

-- `Get`
unfoldable pub get : Controller → Bytes → Option Ptr
get pm pid = lookup pid pm.dict

-- `GetProcessByInode`
unfoldable pub get_process_by_inode : Controller → Bytes → Option Ptr
get_process_by_inode pm inode = elim (lookup inode pm.inode_pid_map) [
  | none ↦ none
  | some pid ↦ lookup pid pm.dict
]

-- `delete`
unfoldable pub delete : Controller → Bytes → Controller
delete pm pid = record pm { dict = Dict.delete pid pm.dict }

-- `Reset`
unfoldable pub reset : Controller → Controller
reset pm = record pm { dict = []; inode_pid_map = [] }

-- A write through a pointer.
unfoldable pub update : (Process → Process) → Ptr → List Process → List Process
update f ptr heap = elim (get_elem? heap ptr) [ none ↦ heap | some p ↦ set heap ptr (f p) ]

-- One round of the first loop of `Rescan`.
unfoldable pub add_or_refresh : Controller → Bytes → Process → Controller
unfolding update
add_or_refresh pm pid po = elim (lookup pid pm.dict) [
  | some pp ↦ record pm { heap = update (λ p. record p { inodes = po.inodes }) pp pm.heap }
  | none ↦ record pm { heap = pm.heap ++ po ∷ []; dict = insert pid (length pm.heap) pm.dict }
]

-- The first loop of `Rescan`: a known process gets the new inodes, a new one is added.
unfoldable pub add_new : Controller → Dict Process → Controller
add_new pm [] = pm
add_new pm ((pid, po) ∷ ps) = add_new (add_or_refresh pm pid po) ps

-- Whether a map has the key.
abbrev pub has_key {ℓ} : {V : Type ℓ} → Option V → Bool
has_key none = false
has_key (some v) = true

-- The second loop of `Rescan`: what is not among `ps` is deleted.
unfoldable pub delete_old : Controller → Dict Process → Controller
delete_old pm ps = record pm { dict = keep (λ pid _. has_key (lookup pid ps)) pm.dict }

-- The third loop of `Rescan`, for one process.
unfoldable pub index_inodes : Bytes → List Bytes → Dict Bytes → Dict Bytes
index_inodes pid [] m = m
index_inodes pid (inode ∷ inodes) m = index_inodes pid inodes (insert inode pid m)

-- The third loop of `Rescan`: from inodes to pids.
unfoldable pub index_processes : Dict Process → Dict Bytes → Dict Bytes
index_processes [] m = m
index_processes ((pid, po) ∷ ps) m = index_processes ps (index_inodes pid po.inodes m)

-- `Rescan`, for the result of `GetProcesses`: `none` is an error, and changes nothing.
unfoldable pub rescan : Controller → Option (Dict Process) → Controller
rescan pm none = pm
rescan pm (some ps) =
    let pm' = delete_old (add_new (record pm { revision = add64 pm.revision 1 }) ps) ps in
    record pm' { inode_pid_map = index_processes ps [] }

-- The pointers of a map, in its order.
abbrev pub values : Dict Ptr → List Ptr
values = map (λ e. e.1)

-- `s[i].TrafficStats.In + s[i].TrafficStats.Out` of `sortedProcesses.Less`. (A nil is a panic in
-- the code and 0 here; the property of the ranking tells that none is met.)
unfoldable pub weight : List Process → Ptr → Int64
weight heap ptr = elim (get_elem? heap ptr) [
  | none ↦ 0
  | some p ↦ elim p.traffic_stats [ none ↦ 0 | some s ↦ add64 s.in_bytes s.out_bytes ]
]

-- `sortedProcesses.Less`
abbrev pub less : List Process → Ptr → Ptr → Bool
less heap i j = ltb64 (weight heap j) (weight heap i)

-- The loop of `Sort`; `clock` is what `time.Now` returns in the round of each process.
unfoldable pub analyse_all : Int64 → (Ptr → Time) → List Ptr → List Process → List Process
unfolding update
analyse_all sec clock [] heap = heap
analyse_all sec clock (po ∷ pos) heap =
    analyse_all sec clock pos (update (λ p. analyse_stats p sec (clock po)) po heap)

-- `Sort`, over the `sort.Sort` of the standard library
unfoldable pub sort :
    ((Ptr → Ptr → Bool) → List Ptr → List Ptr) → Controller → Int64 → (Ptr → Time) → Controller
sort sort_by pm sec clock =
    let heap' = analyse_all sec clock (values pm.dict) pm.heap in
    record pm { heap = heap'; sorted_processes = sort_by (less heap') (values pm.dict) }

-- The loop of `GetRank` that copies; `none` is a nil dereference.
unfoldable pub copies : List Process → List Ptr → Option (List Process)
copies heap [] = some []
copies heap (item ∷ src) = elim (get_elem? heap item) [
  | none ↦ none
  | some p ↦ elim (Traffic.copy p) [
    | none ↦ none
    | some c ↦ elim (copies heap src) [ none ↦ none | some res ↦ some (c ∷ res) ]
  ]
]

-- `GetRank`: the copies are made, and the pointers are returned. `none` is a panic: a negative
-- limit is out of range for the slice.
unfoldable pub get_rank : Controller → Int64 → Option (List Ptr)
get_rank pm limit =
    let src =
      (if ltb limit (length pm.sorted_processes)
        then take limit pm.sorted_processes
        else pm.sorted_processes) in
    if is_neg64 limit then none else elim (copies pm.heap src) [ none ↦ none | some _ ↦ some src ]
