-- ===== src/Controller/Loop.antt =====
-- process.go: `AsyncRun`, `Run` and `Stop` of the process controller, with the calls of `Sort` by
-- others, as steps that interleave; and the iterators and the copy of its map. `scans` is not of
-- the code: it records what `GetProcesses` returned, newest first. A scan is a Go map, so its pids
-- are distinct.
use go_netflow.Base.{◌≡◌, Bool, true, false, Option, none, some, List, [], ◌∷◌}
use go_netflow.Base.Dict.{Dict, insert, Distinct}
use go_netflow.Base.Int64.{Int64, Time}
use go_netflow.Traffic.{Process}
use go_netflow.Controller.{Controller, Ptr, new_controller, update, values, rescan, sort}

-- The loops of `readIterator` and `anyIterator`.
unfoldable pub iterate : (Process → Process) → List Ptr → List Process → List Process
iterate fn [] heap = heap
iterate fn (po ∷ pos) heap = iterate fn pos (update fn po heap)

-- `readIterator`, which holds the lock for readers only: `fn` may write all the same.
unfoldable pub read_iterator : Controller → (Process → Process) → Controller
read_iterator pm fn = record pm { heap = iterate fn (values pm.dict) pm.heap }

-- `anyIterator`
unfoldable pub any_iterator : Controller → (Process → Process) → Controller
any_iterator pm fn = record pm { heap = iterate fn (values pm.dict) pm.heap }

-- The loop of `copy`
unfoldable pub copy_into : Dict Ptr → Dict Ptr → Dict Ptr
copy_into [] ndict = ndict
copy_into ((k, v) ∷ dict) ndict = copy_into dict (insert k v ndict)

-- `copy` of the controller: another map of the same pointers.
unfoldable pub copy_dict : Controller → Dict Ptr
copy_dict pm = copy_into pm.dict []

-- The goroutine of `Run`
pub data Phase : Type 0 where
  before waits gone : Phase

pub record Rescanner : Type 0 where
  pub pm : Controller
  pub ctx_done : Bool
  pub phase : Phase
  pub scans : List (Option (Dict Process))

-- After `NewProcessController` and `AsyncRun`.
abbrev pub launch : Rescanner
launch = record { pm = new_controller; ctx_done = false; phase = before; scans = [] }

-- The map that a scan returns, if it returns one, has distinct keys.
abbrev pub IsScan : Option (Dict Process) → Type 0
IsScan none = Unit {0}
IsScan (some ps) = Distinct ps

-- `Rescan`, for what `GetProcesses` returns.
unfoldable pub rescan_once : Rescanner → Option (Dict Process) → Rescanner
rescan_once s scan = record s { pm = rescan s.pm scan; scans = scan ∷ s.scans }

-- A `select` with both cases ready may take either.
pub data Step (s : Rescanner) : Rescanner → Type 0 where
  begin :
      (scan : Option (Dict Process))
      → IsScan scan
      → s.phase ≡ before
      → Step s (record (rescan_once s scan) { phase = waits })
  tick :
      (scan : Option (Dict Process)) → IsScan scan → s.phase ≡ waits → Step s (rescan_once s scan)
  end : s.phase ≡ waits → s.ctx_done ≡ true → Step s (record s { phase = gone })
  stop : Step s (record s { ctx_done = true })
  sorts :
      (sort_by : (Ptr → Ptr → Bool) → List Ptr → List Ptr) (sec : Int64) (clock : Ptr → Time)
      → Step s (record s { pm = sort sort_by s.pm sec clock })

pub data Reach (s : Rescanner) : Rescanner → Type 0 where
  here : Reach s s
  next : {t u : Rescanner} → Reach s t → Step t u → Reach s u
