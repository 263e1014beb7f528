-- ===== src/Controller/Scans.antt =====
-- What the goroutine of `Run` leaves: the controller against the last scan that succeeded.
use go_netflow.Base.{
  ℕ, ◌+◌, ◌%◌, ◌≡◌, refl, ap, ◌∙◌, Bool, true, false, Option, none, some, List, [], ◌∷◌, arith,
  length, get_elem?_total, Option-cases, inl, inr,
}
use go_netflow.Base.Bytes.{Bytes}
use go_netflow.Base.Dict.{Dict, lookup}
use go_netflow.Base.Int64.{Int64, Time, mod64}
use go_netflow.Traffic.{Process}
use go_netflow.Controller.{
  Controller, Ptr, has_key, rescan, delete_old, add_new, index_processes, analyse_all, sort,
  add_or_refresh,
}
use go_netflow.Controller.Refresh.{
  IsController, cell, refreshed, cell-rescan, rescan-IsController, length-update,
}
use go_netflow.Controller.Loop.{
  Phase, waits, gone, Rescanner, IsScan, launch, rescan_once, Step, begin, tick, end, stop, sorts,
  Reach, here, next,
}

-- The last scan that succeeded, and how many did.
unfoldable pub last_found : List (Option (Dict Process)) → Option (Dict Process)
last_found [] = none
last_found (none ∷ scans) = last_found scans
last_found (some ps ∷ scans) = some ps

unfoldable pub successes : List (Option (Dict Process)) → ℕ
successes [] = 0
successes (none ∷ scans) = successes scans
successes (some ps ∷ scans) = successes scans + 1

-- The pids and the inodes of the last scan.
abbrev pub has_pid : Option (Dict Process) → Bytes → Bool
has_pid none pid = false
has_pid (some ps) pid = has_key (lookup pid ps)

abbrev pub index_of : Option (Dict Process) → Dict Bytes
index_of none = []
index_of (some ps) = index_processes ps []

pub length-analyse_all :
    (sec : Int64) (clock : Ptr → Time) (pos : List Ptr) (heap : List Process)
    → length (analyse_all sec clock pos heap) ≡ length heap
unfolding analyse_all
length-analyse_all sec clock [] heap = refl
length-analyse_all sec clock (x ∷ pos) heap =
    length-analyse_all sec clock pos _ ∙ length-update _ x heap

sort-IsController :
    (sort_by : (Ptr → Ptr → Bool) → List Ptr → List Ptr) (pm : Controller) (sec : Int64)
    (clock : Ptr → Time)
    → IsController pm
    → IsController (sort sort_by pm sec clock)
unfolding sort
sort-IsController sort_by pm sec clock v = record {
  distinct = v.distinct;
  valid = λ i x h. omega (arith, v.valid i x h, length-analyse_all sec clock _ pm.heap);
  separate = v.separate;
}

has_key-cell :
    (pm : Controller) (pid : Bytes)
    → IsController pm
    → has_key (lookup pid pm.dict) ≡ has_key (cell pm pid)
has_key-cell pm pid v = elim (Option-cases (lookup pid pm.dict)) [
  | inl e ↦ rw (cell, e) refl
  | inr (x, e) ↦
      let (p, found) = get_elem?_total pm.heap x (v.valid pid x e) in rw (cell, e, found) refl
]

has_key-refreshed : (old new : Option Process) → has_key (refreshed old new) ≡ has_key new
has_key-refreshed old none = refl
has_key-refreshed none (some po) = refl
has_key-refreshed (some p) (some po) = refl

revision-add_new : (ps : Dict Process) (pm : Controller) → (add_new pm ps).revision ≡ pm.revision
unfolding add_new add_or_refresh
revision-add_new [] pm = refl
revision-add_new ((pid, po) ∷ ps) pm = elim (Option-cases (lookup pid pm.dict)) [
  | inl e ↦ revision-add_new ps _ ∙ rw (add_or_refresh, e) refl
  | inr (x, e) ↦ revision-add_new ps _ ∙ rw (add_or_refresh, e) refl
]

record Follows (s : Rescanner) : Type 0 where
  valid : IsController s.pm
  pids : (pid : Bytes) → has_key (lookup pid s.pm.dict) ≡ has_pid (last_found s.scans) pid
  inodes : s.pm.inode_pid_map ≡ index_of (last_found s.scans)
  revision : s.pm.revision ≡ successes s.scans % mod64

rescan_once-Follows :
    (s : Rescanner) (scan : Option (Dict Process))
    → IsScan scan
    → Follows s
    → Follows (rescan_once s scan)
unfolding rescan_once last_found successes rescan delete_old
rescan_once-Follows s none d v = record {
  valid = v.valid;
  pids = v.pids;
  inodes = v.inodes;
  revision = v.revision;
}
rescan_once-Follows s (some ps) d v =
    let valid = rescan-IsController s.pm (some ps) v.valid in
    record {
      valid = valid;
      pids = λ pid.
          has_key-cell (rescan s.pm (some ps)) pid valid
          ∙ ap has_key (cell-rescan s.pm ps pid v.valid d)
          ∙ has_key-refreshed (cell s.pm pid) (lookup pid ps);
      inodes = refl;
      revision = revision-add_new ps _ ∙ omega (arith, v.revision);
    }

launch-Follows : Follows launch
unfolding lookup last_found successes
launch-Follows = record {
  valid = record {
    distinct = tt;
    valid = λ i x h. absurd (ground (arith, h));
    separate = λ i j x h k. absurd (ground (arith, h));
  };
  pids = λ pid. refl;
  inodes = refl;
  revision = omega arith;
}

with_phase :
    (s : Rescanner) (phase : Phase) (done : Bool)
    → Follows s
    → Follows (record s { phase = phase; ctx_done = done })
with_phase s phase done v = record {
  valid = v.valid;
  pids = v.pids;
  inodes = v.inodes;
  revision = v.revision;
}

Step-Follows : {s t : Rescanner} → Step s t → Follows s → Follows t
Step-Follows {s} (begin scan d e) v =
    with_phase (rescan_once s scan) waits _ (rescan_once-Follows s scan d v)
Step-Follows {s} (tick scan d e) v = rescan_once-Follows s scan d v
Step-Follows {s} (end e h) v = with_phase s gone _ v
Step-Follows {s} stop v = with_phase s _ true v
Step-Follows {s} (sorts sort_by sec clock) v =
    unfold sort in
    record {
      valid = sort-IsController sort_by s.pm sec clock v.valid;
      pids = v.pids;
      inodes = v.inodes;
      revision = v.revision;
    }

Reach-Follows : {s t : Rescanner} → Reach s t → Follows s → Follows t
Reach-Follows here v = v
Reach-Follows (next r st) v = Step-Follows st (Reach-Follows r v)

-- In every state that the goroutine of `Run` reaches beside calls of `Sort` and `Stop`: the pids of
-- the controller and its inodes are exactly those of the last scan that succeeded, whatever was
-- found before (none and nothing if no scan has), and the revision counts the scans that succeeded
-- modulo 2 ^ 64.
pub Reach-last_found :
    {s : Rescanner} (pid : Bytes)
    → Reach launch s
    → (has_key (lookup pid s.pm.dict) ≡ has_pid (last_found s.scans) pid)
      × (s.pm.inode_pid_map ≡ index_of (last_found s.scans))
      × (s.pm.revision ≡ successes s.scans % mod64)
Reach-last_found pid r =
    let v = Reach-Follows r launch-Follows in (v.pids pid, v.inodes, v.revision)
