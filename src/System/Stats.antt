-- ===== src/System/Stats.antt =====
-- The statistics of the processes through their changes, a rescan and a ranking.
use go_netflow.Base.{
  ◌≡◌, refl, ◌∙◌, arith, Option, none, some, List, [], ◌∷◌, ◌==◌, All, All-set, All-get_elem?,
  All-append, get_elem?, Bool-cases, Option-cases, inl, inr,
}
use go_netflow.Base.Bytes.{Bytes}
use go_netflow.Base.Dict.{Dict, lookup}
use go_netflow.Base.Int64.{Int64, Time}
use go_netflow.Traffic.{
  Process, SideOption, input_side, output_side, analyse_stats, increase_process_traffic,
  increase_input, increase_output, shrink,
}
use go_netflow.Controller.{
  Controller, Ptr, update, add_or_refresh, add_new, delete_old, rescan, analyse_all,
}
use go_netflow.Scan.Fresh.{IsFresh, HasStats}

pub All-update :
    (P : Process → Type 0) (f : Process → Process) (x : Ptr) (heap : List Process)
    → ((p : Process) → P p → P (f p))
    → All P heap
    → All P (update f x heap)
unfolding update
All-update P f x heap h a = elim (Option-cases (get_elem? heap x)) [
  | inl e ↦ rw (update, e) a
  | inr (p, e) ↦ rw (update, e) (All-set P heap x (f p) a (h p (All-get_elem? P heap x p a e)))
]

analyse_stats-HasStats :
    (sec : Int64) (clock : Time) (p : Process) → HasStats p → HasStats (analyse_stats p sec clock)
unfolding analyse_stats
analyse_stats-HasStats sec clock p w = elim (Bool-cases (sec == 0)) [
  | inl e ↦ rw (analyse_stats, e) w
  | inr e ↦ rw (analyse_stats, e) (_, refl)
]

-- The count of a packet changes the ring only.
pub traffic_stats-increase_process_traffic :
    (p : Process) (n : Int64) (side : SideOption) (clock : Time)
    → (increase_process_traffic p n side clock).traffic_stats ≡ p.traffic_stats
unfolding increase_process_traffic increase_input increase_output shrink
traffic_stats-increase_process_traffic p n input_side clock = ground arith
traffic_stats-increase_process_traffic p n output_side clock = ground arith

pub increase_process_traffic-HasStats :
    (n : Int64) (side : SideOption) (clock : Time) (p : Process)
    → HasStats p
    → HasStats (increase_process_traffic p n side clock)
increase_process_traffic-HasStats n side clock p (stats, e) =
    (stats, traffic_stats-increase_process_traffic p n side clock ∙ e)

add_or_refresh-stats :
    (pm : Controller) (pid : Bytes) (po : Process)
    → HasStats po
    → All HasStats pm.heap
    → All HasStats (add_or_refresh pm pid po).heap
unfolding add_or_refresh
add_or_refresh-stats pm pid po f a = elim (Option-cases (lookup pid pm.dict)) [
  | inl e ↦ rw (add_or_refresh, e) (All-append HasStats pm.heap (po ∷ []) a (f, tt))
  | inr (x, e) ↦ rw (add_or_refresh, e) (All-update HasStats _ x pm.heap (λ p w. w) a)
]

-- The first loop of a rescan.
add_new-stats :
    (ps : Dict Process) (pm : Controller)
    → IsFresh ps
    → All HasStats pm.heap
    → All HasStats (add_new pm ps).heap
unfolding add_new
add_new-stats [] pm f a = a
add_new-stats ((pid, po) ∷ ps) pm f a =
    add_new-stats ps _ f.1 (add_or_refresh-stats pm pid po f.0 a)

pub rescan-stats :
    (pm : Controller) (found : Option (Dict Process))
    → ((ps : Dict Process) → found ≡ some ps → IsFresh ps)
    → All HasStats pm.heap
    → All HasStats (rescan pm found).heap
unfolding rescan delete_old
rescan-stats pm none f a = a
rescan-stats pm (some ps) f a = add_new-stats ps _ (f ps refl) a

pub analyse_all-stats :
    (sec : Int64) (clock : Ptr → Time) (pos : List Ptr) (heap : List Process)
    → All HasStats heap
    → All HasStats (analyse_all sec clock pos heap)
unfolding analyse_all
analyse_all-stats sec clock [] heap a = a
analyse_all-stats sec clock (x ∷ pos) heap a =
    analyse_all-stats sec clock pos _
      (All-update HasStats _ x heap (analyse_stats-HasStats sec (clock x)) a)
