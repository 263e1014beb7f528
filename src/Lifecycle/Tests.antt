-- ===== src/Lifecycle/Tests.antt =====
-- Runs of `Start` and `Stop`, on a machine that has no control groups and on one that has them.
use go_netflow.Base.{ℕ, ◌*◌, ◌≡◌, refl, Bool, true, false, ◌&&◌, some, List, [], ◌∷◌, ◌==◌}
use go_netflow.Base.Bytes.{codes, bytes_eq}
use go_netflow.Netflow.{Netflow}
use go_netflow.Netflow.Options.{defaults}
use go_netflow.Lifecycle.{
  Effect, Machine, no_support, fresh, start, stop, configure_persist, configure_cgroups, configure,
  resources, finalize, free, exit_all, calls_delete,
}
use go_netflow.Lifecycle.Held.{is_open}
use go_netflow.Lifecycle.Release.{sniffs, stops, run, IsReleased, stop-start}
use go_netflow.Lifecycle.Outcomes.{is_none, has_started, can_persist, can_limit, start_iff}

-- A float64 is here its value, a natural number.
abbrev machine : Bool → Machine
machine linux = record {
  linux = linux;
  create = λ path. true;
  new_group = λ rs. some 7;
  add_process = λ control. true;
  one = 1;
  is_zero = λ core. core == 0;
  is_not_positive = λ core. core == 0;
  quota_of = λ core. core * 10000;
}

abbrev limited : Netflow
limited = record (defaults [] ((codes "eth0", tt) ∷ [])) {
  pcap_file_name = codes "out.pcap";
  cpu_core = 2;
  mem_mb = 1;
}

stop-start_example :
    IsReleased (stop (run (sniffs ∷ stops ∷ []) (start (machine true) (fresh limited)).0))
stop-start_example = stop-start (machine true) limited (sniffs ∷ stops ∷ [])

start_iff_example :
    (is_none (start (machine false) (fresh limited)).1
      ≡ (can_persist (machine false) limited && can_limit (machine false) limited))
    × (has_started (start (machine false) (fresh limited)).0.log
        ≡ (can_persist (machine false) limited && can_limit (machine false) limited))
start_iff_example = start_iff (machine false) limited

-- After a failed `Start` the file is open until `Stop`.
start_leaks :
    ((start (machine false) (fresh limited)).1 ≡ some no_support)
    × (is_open (codes "out.pcap") (start (machine false) (fresh limited)).0.log ≡ true)
unfolding start configure_persist configure_cgroups configure is_open bytes_eq
start_leaks = (refl, refl)

-- A second `Stop` deletes the groups again.
deletes : List Effect → ℕ
deletes [] = 0
deletes (calls_delete control ∷ log) = Prim.Native.Nat.suc (deletes log)
deletes (e ∷ log) = deletes log

stop_twice : deletes (stop (stop (start (machine true) (fresh limited)).0)).log ≡ 2
unfolding start stop finalize free exit_all configure_persist configure_cgroups configure resources
    deletes
stop_twice = refl
