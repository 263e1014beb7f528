-- ===== src/Lifecycle.antt =====
-- netflow.go: `Start` and `Stop` with what they call, and `cgroupsLimiter` of cgroup_linux.go and
-- of cgroup_os.go. What they do outside the program is a log, newest first. The file system, the
-- cgroup library and the arithmetic on float64 are the argument `Machine`. The header of the pcap
-- file is left out. `free` and `Stop` drop the errors of `Delete` and `Close`: the log says that they
-- were called, not that they succeeded.
pub mod Held
pub mod Release
pub mod Outcomes
mod Tests
use go_netflow.Base.{
  ℕ, zero, suc, ◌*◌, Bool, true, false, ◌&&◌, Option, none, some, List, [], ◌∷◌, ◌++◌,
  if◌then◌else◌, ◌==◌, length,
}
use go_netflow.Base.Bytes.{Bytes}
use go_netflow.Base.Dict.{Dict}
use go_netflow.Base.Int64.{Int64, mul64, is_neg64}
use go_netflow.Netflow.{Netflow}

-- `specs.LinuxResources`, with the fields that `configure` sets.
pub record LinuxResources : Type 0 where
  pub period : ℕ
  pub quota : Int64
  pub limit : Option Int64

-- A control group by its number.
abbrev pub Cgroup : Type 0
Cgroup = ℕ

pub data Effect : Type 0 where
  creates : Bytes → Effect
  closes : Bytes → Effect
  makes_group : Cgroup → Effect
  calls_delete : Cgroup → Effect
  adds_process : Cgroup → Effect
  starts_syncer starts_sniffer starts_worker : Effect
  captures : Bytes → Effect
  stops_timer : Effect

pub data StartError : Type 0 where
  no_file no_cgroup no_process no_support : StartError

-- What `Start` asks of the machine: `linux` is the build; a float64 is its bit pattern, and
-- `quota_of core` is `int64(core * 10000)`.
pub record Machine : Type 0 where
  pub linux : Bool
  pub create : Bytes → Bool
  pub new_group : LinuxResources → Option Cgroup
  pub add_process : Cgroup → Bool
  pub one : ℕ
  pub is_zero : ℕ → Bool
  pub is_not_positive : ℕ → Bool
  pub quota_of : ℕ → Int64

-- The fields of `Netflow` that `Start` and `Stop` set: an exit function is the groups that its
-- limiter has made, and `timer` is whether there is one.
pub record Life : Type 0 where
  pub nf : Netflow
  pub pcap_file : Option Bytes
  pub exit_func : List (List Cgroup)
  pub timer : Bool
  pub log : List Effect

abbrev pub fresh : Netflow → Life
fresh nf = record { nf = nf; pcap_file = none; exit_func = []; timer = false; log = [] }

abbrev pub mem_unit : ℕ
mem_unit = 1024 * 1024 * 10 * 10

-- The resources of `configure`; `mbn * memUnit` wraps.
unfoldable pub resources : Machine → ℕ → Int64 → LinuxResources
resources mc core mbn =
    let mem = mul64 mbn mem_unit in
    record {
      period = 10000;
      quota = mc.quota_of (if mc.is_not_positive core then mc.one else core);
      limit = if mem == 0 then none else some mem;
    }

-- `configure`: the groups of the limiter, what was done, and the error.
unfoldable pub configure : Machine → ℕ → Int64 → List Cgroup × (List Effect × Option StartError)
configure mc core mbn =
    if mc.linux
    then (elim (mc.new_group (resources mc core mbn)) [
      | none ↦ ([], ([], some no_cgroup))
      | some control ↦
          if mc.add_process control
          then (control ∷ [], (adds_process control ∷ makes_group control ∷ [], none))
          else (control ∷ [], (makes_group control ∷ [], some no_process))
    ])
    else ([], ([], some no_support))

-- `free`
unfoldable pub free : List Cgroup → List Effect → List Effect
free [] log = log
free (ctrl ∷ controls) log = free controls (calls_delete ctrl ∷ log)

-- `configureCgroups`: the exit function is added even after an error.
unfoldable pub configure_cgroups : Machine → Life → Life × Option StartError
configure_cgroups mc s =
    if mc.is_zero s.nf.cpu_core && s.nf.mem_mb == 0
    then (s, none)
    else (let (controls, (done, e)) = configure mc s.nf.cpu_core s.nf.mem_mb in
        (record s { exit_func = s.exit_func ++ controls ∷ []; log = done ++ s.log }, e))

-- `configurePersist`
unfoldable pub configure_persist : Machine → Life → Life × Option StartError
configure_persist mc s =
    if length s.nf.pcap_file_name == 0
    then (s, none)
    else if mc.create s.nf.pcap_file_name
    then (
      record s { pcap_file = some s.nf.pcap_file_name; log = creates s.nf.pcap_file_name ∷ s.log },
      none,
    )
    else (s, some no_file)

-- `Start`
unfoldable pub start : Machine → Life → Life × Option StartError
start mc s =
    let (s', e) = configure_persist mc s in
    elim e [
      | some e' ↦ (s', some e')
      | none ↦
          let (t, e') = configure_cgroups mc s' in
          elim e' [
            | some x ↦ (t, some x)
            | none ↦ (record t { log = starts_sniffer ∷ starts_syncer ∷ t.log }, none)
          ]
    ]

-- The loops of `startNetworkSniffer`
unfoldable pub capture_all : Dict (Unit {0}) → List Effect → List Effect
capture_all [] log = log
capture_all ((dev, tt) ∷ devs) log = capture_all devs (captures dev ∷ log)

unfoldable pub start_workers : ℕ → List Effect → List Effect
start_workers zero log = log
start_workers (suc n) log = start_workers n (starts_worker ∷ log)

-- `startNetworkSniffer`
unfoldable pub start_network_sniffer : Life → Life
start_network_sniffer s = record s {
  timer = true;
  log =
      start_workers (if is_neg64 s.nf.worker_num then 0 else s.nf.worker_num)
        (capture_all s.nf.bind_devices s.log);
}

-- The exit functions, in order.
unfoldable pub exit_all : List (List Cgroup) → List Effect → List Effect
exit_all [] log = log
exit_all (controls ∷ fns) log = exit_all fns (free controls log)

-- `finalize`
unfoldable pub finalize : Life → Life
finalize s = record s {
  log = exit_all s.exit_func (if s.timer then stops_timer ∷ s.log else s.log);
}

-- `Stop`
unfoldable pub stop : Life → Life
stop s =
    let s' = finalize (record s { nf = record s.nf { ctx_done = true } }) in
    elim s'.pcap_file [ none ↦ s' | some f ↦ record s' { log = closes f ∷ s'.log } ]
