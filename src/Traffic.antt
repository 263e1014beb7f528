-- ===== src/Traffic.antt =====
-- process.go, the traffic of one process: `Process`, its ring of per-second entries and the
-- statistics over a window of seconds; and `increaseProcessTraffic` of netflow.go.
-- `time.Now` is an argument, `clock`. The ring is a list, oldest entry first.
pub mod Ring
pub mod Amount
pub mod Window
mod Tests
use go_netflow.Base.{
  ℕ, suc, ◌+◌, Bool, true, false, Option, none, some, List, [], ◌∷◌, ◌++◌, if◌then◌else◌, ◌==◌, leb,
  length, get_elem?, ◌-◌, ◌≡◌,
}
use go_netflow.Base.Bytes.{Bytes}
use go_netflow.Base.Int64.{Int64, Time, unix, add_time, add64, neg64, mul64, quot64, ltb64, second}

-- `trafficEntry`
pub record TrafficEntry : Type 0 where
  pub timestamp : Int64
  pub in_bytes : Int64
  pub out_bytes : Int64

-- `trafficStatsEntry`
pub record TrafficStatsEntry : Type 0 where
  pub in_bytes : Int64
  pub out_bytes : Int64
  pub in_rate : Int64
  pub out_rate : Int64
  pub input_ewma : Int64
  pub output_ewma : Int64

-- `new(trafficStatsEntry)`
abbrev pub new_stats : TrafficStatsEntry
new_stats = record {
  in_bytes = 0;
  out_bytes = 0;
  in_rate = 0;
  out_rate = 0;
  input_ewma = 0;
  output_ewma = 0;
}

-- `Process`; `traffic_stats` is a pointer, `none` if it is nil.
pub record Process : Type 0 where
  pub name : Bytes
  pub pid : Bytes
  pub exe : Bytes
  pub state : Bytes
  pub inode_count : Int64
  pub traffic_stats : Option TrafficStatsEntry
  pub ring : List TrafficEntry
  pub inodes : List Bytes
  pub revision : Int64

abbrev pub max_ring_size : ℕ
max_ring_size = 61

-- `getLastTrafficEntry`
unfoldable pub get_last_traffic_entry : Process → Option TrafficEntry
get_last_traffic_entry p = if length p.ring == 0 then none else get_elem? p.ring (length p.ring - 1)

-- The loop of `analyseStats` over the ring.
unfoldable pub sum_window : Int64 → TrafficStatsEntry → List TrafficEntry → TrafficStatsEntry
sum_window thold stats [] = stats
sum_window thold stats (item ∷ ring) =
    sum_window thold
      (if ltb64 item.timestamp thold then stats else record stats {
        in_bytes = add64 stats.in_bytes item.in_bytes;
        out_bytes = add64 stats.out_bytes item.out_bytes;
      })
      ring

-- The first second of the window: `time.Now().Add(-time.Duration(sec) * time.Second).Unix()`.
abbrev pub threshold : Int64 → Time → Int64
threshold sec clock = unix (add_time clock (mul64 (neg64 sec) second))

-- `analyseStats`
unfoldable pub analyse_stats : Process → Int64 → Time → Process
analyse_stats p sec clock =
    let stats = sum_window (threshold sec clock) new_stats p.ring in
    if sec == 0 then p else record p {
      traffic_stats = some (record stats {
        in_rate = quot64 stats.in_bytes sec;
        out_rate = quot64 stats.out_bytes sec;
      });
    }

-- `s[1:]`
abbrev pub tail : List TrafficEntry → List TrafficEntry
tail [] = []
tail (e ∷ ring) = ring

-- `shrink`
unfoldable pub shrink : Process → Process
shrink po = if leb max_ring_size (length po.ring) then record po { ring = tail po.ring } else po

-- The end of `IncreaseInput` and `IncreaseOutput`: the last entry is updated if it is of the same
-- second, and `item` is appended if not. (An empty ring does not reach it: `shrink` leaves 60.)
unfoldable pub note_last :
    (TrafficEntry → TrafficEntry) → TrafficEntry → List TrafficEntry → List TrafficEntry
note_last update item [] = []
note_last update item (e ∷ []) =
    if e.timestamp == item.timestamp then update e ∷ [] else e ∷ item ∷ []
note_last update item (e ∷ f ∷ ring) = e ∷ note_last update item (f ∷ ring)

-- `IncreaseInput`
unfoldable pub increase_input : Process → Int64 → Time → Process
increase_input po n clock =
    let item : TrafficEntry = record { timestamp = unix clock; in_bytes = n; out_bytes = 0 } in
    let po' = shrink po in
    if length po.ring == 0 then record po { ring = po.ring ++ item ∷ [] } else record po' {
      ring = note_last (λ e. record e { in_bytes = add64 e.in_bytes n }) item po'.ring;
    }

-- `IncreaseOutput`
unfoldable pub increase_output : Process → Int64 → Time → Process
increase_output po n clock =
    let item : TrafficEntry = record { timestamp = unix clock; in_bytes = 0; out_bytes = n } in
    let po' = shrink po in
    if length po.ring == 0 then record po { ring = po.ring ++ item ∷ [] } else record po' {
      ring = note_last (λ e. record e { out_bytes = add64 e.out_bytes n }) item po'.ring;
    }

-- `copy`: `none` is the nil dereference when the process has no statistics.
unfoldable pub copy : Process → Option Process
copy p = elim p.traffic_stats [
  | none ↦ none
  | some stats ↦ some (record {
    name = p.name;
    pid = p.pid;
    exe = p.exe;
    state = p.state;
    inode_count = p.inode_count;
    traffic_stats = some (record stats { input_ewma = 0; output_ewma = 0 });
    ring = p.ring;
    inodes = [];
    revision = 0;
  })
]

-- `sideOption` of netflow.go
pub data SideOption : Type 0 where
  input_side output_side : SideOption

-- `increaseProcessTraffic` of netflow.go, on the process that its pointer reaches
unfoldable pub increase_process_traffic : Process → Int64 → SideOption → Time → Process
increase_process_traffic proc length input_side clock = increase_input proc length clock
increase_process_traffic proc length output_side clock = increase_output proc length clock
