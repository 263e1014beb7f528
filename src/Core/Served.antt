-- ===== src/Core/Served.antt =====
-- What `showTable` of core2/blocking.go reports in all its ticks, beside what the port has sent.
use go_netflow.Base.{
  ℕ, suc, ◌+◌, ◌*◌, ◌/◌, ◌≤◌, ◌<◌, ◌≡◌, refl, ap, subst, Bool, Option, false, none, some, List, [],
  ◌∷◌, arith, All, length,
}
use native.Mathlib.Nat.{mul-add}
use go_netflow.Rpc.{Reply}
use mathlib.Core.Option.{some-injective}
use go_netflow.Base.Bytes.{Bytes, codes}
use go_netflow.Base.Int64.{Int64, half64}
use go_netflow.Traffic.{Process}
use go_netflow.Controller.Rank.{Ready}
use go_netflow.Upload.{
  Created, fails, NetInterface, Run, new_traffic_monitor, TrafficMonitor, get_upload_traffic, makes,
  read,
}
use go_netflow.Upload
use go_netflow.Upload.Conserved.{bytes, in_hand, sum, reads-conserved}
use go_netflow.Core.Report.{Table}
use go_netflow.Core.Outgoing.{upload_round}
use go_netflow.Core.Uploaded.{upload_round_lem}
use go_netflow.Core.Serving.{
  Call, Serving, started, show_upload, read_traffic, Step, captures, tick, crash, Reach, here, next,
}
use go_netflow.Core.Ticks.{rows, upload_round-inv, out_sum_lem, Step-sent, small_rows, rows_le}

-- The rates of some reads.
unfoldable pub rates_of : List Int64 → ℕ
rates_of [] = 0
rates_of (n ∷ ns) = n / 60 + rates_of ns

-- What holds after any steps from `tm`, unless the rates overflow.
record IsServed {D : Type 0} (call : Call D) (tm : TrafficMonitor) (s : Serving D) : Type 0 where
  runs : Upload.Reach (Upload.launch tm) s.traffic
  ready : All (Ready s.heap) call.shown
  alive : s.crashed ≡ false
  same : sum s.rates ≡ rows call.shown * rates_of s.traffic.reads
  count : length s.rates ≡ length s.traffic.reads

module _ {D : Type 0} (call : Call D) (ifaces : Option (List NetInterface))
    (open_live set_filter : Bytes → Bool) (device port : Bytes) (tm : TrafficMonitor)
    (made : new_traffic_monitor ifaces open_live set_filter device port ≡ makes tm) where
  tick_lem :
      (s : Serving D) (timestamp : Int64) {heap' : List Process} {monitor' : TrafficMonitor}
      {table : Table} {reply : Reply D}
      → upload_round call.printer call.transport call.encode call.config s.heap call.shown
          s.traffic.monitor timestamp
        ≡ some (heap', monitor', table, reply)
      → rows call.shown * bytes s.traffic.sent < half64
      → IsServed call tm s
      → IsServed call tm (record s {
        traffic = read_traffic s.traffic monitor';
        heap = heap';
        rates = table.rate_out ∷ s.rates;
        replies = reply ∷ s.replies;
      })
  unfolding read_traffic get_upload_traffic sum rates_of
  tick_lem s timestamp e h v =
      let (same, rate, ready) =
        upload_round-inv call s.heap s.traffic.monitor timestamp v.ready e in
      let known = small_rows call.shown (bytes s.traffic.sent) in
      let pending : s.traffic.monitor.total_tx_bytes ≤ bytes s.traffic.sent = omega (
        arith,
        (reads-conserved ifaces open_live set_filter device port tm made v.runs
            (omega (arith, known, h))).0,
      ) in
      record {
        runs =
            subst (λ m. Upload.Reach (Upload.launch tm) (read_traffic s.traffic m)) same
              (Upload.next v.runs read);
        ready = ready;
        alive = v.alive;
        same = omega (
          arith,
          rate,
          out_sum_lem call.shown s.traffic.monitor.total_tx_bytes (bytes s.traffic.sent) pending h,
          v.same,
          mul-add (rows call.shown) (s.traffic.monitor.total_tx_bytes / 60)
              (rates_of s.traffic.reads),
        );
        count = ap suc v.count;
      }

  Step-IsServed :
      {s t : Serving D}
      → Step call s t
      → rows call.shown * bytes s.traffic.sent < half64
      → IsServed call tm s
      → IsServed call tm t
  Step-IsServed {s} (captures run n st e) h v = record {
    runs = Upload.next v.runs st;
    ready = v.ready;
    alive = v.alive;
    same = rw e v.same;
    count = rw e v.count;
  }
  Step-IsServed {s} (tick timestamp heap' monitor' table reply n e) h v = tick_lem s timestamp e h v
  Step-IsServed {s} (crash timestamp n e) h v =
      let (last, t, e') =
        upload_round_lem call.printer call.transport call.encode call.config s.heap call.shown
          s.traffic.monitor timestamp v.ready in
      absurd (ground (arith, e, e'))

  Reach-IsServed :
      {s t : Serving D}
      → Reach call s t
      → rows call.shown * bytes t.traffic.sent < half64
      → IsServed call tm s
      → IsServed call tm t
  Reach-IsServed here h v = v
  Reach-IsServed (next r st) h v =
      let before = rows_le call.shown _ _ (Step-sent st) h in
      Step-IsServed st before (Reach-IsServed r before v)

show_upload-inv :
    {D : Type 0} (ifaces : Option (List NetInterface)) (open_live set_filter : Bytes → Bool)
    (heap : List Process) {s : Serving D}
    → show_upload ifaces open_live set_filter heap ≡ some s
    → (tm : TrafficMonitor) × (new_traffic_monitor ifaces open_live set_filter [] (codes "9080")
        ≡ makes tm)
      × (started tm heap ≡ s)
unfolding show_upload
show_upload-inv ifaces open_live set_filter heap {s} e =
    go (new_traffic_monitor ifaces open_live set_filter [] (codes "9080")) refl e
  where
    go :
        (c : Created)
        → new_traffic_monitor ifaces open_live set_filter [] (codes "9080") ≡ c
        → (elim c [ fails x ↦ none | makes tm ↦ some (started tm heap) ]) ≡ some s
        → (tm : TrafficMonitor) × (new_traffic_monitor ifaces open_live set_filter [] (codes "9080")
            ≡ makes tm)
          × (started tm heap ≡ s)
    go (fails x) made h = absurd (ground (arith, h))
    go (makes tm) made h = (tm, made, some-injective _ _ h)

-- A rate forgets less than 60 bytes of a read.
rates_of_lem :
    (ns : List Int64) → (60 * rates_of ns ≤ sum ns) × (sum ns ≤ 60 * rates_of ns + 59 * length ns)
unfolding rates_of sum
rates_of_lem [] = (omega arith, omega arith)
rates_of_lem (n ∷ ns) = let (a, b) = rates_of_lem ns in (omega (arith, a), omega (arith, b))

-- `showTable` of core2/blocking.go, called on processes that have statistics: no tick crashes, and
-- what it reports as the rate out is the rate of the port in every row.
pub rates-served :
    {D : Type 0} (call : Call D) (ifaces : Option (List NetInterface))
    (open_live set_filter : Bytes → Bool) (heap : List Process) {s t : Serving D}
    → All (Ready heap) call.shown
    → show_upload ifaces open_live set_filter heap ≡ some s
    → Reach call s t
    → rows call.shown * bytes t.traffic.sent < half64
    → (t.crashed ≡ false)
      × ((q : ℕ) × (sum t.rates ≡ rows call.shown * q)
          × (60 * q ≤ bytes t.traffic.sent)
          × (bytes t.traffic.sent
              ≤ 60 * q
                + 59 * length t.rates
                + (t.traffic.monitor.total_tx_bytes
                    + in_hand t.traffic.hand
                    + bytes t.traffic.monitor.packet_chan.items)))
unfolding sum rates_of
rates-served call ifaces open_live set_filter heap {s} {t} r e reach h =
    let (tm, made, same) = show_upload-inv ifaces open_live set_filter heap e in
    let v = Reach-IsServed call ifaces open_live set_filter [] (codes "9080") tm made reach h (
      subst (IsServed call tm) same (record {
        runs = Upload.here;
        ready = r;
        alive = refl;
        same = omega arith;
        count = refl;
      })) in
    let (low, high) = rates_of_lem t.traffic.reads in
    let small = small_rows call.shown (bytes t.traffic.sent) in
    let kept =
      (reads-conserved ifaces open_live set_filter [] (codes "9080") tm made v.runs
        (omega (arith, small, h))).0 in
    (
      v.alive,
      (
        rates_of t.traffic.reads,
        v.same,
        omega (arith, kept, low),
        omega (arith, kept, high, v.count),
      ),
    )
