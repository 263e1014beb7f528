-- ===== src/Core/Ticks.antt =====
-- A tick of `showTable` of core2/blocking.go: its inversion, and the bounds of its rate.
use go_netflow.Base.{
  ℕ, suc, ◌%◌, ◌*◌, ◌/◌, ◌≤◌, ◌<◌, ◌≡◌, refl, sym, ap, ◌∙◌, subst, some, List, [], ◌∷◌, arith, All,
  length,
}
use native.Mathlib.Nat.{mul-le-mul_left}
use go_netflow.Rpc.{Reply}
use mathlib.Core.Option.{some-injective}
use go_netflow.Base.Int64.{Int64, half64, mod64, quot64}
use go_netflow.Traffic.{Process}
use go_netflow.Controller.{Ptr}
use go_netflow.Controller.Rank.{Ready}
use go_netflow.Upload.{TrafficMonitor, get_upload_traffic}
use go_netflow.Upload.Conserved.{bytes, Step-bytes}
use go_netflow.Core.Report.{Printer, Table, report_handler}
use go_netflow.Core.Outgoing.{upload_rows, upload_table, upload_round}
use go_netflow.Core.Uploaded.{
  written, written-All, upload_rows-cons, upload_table-cons, upload_table_lem, out_sum,
}
use go_netflow.Core.Serving.{Call, Serving, read_traffic, Step, captures, tick, crash}

-- How many rows of the table have the rate of the port.
abbrev pub rows : List Ptr → ℕ
rows [] = 1
rows (x ∷ ps) = length (x ∷ ps)

upload_rows-Ready :
    (pr : Printer) (out_rate : Int64) (heap : List Process) (ps zs : List Ptr) (table : Table)
    {heap' : List Process} {t : Table}
    → All (Ready heap) ps
    → All (Ready heap) zs
    → upload_rows pr out_rate heap ps table ≡ some (heap', t)
    → All (Ready heap') zs
unfolding upload_rows
upload_rows-Ready pr out_rate heap [] zs table r rz e =
    subst (λ h. All (Ready h) zs) (ap (λ x. x.0) (some-injective _ _ e)) rz
upload_rows-Ready pr out_rate heap (x ∷ ps) zs table ((p, stats, found, has), r) rz e =
    upload_rows-Ready pr out_rate (written heap x p stats out_rate) ps zs _
      (written-All heap x p stats out_rate found has ps r)
      (written-All heap x p stats out_rate found has zs rz)
      (sym (upload_rows-cons pr out_rate heap x ps table p stats found has) ∙ e)

upload_table-Ready :
    (pr : Printer) (upload : Int64) (heap : List Process) (ps : List Ptr) {heap' : List Process}
    {t : Table}
    → All (Ready heap) ps
    → upload_table pr upload heap ps ≡ some (heap', t)
    → All (Ready heap') ps
upload_table-Ready pr upload heap [] r e = tt
upload_table-Ready pr upload heap (x ∷ ps) r e =
    upload_rows-Ready pr (quot64 upload 60) heap (x ∷ ps) (x ∷ ps) _ r r
      (sym (upload_table-cons pr upload heap x ps) ∙ e)

upload_round-made :
    {D : Type 0} (call : Call D) (heap : List Process) (monitor : TrafficMonitor)
    (timestamp : Int64) {last : List Process} {t : Table}
    → upload_table call.printer monitor.total_tx_bytes heap call.shown ≡ some (last, t)
    → upload_round call.printer call.transport call.encode call.config heap call.shown monitor
        timestamp
      ≡ some (
        last,
        record monitor { total_tx_bytes = 0 },
        t,
        report_handler call.printer call.transport call.encode call.config t.rate_in t.rate_out
            timestamp,
      )
unfolding upload_round get_upload_traffic
upload_round-made call heap monitor timestamp made = rw (upload_round, made) refl

pub upload_round-inv :
    {D : Type 0} (call : Call D) (heap : List Process) (monitor : TrafficMonitor)
    (timestamp : Int64) {heap' : List Process} {monitor' : TrafficMonitor} {table : Table}
    {reply : Reply D}
    → All (Ready heap) call.shown
    → upload_round call.printer call.transport call.encode call.config heap call.shown monitor
        timestamp
      ≡ some (heap', monitor', table, reply)
    → (record monitor { total_tx_bytes = 0 } ≡ monitor')
      × (table.rate_out ≡ out_sum monitor.total_tx_bytes call.shown)
      × All (Ready heap') call.shown
upload_round-inv call heap monitor timestamp r e =
    let (last, t, made, ins, outs) =
      upload_table_lem call.printer monitor.total_tx_bytes heap call.shown r in
    let same = some-injective _ _ (sym (upload_round-made call heap monitor timestamp made) ∙ e) in
    (
      ap (λ x. x.1) same,
      sym (ap (λ x. x.2.rate_out) same) ∙ outs,
      subst (λ h. All (Ready h) call.shown) (ap (λ x. x.0) same)
          (upload_table-Ready call.printer monitor.total_tx_bytes heap call.shown r made),
    )

quot64_lem : (n : ℕ) → n < half64 → quot64 n 60 ≡ n / 60
unfolding quot64
quot64_lem n h = ground (arith, h)

small : (n b : ℕ) → b ≤ suc n * b
small n b = omega arith

-- A rate does not wrap around if that of all bytes does not.
pub out_sum_lem :
    (ps : List Ptr) (upload b : ℕ)
    → upload ≤ b
    → rows ps * b < half64
    → out_sum upload ps ≡ rows ps * (upload / 60)
out_sum_lem [] upload b u h = omega (arith, quot64_lem upload (omega (arith, u, h)))
out_sum_lem (x ∷ ps) upload b u h =
    let q = quot64_lem upload (omega (arith, u, h, small (length ps) b)) in
    let m : suc (length ps) * (upload / 60) ≤ suc (length ps) * b =
      mul-le-mul_left (suc (length ps)) (omega (arith, u)) in
    ap (λ n. (suc (length ps) * n) % mod64) q ∙ omega (arith, m, h)

pub Step-sent :
    {D : Type 0} {call : Call D} {s t : Serving D}
    → Step call s t
    → bytes s.traffic.sent ≤ bytes t.traffic.sent
unfolding read_traffic
Step-sent (captures run n st e) = Step-bytes st
Step-sent (tick timestamp heap' monitor' table reply n e) = omega arith
Step-sent (crash timestamp n e) = omega arith

pub small_rows : (ps : List Ptr) (b : ℕ) → b ≤ rows ps * b
small_rows [] b = omega arith
small_rows (x ∷ ps) b = small (length ps) b

pub rows_le : (ps : List Ptr) (a b : ℕ) → a ≤ b → rows ps * b < half64 → rows ps * a < half64
rows_le ps a b h k =
    let more : rows ps * a ≤ rows ps * b = mul-le-mul_left (rows ps) h in omega (arith, more, k)
