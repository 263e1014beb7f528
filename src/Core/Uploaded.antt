-- ===== src/Core/Uploaded.antt =====
-- What a tick of `showTable` of core2/blocking.go reports.
use go_netflow.Base.{
  ℕ, ◌+◌, ◌*◌, ◌%◌, ◌<◌, ◌≡◌, refl, ap, ap₂, ◌∙◌, false, some, List, [], ◌∷◌, arith, All, length,
  get_elem?, set, ==_iff, Bool-cases, inl, inr, ◌==◌, get_elem?-set_self, get_elem?-set_ne,
  get_elem?_lt,
}
use native.Mathlib.Nat.{suc-mul}
use go_netflow.Base.Bytes.{Bytes}
use go_netflow.Base.Int64.{Int64, mod64, quot64}
use go_netflow.Traffic.{Process, TrafficStatsEntry}
use go_netflow.Controller.{Ptr}
use go_netflow.Controller.Rank.{Ready}
use go_netflow.Upload.{TrafficMonitor, get_upload_traffic}
use go_netflow.Rpc.Define.{MonitorInfo}
use go_netflow.Rpc.Client.{Transport}
use go_netflow.Rpc.Calls.{answer}
use go_netflow.Core.{Config}
use go_netflow.Core.Report.{Printer, Table, add_row}
use go_netflow.Core.Reported.{report_request, report_handler_lem, total, total-cons, rate_of}
use go_netflow.Core.Outgoing.{server_row, upload_rows, upload_table, upload_round}

-- The heap after the rate of a process is written.
abbrev pub written : List Process → Ptr → Process → TrafficStatsEntry → Int64 → List Process
written heap x p stats out_rate =
    set heap x (record p { traffic_stats = some (record stats { out_rate = out_rate }) })

module _ (heap : List Process) (x : Ptr) (p : Process) (stats : TrafficStatsEntry)
    (out_rate : Int64) (here : get_elem? heap x ≡ some p) (has : p.traffic_stats ≡ some stats) where
  written-Ready : (y : Ptr) → Ready heap y → Ready (written heap x p stats out_rate) y
  written-Ready y (q, s, found, s_has) = elim (Bool-cases (x == y)) [
    | inl e ↦ (
      record p { traffic_stats = some (record stats { out_rate = out_rate }) },
      record stats { out_rate = out_rate },
      rw⁻¹ ((==_iff x y).0 e) (get_elem?-set_self heap x _ (get_elem?_lt heap x here)),
      refl,
    )
    | inr n ↦
        (q, s, get_elem?-set_ne heap x y _ (λ e. absurd (ground (arith, n, e))) ∙ found, s_has)
  ]

  written-rate :
      (y : Ptr)
      → rate_of (λ s. s.in_rate) (written heap x p stats out_rate) y
        ≡ rate_of (λ s. s.in_rate) heap y
  written-rate y = elim (Bool-cases (x == y)) [
    | inl e ↦ rw⁻¹ ((==_iff x y).0 e) (
        ground (
          arith,
          here,
          has,
          get_elem?-set_self heap x
              (record p { traffic_stats = some (record stats { out_rate = out_rate }) })
              (get_elem?_lt heap x here),
        ))
    | inr n ↦ ground (
      arith,
      get_elem?-set_ne heap x y
          (record p { traffic_stats = some (record stats { out_rate = out_rate }) })
          (λ e. absurd (ground (arith, n, e))),
    )
  ]

  written-total :
      (ys : List Ptr)
      → total (λ s. s.in_rate) (written heap x p stats out_rate) ys ≡ total (λ s. s.in_rate) heap ys
  unfolding total
  written-total [] = refl
  written-total (y ∷ ys) = ap₂ (λ a b. a + b) (written-rate y) (written-total ys)

  pub written-All :
      (ys : List Ptr) → All (Ready heap) ys → All (Ready (written heap x p stats out_rate)) ys
  written-All [] r = tt
  written-All (y ∷ ys) (r, rs) = (written-Ready y r, written-All ys rs)

pub upload_rows-cons :
    (pr : Printer) (out_rate : Int64) (heap : List Process) (x : Ptr) (ps : List Ptr)
    (table : Table) (p : Process) (stats : TrafficStatsEntry)
    → get_elem? heap x ≡ some p
    → p.traffic_stats ≡ some stats
    → upload_rows pr out_rate heap (x ∷ ps) table
      ≡ upload_rows pr out_rate
          (written heap x p stats out_rate)
          ps
          (add_row pr table p (record stats { out_rate = out_rate }))
unfolding upload_rows
upload_rows-cons pr out_rate heap x ps table p stats here has = ground (arith, here, has)

upload_rows_lem :
    (pr : Printer) (out_rate : Int64) (heap : List Process) (ps : List Ptr) (table : Table)
    → All (Ready heap) ps
    → table.rate_in < mod64
    → table.rate_out < mod64
    → (heap' : List Process) × (t : Table) × (upload_rows pr out_rate heap ps table
        ≡ some (heap', t))
      × (t.rate_in ≡ (table.rate_in + total (λ s. s.in_rate) heap ps) % mod64)
      × (t.rate_out ≡ (table.rate_out + length ps * out_rate) % mod64)
unfolding upload_rows total add_row
upload_rows_lem pr out_rate heap [] table r h k =
    (heap, table, refl, omega (arith, h), omega (arith, k))
upload_rows_lem pr out_rate heap (x ∷ ps) table ((p, stats, here, has), r) h k =
    let heap' = written heap x p stats out_rate in
    let (last, t, e, in_rate, outs) =
      upload_rows_lem pr out_rate heap' ps
        (add_row pr table p (record stats { out_rate = out_rate }))
        (written-All heap x p stats out_rate here has ps r) (omega arith) (omega arith) in
    (
      last,
      t,
      upload_rows-cons pr out_rate heap x ps table p stats here has ∙ e,
      omega (
        arith,
        in_rate,
        total-cons (λ s. s.in_rate) heap x ps p stats here has,
        written-total heap x p stats out_rate here has ps,
      ),
      omega (arith, outs, suc-mul (length ps) out_rate),
    )

-- What is reported as the rate out: that of the port, once for each process that is shown, or once
-- if none is.
abbrev pub out_sum : Int64 → List Ptr → ℕ
out_sum upload [] = quot64 upload 60
out_sum upload (x ∷ ps) = (length (x ∷ ps) * quot64 upload 60) % mod64

pub upload_table-cons :
    (pr : Printer) (upload : Int64) (heap : List Process) (x : Ptr) (ps : List Ptr)
    → upload_table pr upload heap (x ∷ ps)
      ≡ upload_rows pr
          (quot64 upload 60)
          heap
          (x ∷ ps)
          (record { items = []; rate_in = 0; rate_out = 0 })
unfolding upload_table
upload_table-cons pr upload heap x ps = ground arith

zero_plus : (n : ℕ) → (0 + n) % mod64 ≡ n % mod64
zero_plus n = omega arith

pub upload_table_lem :
    (pr : Printer) (upload : Int64) (heap : List Process) (ps : List Ptr)
    → All (Ready heap) ps
    → (heap' : List Process) × (t : Table) × (upload_table pr upload heap ps ≡ some (heap', t))
      × (t.rate_in ≡ total (λ s. s.in_rate) heap ps % mod64)
      × (t.rate_out ≡ out_sum upload ps)
unfolding upload_table server_row total
upload_table_lem pr upload heap [] r =
    (heap, server_row pr (quot64 upload 60), refl, omega arith, refl)
upload_table_lem pr upload heap (x ∷ ps) r =
    let (last, t, e, ins, outs) =
      upload_rows_lem pr (quot64 upload 60) heap (x ∷ ps)
        (record { items = []; rate_in = 0; rate_out = 0 }) r (omega arith) (omega arith) in
    (last, t, upload_table-cons pr upload heap x ps ∙ e, ins ∙ zero_plus _, outs ∙ zero_plus _)

-- A tick of `showTable` on processes that have statistics does not panic: the request that it sends
-- has the rates in that the processes had, and out of the bytes since the last tick a sixtieth for
-- each process that is shown, or once if none is, modulo 2 ^ 64; the counter starts again from 0.
pub upload_round_lem :
    {D : Type 0} (pr : Printer) (tr : Transport D) (encode : List MonitorInfo → Bytes) (c : Config)
    (heap : List Process) (ps : List Ptr) (monitor : TrafficMonitor) (timestamp : Int64)
    → All (Ready heap) ps
    → (heap' : List Process) × (t : Table) × (upload_round pr tr encode c heap ps monitor timestamp
        ≡ some (
          heap',
          record monitor { total_tx_bytes = 0 },
          t,
          answer tr false (
              report_request pr tr encode c
                (total (λ s. s.in_rate) heap ps % mod64)
                (out_sum monitor.total_tx_bytes ps)
                timestamp),
        ))
unfolding upload_round get_upload_traffic
upload_round_lem pr tr encode c heap ps monitor timestamp r =
    let (last, t, e, ins, outs) = upload_table_lem pr monitor.total_tx_bytes heap ps r in
    let replied =
      report_handler_lem pr tr encode c t.rate_in t.rate_out timestamp
      ∙ ap₂ (λ a b. answer tr false (report_request pr tr encode c a b timestamp)) ins outs in
    (
      last,
      t,
      rw (upload_round, e)
          (ap (λ x. some (last, record monitor { total_tx_bytes = 0 }, t, x)) replied),
    )
