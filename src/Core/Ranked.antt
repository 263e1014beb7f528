-- ===== src/Core/Ranked.antt =====
-- A ranking of core2/blocking.go with all the ticks of the `showTable` that it calls.
mod Tests
use go_netflow.Base.{
  ◌+◌, ◌*◌, ◌≤◌, ◌<◌, ◌≡◌, refl, sym, ap, ap₂, ◌∙◌, length-take-le, Bool, true, false, Option, none,
  some, List, [], ◌∷◌, arith, All, length, if◌then◌else◌, ltb, take, Bool-cases, Option-cases, inl,
  inr, subst,
}
use mathlib.Core.Option.{some-injective}
use go_netflow.Base.Bytes.{Bytes}
use go_netflow.Base.Int64.{Int64, Time, half64, ltb64}
use go_netflow.Traffic.{max_ring_size}
use go_netflow.Controller.{Controller, Ptr, get_rank, copies, sort}
use go_netflow.Controller.Rank.{Ready}
use go_netflow.Netflow.{Netflow}
use go_netflow.Netflow.Rank.{Ranking, invalid_window, ranking, get_process_rank}
use go_netflow.Upload.{NetInterface}
use go_netflow.Upload.Conserved.{bytes, in_hand, sum}
use go_netflow.Core.Ready.{get_process_rank-Ready}
use go_netflow.Core.Serving.{Call, Serving, show_upload, rank_upload, Reach}
use go_netflow.Core.Ticks.{rows}
use go_netflow.Core.Served.{rates-served}

length-get_rank : (pm : Controller) (ps : List Ptr) → get_rank pm 1 ≡ some ps → length ps ≤ 1
unfolding get_rank
length-get_rank pm ps e = elim (Bool-cases (ltb 1 (length pm.sorted_processes))) [
  | inl long ↦ elim (Option-cases (copies pm.heap (take 1 pm.sorted_processes))) [
    | inl n ↦ absurd (ground (arith, e, long, n))
    | inr (res, f) ↦
        let same : take 1 pm.sorted_processes ≡ ps = ground (arith, e, long, f) in
        subst (λ xs. length xs ≤ 1) same (length-take-le 1 pm.sorted_processes)
  ]
  | inr short ↦ elim (Option-cases (copies pm.heap pm.sorted_processes)) [
    | inl n ↦ absurd (ground (arith, e, short, n))
    | inr (res, f) ↦
        let same : pm.sorted_processes ≡ ps = ground (arith, e, short, f) in
        subst (λ xs. length xs ≤ 1) same (ground (arith, short))
  ]
]

length-get_process_rank :
    (sort_by : (Ptr → Ptr → Bool) → List Ptr → List Ptr) (nf nf' : Netflow) (sec : Int64)
    (clock : Ptr → Time) (ps : List Ptr)
    → get_process_rank sort_by nf 1 sec clock ≡ some (ranking ps, nf')
    → length ps ≤ 1
unfolding get_process_rank
length-get_process_rank sort_by nf nf' sec clock ps e =
    let pm' = sort sort_by nf.process_hash sec clock in
    elim (Bool-cases (ltb64 max_ring_size sec)) [
      | inl long ↦ absurd (ground (arith, long, e))
      | inr short ↦ elim (Option-cases (get_rank pm' 1)) [
        | inl n ↦ absurd (ground (arith, short, n, e))
        | inr (qs, f) ↦
            let same : qs ≡ ps = ground (arith, short, f, e) in
            subst (λ xs. length xs ≤ 1) same (length-get_rank pm' qs f)
      ]
    ]

rows_one : (ps : List Ptr) → length ps ≤ 1 → rows ps ≡ 1
rows_one [] h = refl
rows_one (x ∷ ps) h = omega (arith, h)

rank_upload-inv :
    {D : Type 0} (sort_by : (Ptr → Ptr → Bool) → List Ptr → List Ptr)
    (ifaces : Option (List NetInterface)) (open_live set_filter : Bytes → Bool) (nf nf' : Netflow)
    (clock : Ptr → Time) (ps : List Ptr) (s : Serving D)
    → rank_upload sort_by ifaces open_live set_filter nf clock ≡ some (nf', some (ps, some s))
    → (get_process_rank sort_by nf 1 60 clock ≡ some (ranking ps, nf'))
      × (show_upload ifaces open_live set_filter nf'.process_hash.heap ≡ some s)
unfolding rank_upload
rank_upload-inv {D} sort_by ifaces open_live set_filter nf nf' clock ps s e =
    elim (Option-cases (get_process_rank sort_by nf 1 60 clock)) [
      | inl n ↦ absurd (ground (arith, n, e))
      | inr ((invalid_window, last), f) ↦ absurd (ground (arith, f, e))
      | inr ((ranking qs, last), f) ↦
          let step : some
                (last, some (qs, show_upload ifaces open_live set_filter last.process_hash.heap))
              ≡ some (nf', some (ps, some s)) =
            sym (rw (rank_upload, f) refl) ∙ e in
          let pair = some-injective _ _ step in
          let last_lem = ap (λ x. x.0) pair in
          let rest = some-injective _ _ (ap (λ x. x.1) pair) in
          (
            f ∙ ap₂ (λ q n. some (ranking q, n)) (ap (λ x. x.0) rest) last_lem,
            subst (λ n. show_upload ifaces open_live set_filter n.process_hash.heap ≡ some s)
                last_lem (ap (λ x. x.1) rest),
          )
    ]

-- A ranking of core2/blocking.go that gets to the loop of `showTable`, and any ticks of it, whatever
-- the order in which the goroutines of its monitor run in between, for the packets with a network
-- and a transport layer: as long as fewer than 2 ^ 63 bytes of them came in, no tick crashes; and 60
-- times the sum of all rates out that it reported is at most these bytes, and falls short of them by
-- at most 59 bytes a tick and the bytes not read yet: counted, in hand and waiting.
pub rates-ranked :
    {D : Type 0} (call : Call D) (sort_by : (Ptr → Ptr → Bool) → List Ptr → List Ptr)
    (ifaces : Option (List NetInterface)) (open_live set_filter : Bytes → Bool) (nf nf' : Netflow)
    (clock : Ptr → Time) (ps : List Ptr) {s t : Serving D}
    → rank_upload sort_by ifaces open_live set_filter nf clock ≡ some (nf', some (ps, some s))
    → Reach (record call { shown = ps }) s t
    → bytes t.traffic.sent < half64
    → (t.crashed ≡ false)
      × (60 * sum t.rates ≤ bytes t.traffic.sent)
      × (bytes t.traffic.sent
          ≤ 60 * sum t.rates
            + 59 * length t.rates
            + (t.traffic.monitor.total_tx_bytes
                + in_hand t.traffic.hand
                + bytes t.traffic.monitor.packet_chan.items))
rates-ranked call sort_by ifaces open_live set_filter nf nf' clock ps {s} e reach h =
    let (ranked, shown) = rank_upload-inv sort_by ifaces open_live set_filter nf nf' clock ps s e in
    let one = rows_one ps (length-get_process_rank sort_by nf nf' 60 clock ps ranked) in
    let (alive, (q, total, low, high)) =
      rates-served (record call { shown = ps }) ifaces open_live set_filter nf'.process_hash.heap
        (get_process_rank-Ready sort_by nf nf' 1 60 clock ps ranked) shown reach
        (rw one (omega (arith, h))) in
    let same : sum _ ≡ q = total ∙ rw one (omega arith) in
    (alive, omega (arith, same, low), omega (arith, same, high))
