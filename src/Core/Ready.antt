-- ===== src/Core/Ready.antt =====
-- A ranking has only processes that `showTable` can read.
use go_netflow.Base.{
  ◌≡◌, Bool, some, List, [], ◌∷◌, if◌then◌else◌, arith, All, length, get_elem?, Option-cases,
  Bool-cases, inl, inr, ltb, take, subst,
}
use go_netflow.Base.Int64.{Int64, Time, ltb64}
use go_netflow.Traffic.{Process, TrafficStatsEntry, max_ring_size}
use go_netflow.Traffic
use go_netflow.Controller.{Controller, Ptr, copies, get_rank, sort}
use go_netflow.Controller.Rank.{Ready}
use go_netflow.Netflow.{Netflow}
use go_netflow.Netflow.Rank.{ranking, get_process_rank}

copies-Ready :
    (heap res : List Process) (src : List Ptr) → copies heap src ≡ some res → All (Ready heap) src
unfolding copies Traffic.copy
copies-Ready heap res [] e = tt
copies-Ready heap res (x ∷ src) e = elim (Option-cases (get_elem? heap x)) [
  | inl n ↦ absurd (ground (arith, e, n))
  | inr (p, here) ↦ elim (Option-cases p.traffic_stats) [
    | inl n ↦ absurd (ground (arith, e, here, n))
    | inr (stats, has) ↦ elim (Option-cases (copies heap src)) [
      | inl n ↦ absurd (ground (arith, e, here, has, n))
      | inr (rest, f) ↦ ((p, stats, here, has), copies-Ready heap rest src f)
    ]
  ]
]

get_rank-Ready :
    (pm : Controller) (limit : Int64) (ps : List Ptr)
    → get_rank pm limit ≡ some ps
    → All (Ready pm.heap) ps
unfolding get_rank
get_rank-Ready pm limit ps e =
    let src : List Ptr =
      (if ltb limit (length pm.sorted_processes)
        then take limit pm.sorted_processes
        else pm.sorted_processes) in
    elim (Option-cases (copies pm.heap src)) [
      | inl n ↦ absurd (ground (arith, e, n))
      | inr (res, f) ↦
          let same : src ≡ ps = ground (arith, e, f) in
          subst (All (Ready pm.heap)) same (copies-Ready pm.heap res src f)
    ]

-- The processes of a ranking are in the heap, and have statistics.
pub get_process_rank-Ready :
    (sort_by : (Ptr → Ptr → Bool) → List Ptr → List Ptr) (nf nf' : Netflow) (limit sec : Int64)
    (clock : Ptr → Time) (ps : List Ptr)
    → get_process_rank sort_by nf limit sec clock ≡ some (ranking ps, nf')
    → All (Ready nf'.process_hash.heap) ps
unfolding get_process_rank
get_process_rank-Ready sort_by nf nf' limit sec clock ps e =
    let pm' = sort sort_by nf.process_hash sec clock in
    elim (Bool-cases (ltb64 max_ring_size sec)) [
      | inl long ↦ absurd (ground (arith, long, e))
      | inr short ↦ elim (Option-cases (get_rank pm' limit)) [
        | inl n ↦ absurd (ground (arith, short, n, e))
        | inr (qs, f) ↦
            let same : qs ≡ ps = ground (arith, short, f, e) in
            let next : pm' ≡ nf'.process_hash = ground (arith, short, f, e) in
            subst (λ (pm : Controller). All (Ready pm.heap) ps) next
              (subst (All (Ready pm'.heap)) same (get_rank-Ready pm' limit qs f))
      ]
    ]
