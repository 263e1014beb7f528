-- ===== src/Netflow/Rank.antt =====
-- netflow.go: `GetProcessRank`, the ranking that the program asks for.
use go_netflow.Base.{
  ℕ, zero, suc, ◌≤◌, ◌<◌, ◌≡◌, ◌≢◌, refl, ◌⊎◌, inl, inr, Bool, true, false, Option, none, some,
  List, [], ◌∷◌, if◌then◌else◌, All, length, take, length-take-le, Bool-cases,
}
use go_netflow.Base.Int64.{Int64, Time, ltb64, half64}
use go_netflow.Traffic.{max_ring_size}
use go_netflow.Controller.{Ptr, sort, get_rank}
use go_netflow.Controller.Refresh.{IsController}
use go_netflow.Controller.Rank.{IsSort, key, Descending, get_rank-sort-key}
use go_netflow.Netflow.{Netflow}

-- The answers of `GetProcessRank`: the error of a window that is too long, and the ranking.
pub data Ranking : Type 0 where
  invalid_window : Ranking
  ranking : List Ptr → Ranking

-- `GetProcessRank`, over the `sort.Sort` of the standard library; `none` is a panic.
unfoldable pub get_process_rank :
    ((Ptr → Ptr → Bool) → List Ptr → List Ptr)
    → Netflow
    → Int64
    → Int64
    → (Ptr → Time)
    → Option (Ranking × Netflow)
get_process_rank sort_by nf limit recent_seconds clock =
    let pm' = sort sort_by nf.process_hash recent_seconds clock in
    let nf' = record nf { process_hash = pm' } in
    let ranked : Option (Ranking × Netflow) = (elim (get_rank pm' limit) [
      | none ↦ none
      | some ps ↦ some (ranking ps, nf')
    ]) in
    if ltb64 max_ring_size recent_seconds then some (invalid_window, nf) else ranked

All-take : (P : Ptr → Type 0) (n : ℕ) (xs : List Ptr) → All P xs → All P (take n xs)
All-take P zero xs a = tt
All-take P (suc n) [] a = tt
All-take P (suc n) (x ∷ xs) a = (a.0, All-take P n xs a.1)

take-Descending :
    (key : Ptr → ℕ) (n : ℕ) (xs : List Ptr) → Descending key xs → Descending key (take n xs)
take-Descending key zero xs d = tt
take-Descending key (suc n) [] d = tt
take-Descending key (suc n) (x ∷ xs) d = (All-take _ n xs d.0, take-Descending key n xs d.1)

-- `GetProcessRank` with a window of other than 0 seconds and a limit that is not negative, on a
-- controller with a process of its own for every pid, over a `sort.Sort` that keeps its promises,
-- does not panic. A window of more than 61 seconds is refused, and changes nothing; for any other
-- the answer is at most `limit` processes, none with more bytes in its window than one before it.
pub get_process_rank_lem :
    (sort_by : (Ptr → Ptr → Bool) → List Ptr → List Ptr) (nf : Netflow) (limit sec : Int64)
    (clock : Ptr → Time)
    → IsSort sort_by
    → IsController nf.process_hash
    → sec ≢ 0
    → limit < half64
    → ((ltb64 max_ring_size sec ≡ true)
        × (get_process_rank sort_by nf limit sec clock ≡ some (invalid_window, nf)))
      ⊎ ((ps : List Ptr) × (nf' : Netflow) × (ltb64 max_ring_size sec ≡ false)
          × (get_process_rank sort_by nf limit sec clock ≡ some (ranking ps, nf'))
          × (length ps ≤ limit)
          × Descending (key nf'.process_hash.heap) ps)
unfolding get_process_rank
get_process_rank_lem sort_by nf limit sec clock laws v ne h =
    elim (Bool-cases (ltb64 max_ring_size sec)) [
      | inl long ↦ inl (long, rw long refl)
      | inr short ↦
          let pm' = sort sort_by nf.process_hash sec clock in
          let (ranked, same, ordered) =
            get_rank-sort-key sort_by nf.process_hash sec clock limit laws v ne h in
          inr (
            take limit pm'.sorted_processes,
            record nf { process_hash = pm' },
            short,
            rw (short, ranked) refl,
            length-take-le limit pm'.sorted_processes,
            take-Descending (key pm'.heap) limit pm'.sorted_processes ordered,
          )
    ]
