-- ===== src/Controller/TwoProcesses.antt =====
-- Two processes, in either order of the map, have one ranking.
use go_netflow.Base.{ℕ, ◌<◌, ◌≡◌, refl, sym, ◌∙◌, ap, [], ◌∷◌, arith, inl, inr, ◌⊎◌}
use go_netflow.Base.Bytes.{codes, bytes_eq, bytes_eq_iff}
use go_netflow.Base.Dict.{lookup}
use go_netflow.Base.Alike.{Alike}
use go_netflow.Base.Int64.{quot64}
use go_netflow.Traffic.{Process, analyse_stats, sum_window}
use go_netflow.Controller.{
  Controller, Ptr, new_controller, sort, get_rank, values, analyse_all, update, weight,
}
use go_netflow.Controller.Rank.{count, key}
use go_netflow.Controller.Unordered.{HasNoTies, get_rank_unordered}
use go_netflow.Controller.Tests.{wget, clock, insertion_sort, insertion_sort-IsSort}

abbrev curl : Process
curl = record wget {
  pid = codes "226";
  ring = record { timestamp = 10; in_bytes = 900; out_bytes = 0 } ∷ [];
}

abbrev upwards : Controller
upwards = record new_controller {
  heap = wget ∷ curl ∷ [];
  dict = (codes "225", 0) ∷ (codes "226", 1) ∷ [];
}

abbrev downwards : Controller
downwards = record new_controller {
  heap = wget ∷ curl ∷ [];
  dict = (codes "226", 1) ∷ (codes "225", 0) ∷ [];
}

upwards-Alike : Alike upwards.dict downwards.dict
unfolding lookup
upwards-Alike k = ground (arith, bytes_eq_iff (codes "225") k, bytes_eq_iff (codes "226") k)

one_of_two : (x : Ptr) → 0 < count x (0 ∷ 1 ∷ []) → (x ≡ 0) ⊎ (x ≡ 1)
one_of_two x h = ground (arith, h)

keys :
    (key (sort insertion_sort upwards 5 clock).heap 0 ≡ 9223372036854776308)
    × (key (sort insertion_sort upwards 5 clock).heap 1 ≡ 9223372036854776708)
unfolding sort analyse_all update analyse_stats sum_window quot64 weight
keys = (refl, refl)

upwards-HasNoTies : HasNoTies (key (sort insertion_sort upwards 5 clock).heap) (values upwards.dict)
upwards-HasNoTies x y hx hy e = elim (one_of_two x hx) [
  | inl a ↦ elim (one_of_two y hy) [
    | inl b ↦ a ∙ sym b
    | inr b ↦ absurd (omega (arith, keys.0, keys.1, e, ap score a, ap score b))
  ]
  | inr a ↦ elim (one_of_two y hy) [
    | inl b ↦ absurd (omega (arith, keys.0, keys.1, e, ap score a, ap score b))
    | inr b ↦ a ∙ sym b
  ]
]
  where
    score : Ptr → ℕ
    score = key (sort insertion_sort upwards 5 clock).heap

get_rank_unordered_example :
    get_rank (sort insertion_sort upwards 5 clock) 1
    ≡ get_rank (sort insertion_sort downwards 5 clock) 1
unfolding bytes_eq
get_rank_unordered_example =
    get_rank_unordered insertion_sort insertion_sort upwards downwards 5 clock insertion_sort-IsSort
      insertion_sort-IsSort ((refl, tt), (tt, tt)) ((refl, tt), (tt, tt)) upwards-Alike refl 1
      upwards-HasNoTies
