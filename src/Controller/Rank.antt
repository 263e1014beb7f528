-- ===== src/Controller/Rank.antt =====
-- `Sort` and `GetRank`: the processes with the most bytes in the window, in order.
use go_netflow.Base.{
  ℕ, zero, suc, ◌+◌, ◌%◌, ◌≤◌, ◌<◌, ◌≡◌, refl, subst, ap, ◌∙◌, ◌≢◌, Bool, true, false, ◌||◌, Option,
  none, some, List, [], ◌∷◌, arith, if◌then◌else◌, ◌==◌, ltb, length, get_elem?, take, All,
  Bool-cases, Option-cases, inl, inr, get_elem?-set_self, get_elem?-set_ne, get_elem?_lt,
  get_elem?_total, ==_iff,
}
use go_netflow.Base.Bytes.{Bytes, bytes_eq_refl, bytes_eq_iff}
use go_netflow.Base.Dict.{lookup, Dict, Distinct, lookup-Fresh}
use go_netflow.Base.Int64.{Int64, Time, half64, mod64, quot64}
use go_netflow.Traffic.{Process, TrafficStatsEntry, analyse_stats, sum_window, threshold, new_stats}
use go_netflow.Traffic
use go_netflow.Controller.{
  Controller, Ptr, update, values, weight, less, analyse_all, sort, copies, get_rank,
}
use go_netflow.Controller.Refresh.{IsController}

-- How often a pointer stands in a list.
abbrev pub count : Ptr → List Ptr → ℕ
count x [] = 0
count x (y ∷ ys) = (if y == x then 1 else 0) + count x ys

-- No entry has a larger key than one before it.
abbrev pub Descending : (Ptr → ℕ) → List Ptr → Type 0
Descending key [] = Unit {0}
Descending key (x ∷ xs) = All (λ y. key y ≤ key x) xs × Descending key xs

-- What the documentation of `sort.Sort` promises: the elements are those of the input, in the order
-- of `less`, when that compares keys.
pub record IsSort (sort_by : (Ptr → Ptr → Bool) → List Ptr → List Ptr) : Type 0 where
  pub same :
      (less : Ptr → Ptr → Bool) (xs : List Ptr) (x : Ptr) → count x (sort_by less xs) ≡ count x xs
  pub size : (less : Ptr → Ptr → Bool) (xs : List Ptr) → length (sort_by less xs) ≡ length xs
  pub ordered :
      (less : Ptr → Ptr → Bool) (key : Ptr → ℕ) (xs : List Ptr)
      → ((i j : Ptr) → less i j ≡ ltb (key j) (key i))
      → Descending key (sort_by less xs)

-- The bytes of a process in the window as a number that orders as the signed sum does.
abbrev pub key : List Process → Ptr → ℕ
key heap x = (weight heap x + half64) % mod64

-- The process after `analyseStats`.
abbrev pub analysed : Int64 → Time → Option Process → Option Process
analysed sec clock none = none
analysed sec clock (some p) = some (analyse_stats p sec clock)

analyse_stats_idem :
    (p : Process) (sec : Int64) (clock : Time)
    → analyse_stats (analyse_stats p sec clock) sec clock ≡ analyse_stats p sec clock
unfolding analyse_stats
analyse_stats_idem p sec clock = ground arith

analysed_idem :
    (o : Option Process) (sec : Int64) (clock : Time)
    → analysed sec clock (analysed sec clock o) ≡ analysed sec clock o
analysed_idem none sec clock = refl
analysed_idem (some p) sec clock = ap some (analyse_stats_idem p sec clock)

get_elem?-update :
    (f : Process → Process) (x y : Ptr) (heap : List Process)
    → get_elem? (update f x heap) y ≡ (
        if x == y
        then (elim (get_elem? heap y) [ none ↦ none | some p ↦ some (f p) ])
        else get_elem? heap y)
unfolding update
get_elem?-update f x y heap = elim (Option-cases (get_elem? heap x)) [
  | inl e ↦ ground arith
  | inr (p, e) ↦ ground (
    arith,
    get_elem?-set_self heap x (f p) (get_elem?_lt heap x e),
    get_elem?-set_ne heap x y (f p),
  )
]

abbrev pub elem : Ptr → List Ptr → Bool
elem x [] = false
elem x (y ∷ ys) = y == x || elem x ys

pub get_elem?-analyse_all :
    (sec : Int64) (clock : Ptr → Time) (pos : List Ptr) (heap : List Process) (x : Ptr)
    → get_elem? (analyse_all sec clock pos heap) x
      ≡ (if elem x pos then analysed sec (clock x) (get_elem? heap x) else get_elem? heap x)
unfolding analyse_all
get_elem?-analyse_all sec clock [] heap x = refl
get_elem?-analyse_all sec clock (po ∷ pos) heap x =
    let f = λ (p : Process). analyse_stats p sec (clock po) in
    let ih = get_elem?-analyse_all sec clock pos (update f po heap) x in
    let step = get_elem?-update f po x heap in
    let same : (po == x) ≡ true → po ≡ x = (==_iff po x).0 in
    elim (Bool-cases (po == x)) [
      | inl here ↦
          let e : get_elem? (update f po heap) x ≡ analysed sec (clock x) (get_elem? heap x) =
            step ∙ rw here (ap (λ c. analysed sec (clock c) (get_elem? heap x)) (same here)) in
          ih ∙ rw (here, e) (settled (elem x pos) sec (clock x) (get_elem? heap x))
      | inr other ↦ ih ∙ rw (step, other)
    ]
  where
    settled :
        (b : Bool) (s : Int64) (c : Time) (o : Option Process)
        → (if b then analysed s c (analysed s c o) else analysed s c o) ≡ analysed s c o
    settled true s c o = analysed_idem o s c
    settled false s c o = refl

elem-values : (j : Bytes) (m : Dict Ptr) (x : Ptr) → lookup j m ≡ some x → elem x (values m) ≡ true
unfolding lookup
elem-values j [] x h = cc
elem-values j ((i, y) ∷ m) x h = ground (arith, elem-values j m x)

-- A pointer to a process that has statistics.
abbrev pub Ready : List Process → Ptr → Type 0
Ready heap x =
    (p : Process) × (stats : TrafficStatsEntry) × (get_elem? heap x ≡ some p)
    × (p.traffic_stats ≡ some stats)

copies-ne-none :
    (heap : List Process) (src : List Ptr) → All (Ready heap) src → copies heap src ≢ none
unfolding copies Traffic.copy
copies-ne-none heap [] r = cc
copies-ne-none heap (x ∷ src) ((p, stats, found, has), r) =
    ground (arith, copies-ne-none heap src r)

pub count-All : (P : Ptr → Type 0) (xs : List Ptr) → ((x : Ptr) → 0 < count x xs → P x) → All P xs
count-All P [] h = tt
count-All P (x ∷ xs) h = (h x (ground arith), count-All P xs (λ y c. h y (ground arith)))

All-count : (P : Ptr → Type 0) (xs : List Ptr) → All P xs → (x : Ptr) → 0 < count x xs → P x
All-count P [] a x c = absurd (omega arith)
All-count P (y ∷ ys) a x c = elim (Bool-cases (y == x)) [
  | inl here ↦ subst P ((==_iff y x).0 here) a.0
  | inr other ↦ All-count P ys a.1 x (ground arith)
]

take_of_length-le : (n : ℕ) (xs : List Ptr) → length xs ≤ n → take n xs ≡ xs
take_of_length-le zero [] h = refl
take_of_length-le zero (x ∷ xs) h = elim h [ ]
take_of_length-le (suc n) [] h = refl
take_of_length-le (suc n) (x ∷ xs) h = ap (◌∷◌ x) (take_of_length-le n xs (omega arith))

All-take : (P : Ptr → Type 0) (n : ℕ) (xs : List Ptr) → All P xs → All P (take n xs)
All-take P zero xs a = tt
All-take P (suc n) [] a = tt
All-take P (suc n) (x ∷ xs) a = (a.0, All-take P n xs a.1)

All-values :
    (P : Ptr → Type 0) (m : Dict Ptr)
    → Distinct m
    → ((j : Bytes) (x : Ptr) → lookup j m ≡ some x → P x)
    → All P (values m)
unfolding lookup
All-values P [] d h = tt
All-values P ((i, y) ∷ m) d h =
    (h i y (rw (bytes_eq_refl i)), All-values P m d.1 (λ j x f. h j x (later j x f)))
  where
    later : (j : Bytes) (x : Ptr) → lookup j m ≡ some x → lookup j ((i, y) ∷ m) ≡ some x
    later j x f = ground (arith, bytes_eq_iff i j, lookup-Fresh i m d.0)

abbrev window_stats : Process → Int64 → Time → TrafficStatsEntry
window_stats p sec clock =
    let stats = sum_window (threshold sec clock) new_stats p.ring in
    record stats { in_rate = quot64 stats.in_bytes sec; out_rate = quot64 stats.out_bytes sec }

traffic_stats-analyse_stats :
    (p : Process) (sec : Int64) (clock : Time)
    → sec ≢ 0
    → (analyse_stats p sec clock).traffic_stats ≡ some (window_stats p sec clock)
unfolding analyse_stats
traffic_stats-analyse_stats p sec clock h = rw (ne-eq_zero sec h)
  where
    ne-eq_zero : (n : ℕ) → n ≢ 0 → (n == 0) ≡ false
    ne-eq_zero n h = ground arith

analysed-Ready :
    (sec : Int64) (clock : Ptr → Time) (pm : Controller) (x : Ptr)
    → sec ≢ 0
    → elem x (values pm.dict) ≡ true
    → x < length pm.heap
    → Ready (analyse_all sec clock (values pm.dict) pm.heap) x
analysed-Ready sec clock pm x h member valid =
    let (p, found) = get_elem?_total pm.heap x valid in
    (
      analyse_stats p sec (clock x),
      window_stats p sec (clock x),
      get_elem?-analyse_all sec clock (values pm.dict) pm.heap x ∙ rw (member, found),
      traffic_stats-analyse_stats p sec (clock x) h,
    )

get_rank_lem :
    (pm : Controller) (limit : Int64)
    → All (Ready pm.heap) pm.sorted_processes
    → limit < half64
    → get_rank pm limit ≡ some (take limit pm.sorted_processes)
unfolding get_rank
get_rank_lem pm limit ready h = ground (
  arith,
  take_of_length-le limit pm.sorted_processes,
  copies-ne-none pm.heap pm.sorted_processes ready,
  copies-ne-none pm.heap (take limit pm.sorted_processes)
      (All-take (Ready pm.heap) limit pm.sorted_processes ready),
)

-- After the loop of `Sort` every process of the map has statistics.
pub analyse_all-Ready :
    (pm : Controller) (sec : Int64) (clock : Ptr → Time)
    → IsController pm
    → sec ≢ 0
    → All (Ready (analyse_all sec clock (values pm.dict) pm.heap)) (values pm.dict)
analyse_all-Ready pm sec clock v h =
    All-values (Ready _) pm.dict v.distinct
      (λ j x f. analysed-Ready sec clock pm x h (elem-values j pm.dict x f) (v.valid j x f))

-- The processes that `Sort` leaves, in the order of the code's own comparison.
pub get_rank-sort-key :
    (sort_by : (Ptr → Ptr → Bool) → List Ptr → List Ptr) (pm : Controller) (sec : Int64)
    (clock : Ptr → Time) (limit : Int64)
    → IsSort sort_by
    → IsController pm
    → sec ≢ 0
    → limit < half64
    → let pm' = sort sort_by pm sec clock in
      (get_rank pm' limit ≡ some (take limit pm'.sorted_processes))
      × ((x : Ptr) → count x pm'.sorted_processes ≡ count x (values pm.dict))
      × Descending (key pm'.heap) pm'.sorted_processes
unfolding sort
get_rank-sort-key sort_by pm sec clock limit laws v h hl =
    let heap' = analyse_all sec clock (values pm.dict) pm.heap in
    let s = sort_by (less heap') (values pm.dict) in
    let all : All (Ready heap') s = count-All (Ready heap') s (λ x c.
      All-count (Ready heap') (values pm.dict) (analyse_all-Ready pm sec clock v h) x
        (omega (arith, laws.same (less heap') (values pm.dict) x))) in
    (
      get_rank_lem (sort sort_by pm sec clock) limit all hl,
      laws.same (less heap') (values pm.dict),
      laws.ordered (less heap') (key heap') (values pm.dict) (λ i j. refl),
    )
