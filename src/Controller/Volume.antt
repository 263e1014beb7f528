-- ===== src/Controller/Volume.antt =====
-- The ranking by the bytes in the window of each process.
use go_netflow.Base.{
  ℕ, ◌+◌, ◌%◌, ◌≤◌, ◌<◌, ◌≡◌, refl, ap, ◌∙◌, ◌≢◌, Bool, true, Option, none, some, List, [], ◌∷◌,
  arith, ◌==◌, get_elem?, take, All, Bool-cases, Option-cases, inl, inr,
}
use go_netflow.Base.Int64.{Int64, Time, half64, mod64}
use go_netflow.Traffic.{Process}
use go_netflow.Controller.{Controller, Ptr, values, weight, less, analyse_all, sort, get_rank}
use go_netflow.Controller.Refresh.{IsController}
use go_netflow.Controller.Rank.{
  Ready, analyse_all-Ready, count, Descending, IsSort, key, analysed, elem, get_elem?-analyse_all,
  count-All, get_rank-sort-key,
}

-- The bytes of a process in the window, in and out, modulo 2 ^ 64, as a number that orders as the
-- signed sum does: those that `analyseStats` stores.
abbrev pub volume : Option Process → ℕ
volume none = half64
volume (some p) = elim p.traffic_stats [
  | none ↦ half64
  | some s ↦ ((s.in_bytes + s.out_bytes) % mod64 + half64) % mod64
]

abbrev pub bytes_in_window : Controller → Int64 → (Ptr → Time) → Ptr → ℕ
bytes_in_window pm sec clock x = volume (analysed sec (clock x) (get_elem? pm.heap x))

key-volume : (heap : List Process) (x : Ptr) → key heap x ≡ volume (get_elem? heap x)
unfolding weight
key-volume heap x = elim (Option-cases (get_elem? heap x)) [
  | inl e ↦ rw (weight, volume, e) refl
  | inr (p, e) ↦ elim (Option-cases p.traffic_stats) [
    | inl f ↦ rw (weight, volume, e, f) refl
    | inr (s, f) ↦ rw (weight, volume, e, f) refl
  ]
]

key-analyse_all :
    (sec : Int64) (clock : Ptr → Time) (pm : Controller) (x : Ptr)
    → elem x (values pm.dict) ≡ true
    → key (analyse_all sec clock (values pm.dict) pm.heap) x ≡ bytes_in_window pm sec clock x
key-analyse_all sec clock pm x member =
    key-volume (analyse_all sec clock (values pm.dict) pm.heap) x
    ∙ ap volume (get_elem?-analyse_all sec clock (values pm.dict) pm.heap x ∙ rw member refl)

All-key :
    (k l : Ptr → ℕ) (x : Ptr) (xs : List Ptr)
    → k x ≡ l x
    → All (λ y. k y ≡ l y) xs
    → All (λ y. k y ≤ k x) xs
    → All (λ y. l y ≤ l x) xs
All-key k l x [] e a b = tt
All-key k l x (y ∷ ys) e a b = (omega (arith, e, a.0, b.0), All-key k l x ys e a.1 b.1)

Descending-key :
    (k l : Ptr → ℕ) (xs : List Ptr) → All (λ y. k y ≡ l y) xs → Descending k xs → Descending l xs
Descending-key k l [] a d = tt
Descending-key k l (x ∷ xs) a d = (All-key k l x xs a.0 a.1 d.0, Descending-key k l xs a.1 d.1)

elem-count : (x : Ptr) (xs : List Ptr) → 0 < count x xs → elem x xs ≡ true
elem-count x [] h = absurd (omega (arith, h))
elem-count x (y ∷ ys) h = elim (Bool-cases (y == x)) [
  | inl e ↦ rw e refl
  | inr e ↦ rw e (elem-count x ys (ground (arith, h, e)))
]

-- A `Sort` over a window of other than 0 seconds, with a `sort.Sort` that keeps its promises, then
-- a `GetRank` with a limit that is not negative, on a controller with a process of its own for every
-- pid: the call does not panic, and returns the first `limit` of the processes sorted; these are all
-- processes of the map, as often, none with more bytes in and out, modulo 2 ^ 64 and read as
-- signed, in what `analyseStats` makes of its ring than one before it. Every process of the map has
-- statistics when it is compared, so `Less` meets no nil.
pub get_rank-sort :
    (sort_by : (Ptr → Ptr → Bool) → List Ptr → List Ptr) (pm : Controller) (sec : Int64)
    (clock : Ptr → Time) (limit : Int64)
    → IsSort sort_by
    → IsController pm
    → sec ≢ 0
    → limit < half64
    → let pm' = sort sort_by pm sec clock in
      (get_rank pm' limit ≡ some (take limit pm'.sorted_processes))
      × ((x : Ptr) → count x pm'.sorted_processes ≡ count x (values pm.dict))
      × Descending (bytes_in_window pm sec clock) pm'.sorted_processes
      × All (Ready pm'.heap) (values pm.dict)
unfolding sort
get_rank-sort sort_by pm sec clock limit laws v h hl =
    let (ranked, same, ordered) = get_rank-sort-key sort_by pm sec clock limit laws v h hl in
    let heap' = analyse_all sec clock (values pm.dict) pm.heap in
    let s = sort_by (less heap') (values pm.dict) in
    (
      ranked,
      same,
      Descending-key (key heap') (bytes_in_window pm sec clock) s
          (count-All _ s (λ x c.
            key-analyse_all sec clock pm x
              (elem-count x (values pm.dict) (omega (arith, c, same x)))))
          ordered,
      analyse_all-Ready pm sec clock v h,
    )
