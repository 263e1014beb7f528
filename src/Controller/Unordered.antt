-- ===== src/Controller/Unordered.antt =====
-- The order in which `range` visits the map of processes, and the algorithm of `sort.Sort`, do not
-- show in a ranking without ties.
use go_netflow.Base.{
  ℕ, suc, ◌+◌, ◌≤◌, ◌<◌, ◌≡◌, refl, sym, ap, ap₂, ◌∙◌, subst, Bool, List, [], ◌∷◌, if◌then◌else◌,
  ◌==◌, ltb, arith, All, get_elem?, Bool-cases, inl, inr, ==_iff,
}
use go_netflow.Base.Dict.{Dict, Distinct}
use go_netflow.Base.Alike.{Alike, sum_over, sum_over-Alike}
use go_netflow.Base.Int64.{Int64, Time}
use go_netflow.Traffic.{Process}
use go_netflow.Controller.{Controller, Ptr, values, less, analyse_all, sort, get_rank}
use go_netflow.Controller.Rank.{
  count, Descending, IsSort, key, analysed, elem, get_elem?-analyse_all,
}

count-values :
    (x : Ptr) (m : Dict Ptr) → count x (values m) ≡ sum_over (λ _ y. if y == x then 1 else 0) m
unfolding sum_over
count-values x [] = refl
count-values x ((k, y) ∷ m) = ap (λ n. (if y == x then 1 else 0) + n) (count-values x m)

count-Alike :
    (x : Ptr) (m n : Dict Ptr)
    → Distinct m
    → Distinct n
    → Alike m n
    → count x (values m) ≡ count x (values n)
count-Alike x m n d e a = count-values x m ∙ sum_over-Alike _ m n d e a ∙ sym (count-values x n)

elem-count : (x : Ptr) (xs : List Ptr) → elem x xs ≡ ltb 0 (count x xs)
elem-count x [] = ground arith
elem-count x (y ∷ ys) = ground (arith, elem-count x ys)

-- Lists with the same entry at every position are equal.
get_elem?-ext : (xs ys : List Process) → ((i : ℕ) → get_elem? xs i ≡ get_elem? ys i) → xs ≡ ys
get_elem?-ext [] [] h = refl
get_elem?-ext [] (y ∷ ys) h = absurd (ground (arith, h 0))
get_elem?-ext (x ∷ xs) [] h = absurd (ground (arith, h 0))
get_elem?-ext (x ∷ xs) (y ∷ ys) h =
    ap₂ ◌∷◌ (ground (arith, h 0)) (get_elem?-ext xs ys (λ i. h (suc i)))

-- No two of the pointers have the same key.
abbrev pub HasNoTies : (Ptr → ℕ) → List Ptr → Type 0
HasNoTies score xs = (x y : Ptr) → 0 < count x xs → 0 < count y xs → score x ≡ score y → x ≡ y

All-count :
    (score : Ptr → ℕ) (b : ℕ) (y : Ptr) (xs : List Ptr)
    → All (λ z. score z ≤ b) xs
    → 0 < count y xs
    → score y ≤ b
All-count score b y [] a h = absurd (omega (arith, h))
All-count score b y (x ∷ xs) a h = elim (Bool-cases (x == y)) [
  | inl e ↦ subst (λ z. score z ≤ b) ((==_iff x y).0 e) a.0
  | inr e ↦ All-count score b y xs a.1 (ground (arith, e, h))
]

count_self : (x : Ptr) (xs : List Ptr) → 0 < count x (x ∷ xs)
count_self x xs = ground (arith, ==_iff x x)

Descending-unique :
    (score : Ptr → ℕ) (xs ys : List Ptr)
    → Descending score xs
    → Descending score ys
    → ((x : Ptr) → count x xs ≡ count x ys)
    → HasNoTies score xs
    → xs ≡ ys
Descending-unique score [] [] d e h t = refl
Descending-unique score [] (y ∷ ys) d e h t = absurd (ground (arith, h y))
Descending-unique score (x ∷ xs) [] d e h t = absurd (ground (arith, h x))
Descending-unique score (x ∷ xs) (y ∷ ys) d e h t =
    let x_in = count_self x xs in
    let y_in = count_self y ys in
    let below : score x ≤ score y =
      All-count score (score y) x (y ∷ ys) (omega arith, e.0) (omega (arith, h x, x_in)) in
    let above : score y ≤ score x =
      All-count score (score x) y (x ∷ xs) (omega arith, d.0) (omega (arith, h y, y_in)) in
    let same : x ≡ y = t x y x_in (omega (arith, h y, y_in)) (omega (arith, below, above)) in
    ap₂ ◌∷◌ same (
      Descending-unique score xs ys d.1 e.1
        (λ z. omega (arith, h z, ap {B = ℕ} (λ w. if w == z then 1 else 0) same))
        (λ a b ha hb. t a b (omega (arith, ha)) (omega (arith, hb))))

get_rank-ext :
    (pm pm' : Controller) (limit : Int64)
    → pm.heap ≡ pm'.heap
    → pm.sorted_processes ≡ pm'.sorted_processes
    → get_rank pm limit ≡ get_rank pm' limit
unfolding get_rank
get_rank-ext pm pm' limit e f =
    ap₂ (λ h xs. get_rank (record pm { heap = h; sorted_processes = xs }) limit) e f

module _ (sort_by sort_by' : (Ptr → Ptr → Bool) → List Ptr → List Ptr) (pm pm' : Controller)
    (sec : Int64) (clock : Ptr → Time) (laws : IsSort sort_by) (laws' : IsSort sort_by')
    (distinct : Distinct pm.dict) (distinct' : Distinct pm'.dict) (alike : Alike pm.dict pm'.dict)
    (heap : pm.heap ≡ pm'.heap) where
  analyse_all-Alike :
      analyse_all sec clock (values pm.dict) pm.heap
      ≡ analyse_all sec clock (values pm'.dict) pm'.heap
  analyse_all-Alike = get_elem?-ext _ _ (λ i.
      get_elem?-analyse_all sec clock (values pm.dict) pm.heap i
      ∙ ap₂ (λ b h. if b then analysed sec (clock i) (get_elem? h i) else get_elem? h i)
          (elem-count i (values pm.dict)
            ∙ ap (ltb 0) (count-Alike i pm.dict pm'.dict distinct distinct' alike)
            ∙ sym (elem-count i (values pm'.dict)))
          heap
      ∙ sym (get_elem?-analyse_all sec clock (values pm'.dict) pm'.heap i))

  -- Two controllers with the same processes, whose maps have the same entries in any order, with
  -- two algorithms of `sort.Sort` that keep its promises: if no two processes have the same bytes in
  -- the window, `GetRank` after `Sort` returns the same.
  pub get_rank_unordered :
      (limit : Int64)
      → HasNoTies (key (sort sort_by pm sec clock).heap) (values pm.dict)
      → get_rank (sort sort_by pm sec clock) limit ≡ get_rank (sort sort_by' pm' sec clock) limit
  unfolding sort
  get_rank_unordered limit ties =
      let heaps = analyse_all-Alike in
      let heap' = analyse_all sec clock (values pm.dict) pm.heap in
      let heap'' = analyse_all sec clock (values pm'.dict) pm'.heap in
      let xs = sort_by (less heap') (values pm.dict) in
      let ys = sort_by' (less heap'') (values pm'.dict) in
      let from = laws.same (less heap') (values pm.dict) in
      let from' = laws'.same (less heap'') (values pm'.dict) in
      let ordered : Descending (key heap') ys =
        subst (λ h. Descending (key h) ys) (sym heaps)
          (laws'.ordered (less heap'') (key heap'') (values pm'.dict) (λ i j. refl)) in
      let same : xs ≡ ys =
        Descending-unique (key heap') xs ys
          (laws.ordered (less heap') (key heap') (values pm.dict) (λ i j. refl)) ordered
          (λ x. from x ∙ count-Alike x pm.dict pm'.dict distinct distinct' alike ∙ sym (from' x))
          (λ x y hx hy. ties x y (omega (arith, hx, from x)) (omega (arith, hy, from y))) in
      get_rank-ext (sort sort_by pm sec clock) (sort sort_by' pm' sec clock) limit heaps same
