-- ===== src/Controller/Refresh.antt =====
-- `Rescan` against its meaning: the controller as a map from pids to processes.
use go_netflow.Base.{
  ◌<◌, ◌≡◌, refl, ◌∙◌, ◌≢◌, Option, none, some, List, [], ◌∷◌, ◌++◌, arith, if◌then◌else◌, length,
  get_elem?, Bool-cases, Option-cases, inl, inr, length-append, length-set, get_elem?-set_self,
  get_elem?-set_ne, get_elem?-append_left, get_elem?-concat, get_elem?_lt, get_elem?_total,
}
use go_netflow.Base.Bytes.{Bytes, bytes_eq, bytes_eq_iff}
use go_netflow.Base.Dict.{
  Dict, lookup, insert, Distinct, lookup-insert, lookup-keep, lookup-Fresh, insert-Distinct,
  keep-Distinct,
}
use go_netflow.Base.Int64.{add64}
use go_netflow.Traffic.{Process}
use go_netflow.Controller.{
  Controller, Ptr, update, add_or_refresh, add_new, delete_old, has_key, rescan,
}

-- Every pid has a process of its own.
pub record IsController (pm : Controller) : Type 0 where
  pub distinct : Distinct pm.dict
  pub valid : (i : Bytes) (x : Ptr) → lookup i pm.dict ≡ some x → x < length pm.heap
  pub separate :
      (i j : Bytes) (x : Ptr) → lookup i pm.dict ≡ some x → lookup j pm.dict ≡ some x → i ≡ j

-- The process of a pid.
abbrev pub cell : Controller → Bytes → Option Process
cell pm j = elim (lookup j pm.dict) [ none ↦ none | some x ↦ get_elem? pm.heap x ]

-- What one scanned process does to the process of its pid.
abbrev pub merge : Option Process → Process → Option Process
merge none po = some po
merge (some p) po = some (record p { inodes = po.inodes })

-- What a scan does: a pid that is not found is dropped.
abbrev pub refreshed : Option Process → Option Process → Option Process
refreshed old none = none
refreshed old (some po) = merge old po

pub length-update :
    (f : Process → Process) (x : Ptr) (heap : List Process) → length (update f x heap) ≡ length heap
unfolding update
length-update f x heap = elim (Option-cases (get_elem? heap x)) [
  | inl e ↦ rw (e, update)
  | inr (p, e) ↦ rw (e, update) (length-set heap x (f p))
]

get_elem?-update_self :
    (f : Process → Process) (x : Ptr) (heap : List Process) (p : Process)
    → get_elem? heap x ≡ some p
    → get_elem? (update f x heap) x ≡ some (f p)
unfolding update
get_elem?-update_self f x heap p e =
    ground (arith, get_elem?-set_self heap x (f p), get_elem?_lt heap x e)

get_elem?-update_ne :
    (f : Process → Process) (x y : Ptr) (heap : List Process)
    → x ≢ y
    → get_elem? (update f x heap) y ≡ get_elem? heap y
unfolding update
get_elem?-update_ne f x y heap n = elim (Option-cases (get_elem? heap x)) [
  | inl e ↦ rw (e, update)
  | inr (p, e) ↦ rw (e, update) (get_elem?-set_ne heap x y (f p) n)
]

module _ (pm : Controller) (pid : Bytes) (po : Process) (v : IsController pm) where
  -- The two branches of a round.
  abbrev added : Controller
  added = record pm { heap = pm.heap ++ po ∷ []; dict = insert pid (length pm.heap) pm.dict }

  abbrev renewed : Ptr → Controller
  renewed x = record pm { heap = update (λ p. record p { inodes = po.inodes }) x pm.heap }

  added_lem : lookup pid pm.dict ≡ none → add_or_refresh pm pid po ≡ added
  unfolding add_or_refresh
  added_lem e = rw (e, add_or_refresh)

  renewed_lem : (x : Ptr) → lookup pid pm.dict ≡ some x → add_or_refresh pm pid po ≡ renewed x
  unfolding add_or_refresh
  renewed_lem x e = rw (e, add_or_refresh)

  added-IsController : IsController added
  added-IsController = record {
    distinct = insert-Distinct pid (length pm.heap) pm.dict v.distinct;
    valid = λ i x h. ground (
      arith,
      lookup-insert pid i (length pm.heap) pm.dict,
      length-append {0} pm.heap (po ∷ []),
      v.valid i x,
    );
    separate = λ i j x h k. ground (
      arith,
      lookup-insert pid i (length pm.heap) pm.dict,
      lookup-insert pid j (length pm.heap) pm.dict,
      bytes_eq_iff pid i,
      bytes_eq_iff pid j,
      v.valid i x,
      v.valid j x,
      v.separate i j x,
    );
  }

  renewed-IsController : (x : Ptr) → IsController (renewed x)
  renewed-IsController x = record {
    distinct = v.distinct;
    valid = λ i y h. rw length-update (v.valid i y h);
    separate = v.separate;
  }

  add_or_refresh-IsController : IsController (add_or_refresh pm pid po)
  add_or_refresh-IsController = elim (Option-cases (lookup pid pm.dict)) [
    | inl e ↦ rw (added_lem e) added-IsController
    | inr (x, e) ↦ rw (renewed_lem x e) (renewed-IsController x)
  ]

  cell-added :
      (j : Bytes)
      → lookup pid pm.dict ≡ none
      → cell added j ≡ (if bytes_eq pid j then merge (cell pm j) po else cell pm j)
  cell-added j e = elim (Option-cases (lookup j pm.dict)) [
    | inl f ↦
        ground (arith, lookup-insert pid j (length pm.heap) pm.dict, get_elem?-concat pm.heap po)
    | inr (x, f) ↦ ground (
      arith,
      lookup-insert pid j (length pm.heap) pm.dict,
      bytes_eq_iff pid j,
      get_elem?-append_left pm.heap (po ∷ []) x (v.valid j x f),
    )
  ]

  cell-renewed :
      (x : Ptr) (j : Bytes)
      → lookup pid pm.dict ≡ some x
      → cell (renewed x) j ≡ (if bytes_eq pid j then merge (cell pm j) po else cell pm j)
  cell-renewed x j e = elim (Option-cases (lookup j pm.dict)) [
    | inl f ↦ ground (arith, bytes_eq_iff pid j)
    | inr (y, f) ↦ elim (Bool-cases (bytes_eq pid j)) [
      | inl same ↦
          let found = get_elem?_total pm.heap x (v.valid pid x e) in
          ground (
            arith,
            bytes_eq_iff pid j,
            get_elem?-update_self (λ (p : Process). record p { inodes = po.inodes }) x pm.heap
                found.0 found.1,
          )
      | inr other ↦
          let apart : x ≢ y = (λ q. ground (arith, bytes_eq_iff pid j, v.separate pid j x e)) in
          ground (
            arith,
            get_elem?-update_ne (λ (p : Process). record p { inodes = po.inodes }) x y pm.heap
                apart,
          )
    ]
  ]

  cell-add_or_refresh :
      (j : Bytes)
      → cell (add_or_refresh pm pid po) j
        ≡ (if bytes_eq pid j then merge (cell pm j) po else cell pm j)
  cell-add_or_refresh j = elim (Option-cases (lookup pid pm.dict)) [
    | inl e ↦ rw (added_lem e) (cell-added j e)
    | inr (x, e) ↦ rw (renewed_lem x e) (cell-renewed x j e)
  ]

-- The first loop.
add_new-IsController :
    (ps : Dict Process) (pm : Controller) → IsController pm → IsController (add_new pm ps)
unfolding add_new
add_new-IsController [] pm v = v
add_new-IsController ((pid, po) ∷ ps) pm v =
    add_new-IsController ps _ (add_or_refresh-IsController pm pid po v)

-- What the first loop makes of a process: a pid that is not found stays.
abbrev pub merged : Option Process → Option Process → Option Process
merged old none = old
merged old (some po) = merge old po

cell-add_new :
    (ps : Dict Process) (pm : Controller) (j : Bytes)
    → IsController pm
    → Distinct ps
    → cell (add_new pm ps) j ≡ merged (cell pm j) (lookup j ps)
unfolding add_new lookup
cell-add_new [] pm j v d = refl
cell-add_new ((pid, po) ∷ ps) pm j v d =
    let ih = cell-add_new ps _ j (add_or_refresh-IsController pm pid po v) d.1 in
    let step = cell-add_or_refresh pm pid po v j in
    elim (Bool-cases (bytes_eq pid j)) [
      | inl same ↦
          let gone : lookup j ps ≡ none =
            rw (← (bytes_eq_iff pid j).0 same) (lookup-Fresh pid ps d.0) in
          ih ∙ rw (gone, step, same)
      | inr other ↦ ih ∙ rw (step, other)
    ]

-- The second loop.
cell-delete_old :
    (pm : Controller) (ps : Dict Process) (j : Bytes)
    → IsController pm
    → cell (delete_old pm ps) j ≡ (if has_key (lookup j ps) then cell pm j else none)
unfolding delete_old
cell-delete_old pm ps j v =
    ground
      (arith, lookup-keep (λ (pid : Bytes) (_ : Ptr). has_key (lookup pid ps)) j pm.dict v.distinct)

delete_old-IsController :
    (pm : Controller) (ps : Dict Process) → IsController pm → IsController (delete_old pm ps)
unfolding delete_old
delete_old-IsController pm ps v =
    let kept = λ (j : Bytes).
      lookup-keep (λ (pid : Bytes) (_ : Ptr). has_key (lookup pid ps)) j pm.dict v.distinct in
    record {
      distinct = keep-Distinct _ pm.dict v.distinct;
      valid = λ i x h. ground (arith, kept i, v.valid i x);
      separate = λ i j x h k. ground (arith, kept i, kept j, v.separate i j x);
    }

-- `Rescan` keeps a process of its own for every pid.
pub rescan-IsController :
    (pm : Controller) (found : Option (Dict Process))
    → IsController pm
    → IsController (rescan pm found)
unfolding rescan
rescan-IsController pm none v = v
rescan-IsController pm (some ps) v =
    let start = record pm { revision = add64 pm.revision 1 } in
    let v' : IsController start = record {
      distinct = v.distinct;
      valid = v.valid;
      separate = v.separate;
    } in
    let w = delete_old-IsController (add_new start ps) ps (add_new-IsController ps start v') in
    record { distinct = w.distinct; valid = w.valid; separate = w.separate }

-- On a controller with a process of its own for every pid, after a `Rescan` that found `ps`, of
-- distinct pids: the pids are those of `ps`. A pid that is new has the process
-- found for it. One that was there keeps its process, traffic included: only its list of inodes is
-- replaced (so its inode count and its name are those of the first scan).
pub cell-rescan :
    (pm : Controller) (ps : Dict Process) (j : Bytes)
    → IsController pm
    → Distinct ps
    → cell (rescan pm (some ps)) j ≡ refreshed (cell pm j) (lookup j ps)
unfolding rescan
cell-rescan pm ps j v d =
    let start = record pm { revision = add64 pm.revision 1 } in
    let v' : IsController start = record {
      distinct = v.distinct;
      valid = v.valid;
      separate = v.separate;
    } in
    cell-delete_old (add_new start ps) ps j (add_new-IsController ps start v')
    ∙ ground (arith, cell-add_new ps start j v' d)
