-- ===== src/Controller/Tests.antt =====
-- Runs of the controller, with an insertion sort for the standard library's `sort.Sort`.
use go_netflow.Base.{
  true, ◌%◌, ℕ, ◌+◌, ◌*◌, ◌≤◌, ◌≡◌, refl, Bool, none, some, List, [], ◌∷◌, arith, if◌then◌else◌,
  ltb, length, take, All, Bool-cases, inl, inr,
}
use go_netflow.Base.Bytes.{Bytes, codes, bytes_eq, bytes_eq_iff}
use go_netflow.Base.Dict.{Dict, lookup}
use go_netflow.Base.Int64.{second, epoch, Time, mod64}
use go_netflow.Traffic.{Process, new_stats}
use go_netflow.Controller.{Controller, Ptr, new_controller, rescan, sort, get_rank, values}
use go_netflow.Controller.Refresh.{IsController, cell, refreshed, merge, cell-rescan}
use go_netflow.Controller.{has_key}
use go_netflow.Controller.Loop.{
  gone, Rescanner, launch, rescan_once, begin, tick, end, stop, sorts, Reach, here, next,
}
use go_netflow.Controller.Scans.{last_found, successes, has_pid, index_of, Reach-last_found}
use go_netflow.Controller.Volume.{bytes_in_window, get_rank-sort}
use go_netflow.Controller.Owners.{Holds, process_by_inode, process_by_inode-rescan}
use go_netflow.Controller.Rank.{Ready, IsSort, Descending, count}

abbrev pub wget : Process
wget = record {
  name = codes "Wget";
  pid = codes "225";
  exe = codes "/usr/bin/wget";
  state = [];
  inode_count = 1;
  traffic_stats = some new_stats;
  ring = record { timestamp = 10; in_bytes = 500; out_bytes = 0 } ∷ [];
  inodes = codes "77" ∷ [];
  revision = 0;
}

-- The same process at a later scan, with a second socket.
abbrev wget_later : Process
wget_later = record wget { inode_count = 2; ring = []; inodes = codes "77" ∷ codes "78" ∷ [] }

abbrev scanned : Dict Process
scanned = (codes "225", wget_later) ∷ []

abbrev pub running : Controller
running = record new_controller {
  heap = wget ∷ [];
  dict = (codes "225", 0) ∷ [];
  inode_pid_map = (codes "77", codes "225") ∷ [];
}

pub running-IsController : IsController running
unfolding lookup
running-IsController = record {
  distinct = (tt, tt);
  valid = λ i x h. ground arith;
  separate =
      λ i j x h k. ground (arith, bytes_eq_iff (codes "225") i, bytes_eq_iff (codes "225") j);
}

cell-rescan_example :
    cell (rescan running (some scanned)) (codes "225")
    ≡ refreshed (cell running (codes "225")) (lookup (codes "225") scanned)
unfolding lookup
cell-rescan_example = cell-rescan running scanned (codes "225") running-IsController (tt, tt)

only_wget : (q : Bytes) (qo : Process) → Holds (codes "78") scanned q qo → q ≡ codes "225"
unfolding lookup
only_wget q qo h = ground (arith, bytes_eq_iff (codes "225") q)

process_by_inode-rescan_example :
    process_by_inode (rescan running (some scanned)) (codes "78")
    ≡ merge (cell running (codes "225")) wget_later
unfolding lookup bytes_eq
process_by_inode-rescan_example =
    process_by_inode-rescan running scanned (codes "78") (codes "225") wget_later
      running-IsController (tt, tt) (refl, refl) only_wget

-- Insertion sort.
put_in : (Ptr → Ptr → Bool) → Ptr → List Ptr → List Ptr
put_in less x [] = x ∷ []
put_in less x (y ∷ ys) = if less y x then y ∷ put_in less x ys else x ∷ y ∷ ys

pub insertion_sort : (Ptr → Ptr → Bool) → List Ptr → List Ptr
insertion_sort less [] = []
insertion_sort less (x ∷ xs) = put_in less x (insertion_sort less xs)

module _ (less : Ptr → Ptr → Bool) where
  count-put_in : (x : Ptr) (ys : List Ptr) (z : Ptr) → count z (put_in less x ys) ≡ count z (x ∷ ys)
  unfolding put_in
  count-put_in x [] z = refl
  count-put_in x (y ∷ ys) z = ground (arith, count-put_in x ys z)

  length-put_in : (x : Ptr) (ys : List Ptr) → length (put_in less x ys) ≡ length ys + 1
  unfolding put_in
  length-put_in x [] = omega arith
  length-put_in x (y ∷ ys) = ground (arith, length-put_in x ys)

  module _ (key : Ptr → ℕ) (by_key : (i j : Ptr) → less i j ≡ ltb (key j) (key i)) where
    All-put_in :
        (b : ℕ) (x : Ptr) (ys : List Ptr)
        → key x ≤ b
        → All (λ y. key y ≤ b) ys
        → All (λ y. key y ≤ b) (put_in less x ys)
    unfolding put_in
    All-put_in b x [] h a = (h, tt)
    All-put_in b x (y ∷ ys) h a = ground (arith, All-put_in b x ys h a.1)

    All-mono : (b c : ℕ) (ys : List Ptr) → b ≤ c → All (λ y. key y ≤ b) ys → All (λ y. key y ≤ c) ys
    All-mono b c [] h a = tt
    All-mono b c (y ∷ ys) h a = (omega arith, All-mono b c ys h a.1)

    put_in-Descending :
        (x : Ptr) (ys : List Ptr) → Descending key ys → Descending key (put_in less x ys)
    unfolding put_in
    put_in-Descending x [] d = (tt, tt)
    put_in-Descending x (y ∷ ys) d = elim (Bool-cases (less y x)) [
      | inl e ↦
          rw e
            (All-put_in (key y) x ys (ground (arith, by_key y x)) d.0, put_in-Descending x ys d.1)
      | inr e ↦
          let small : key y ≤ key x = ground (arith, by_key y x) in
          rw e ((small, All-mono (key y) (key x) ys small d.0), d)
    ]

count-insertion_sort :
    (less : Ptr → Ptr → Bool) (xs : List Ptr) (z : Ptr)
    → count z (insertion_sort less xs) ≡ count z xs
unfolding insertion_sort
count-insertion_sort less [] z = refl
count-insertion_sort less (x ∷ xs) z =
    omega (arith, count-put_in less x (insertion_sort less xs) z, count-insertion_sort less xs z)

length-insertion_sort :
    (less : Ptr → Ptr → Bool) (xs : List Ptr) → length (insertion_sort less xs) ≡ length xs
unfolding insertion_sort
length-insertion_sort less [] = refl
length-insertion_sort less (x ∷ xs) =
    omega (arith, length-put_in less x (insertion_sort less xs), length-insertion_sort less xs)

insertion_sort-Descending :
    (less : Ptr → Ptr → Bool) (key : Ptr → ℕ) (xs : List Ptr)
    → ((i j : Ptr) → less i j ≡ ltb (key j) (key i))
    → Descending key (insertion_sort less xs)
unfolding insertion_sort
insertion_sort-Descending less key [] h = tt
insertion_sort-Descending less key (x ∷ xs) h =
    put_in-Descending less key h x (insertion_sort less xs)
      (insertion_sort-Descending less key xs h)

pub insertion_sort-IsSort : IsSort insertion_sort
insertion_sort-IsSort = record {
  same = count-insertion_sort;
  size = length-insertion_sort;
  ordered = insertion_sort-Descending;
}

-- Every process is analysed at second 12.
abbrev pub clock : Ptr → Time
clock x = (epoch + 12) * second

get_rank-sort_example :
    let pm' = sort insertion_sort running 5 clock in
    (get_rank pm' 1 ≡ some (take 1 pm'.sorted_processes))
    × ((x : Ptr) → count x pm'.sorted_processes ≡ count x (values running.dict))
    × Descending (bytes_in_window running 5 clock) pm'.sorted_processes
    × All (Ready pm'.heap) (values running.dict)
get_rank-sort_example =
    get_rank-sort insertion_sort running 5 clock 1 insertion_sort-IsSort running-IsController
      (omega arith) (omega arith)

-- The goroutine of `Run`: a scan, a ranking, a scan that fails, and the end.
abbrev ran : Rescanner
ran = record launch {
  pm = rescan (sort insertion_sort (rescan new_controller (some scanned)) 5 clock) none;
  ctx_done = true;
  phase = gone;
  scans = none ∷ some scanned ∷ [];
}

to_ran : Reach launch ran
unfolding rescan_once
to_ran =
    next
      (next
        (next (next (next here (begin (some scanned) (tt, tt) refl)) (sorts insertion_sort 5 clock))
          (tick none tt refl))
        stop)
      (end refl refl)

Reach-last_found_example :
    (has_key (lookup (codes "225") ran.pm.dict)
      ≡ has_pid (last_found (none ∷ some scanned ∷ [])) (codes "225"))
    × (ran.pm.inode_pid_map ≡ index_of (last_found (none ∷ some scanned ∷ [])))
    × (ran.pm.revision ≡ successes (none ∷ some scanned ∷ []) % mod64)
Reach-last_found_example = Reach-last_found (codes "225") to_ran
