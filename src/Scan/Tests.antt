-- ===== src/Scan/Tests.antt =====
-- Runs of the scan on a machine with two pids, and an instance of its theorem.
use go_netflow.Base.{
  ◌≡◌, refl, Bool, true, not, ◌&&◌, ◌||◌, none, some, [], ◌∷◌, if◌then◌else◌, ltb, length, arith,
  Bool-cases, inl, inr,
}
use go_netflow.Base.Bytes.{Bytes, codes, bytes_eq, bytes_eq_iff, has_prefix, has_suffix, split}
use go_netflow.Base.Dict.{Dict, lookup, Distinct}
use go_netflow.Base.Outcome.{returns}
use go_netflow.Traffic.{Process}
use go_netflow.Controller.Owners.{contains}
use go_netflow.Scan.{
  Proc, label, get_process_name, get_process_exe, title, matches, get_processes,
  match_string_suffix,
}
use go_netflow.Controller.{new_controller, rescan}
use go_netflow.Controller.Refresh.{IsController, cell, merge}
use go_netflow.Controller.Owners.{process_by_inode}
use go_netflow.Scan.Owner.{rescan-get_processes}
use go_netflow.Scan.Flat.{get_processes1}
use go_netflow.Scan.Layouts.{flat, IsLaidOut}
use go_netflow.Scan.Equivalent.{get_processes1_lem}
use go_netflow.Scan.Laws.{IsProper, Once, holding, sockets_of, get_processes_lem}

abbrev links : Dict Bytes
links =
    (codes "/proc/7/exe", codes "/usr/bin/curl")
    ∷ (codes "/proc/7/fd/0", codes "/dev/null")
    ∷ (codes "/proc/7/fd/3", codes "socket:[55]")
    ∷ (codes "/proc/7/fd/4", codes "socket:[56]")
    ∷ (codes "/proc/8/fd/1", codes "socket:[57]")
    ∷ []

abbrev machine : Proc
machine = record {
  pids = some (codes "7" ∷ codes "8" ∷ []);
  files = λ pid.
      if bytes_eq pid (codes "7")
      then some (codes "/proc/7/fd/0" ∷ codes "/proc/7/fd/3" ∷ codes "/proc/7/fd/4" ∷ [])
      else some (codes "/proc/8/fd/1" ∷ []);
  link = λ path. lookup path links;
}

get_process_name_curl : get_process_name (codes "/usr/bin/curl") ≡ codes "Curl"
unfolding get_process_name title split
get_process_name_curl = refl

match_string_suffix_run :
    match_string_suffix (codes "/proc/7/fd/2") (codes "fd/0" ∷ codes "fd/2" ∷ []) ≡ true
unfolding match_string_suffix has_suffix
match_string_suffix_run = refl

abbrev is_proper : Bytes → Bool
is_proper name = not (has_prefix name label) || ltb (length label) (length name)

abbrev all_proper : Dict Bytes → Bool
all_proper [] = true
all_proper ((path, name) ∷ m) = is_proper name && all_proper m

lookup-is_proper :
    (m : Dict Bytes) (path name : Bytes)
    → all_proper m ≡ true
    → lookup path m ≡ some name
    → is_proper name ≡ true
unfolding lookup
lookup-is_proper [] path name h e = ground (arith, e)
lookup-is_proper ((p, n) ∷ m) path name h e = ground (arith, h, e, lookup-is_proper m path name)

links_proper : all_proper links ≡ true
unfolding has_prefix
links_proper = refl

machine_pids_Once : Once (codes "7" ∷ codes "8" ∷ [])
unfolding bytes_eq
machine_pids_Once = (refl, (refl, tt))

machine-IsProper : IsProper machine
machine-IsProper path name e h = ground (arith, h, lookup-is_proper links path name links_proper e)

get_processes_lem_example :
    (ppm : Dict Process) × (get_processes machine (codes "Curl") ≡ returns (some ppm))
    × Distinct ppm
    × ((j : Bytes)
        → lookup j ppm ≡ (
            if contains j (codes "7" ∷ codes "8" ∷ []) && matches machine (codes "Curl") j
            then holding machine (codes "Curl") j (sockets_of machine j)
            else none))
get_processes_lem_example =
    get_processes_lem machine (codes "Curl") (codes "7" ∷ codes "8" ∷ []) machine-IsProper refl
      machine_pids_Once

-- Inode 55 is a socket of pid 7 alone.
only_7 : (q : Bytes) → contains (codes "55") (sockets_of machine q) ≡ true → q ≡ codes "7"
unfolding lookup has_prefix bytes_eq
only_7 q h = elim (Bool-cases (bytes_eq q (codes "7"))) [
  | inl e ↦ (bytes_eq_iff q (codes "7")).0 e
  | inr n ↦ absurd (ground (arith, h, n))
]

machine-matches : matches machine (codes "Curl") (codes "7") ≡ true
unfolding matches get_process_exe get_process_name title lookup bytes_eq split
machine-matches = refl

machine_shows : contains (codes "55") (sockets_of machine (codes "7")) ≡ true
unfolding lookup bytes_eq has_prefix
machine_shows = refl

machine_lists : contains (codes "7") (codes "7" ∷ codes "8" ∷ []) ≡ true
unfolding bytes_eq
machine_lists = refl

empty-IsController : IsController new_controller
unfolding lookup
empty-IsController = record {
  distinct = tt;
  valid = λ i x h. ground (arith, h);
  separate = λ i j x h k. ground (arith, h);
}

rescan-get_processes_example :
    (ppm : Dict Process) × (po : Process) × (get_processes machine (codes "Curl")
      ≡ returns (some ppm))
    × (holding machine (codes "Curl") (codes "7") (sockets_of machine (codes "7")) ≡ some po)
    × (process_by_inode (rescan new_controller (some ppm)) (codes "55")
        ≡ merge (cell new_controller (codes "7")) po)
rescan-get_processes_example =
    rescan-get_processes machine (codes "Curl") new_controller (codes "7" ∷ codes "8" ∷ [])
      (codes "55") (codes "7") machine-IsProper refl machine_pids_Once empty-IsController
      machine_lists machine-matches machine_shows only_7

abbrev tidy_links : Dict Bytes
tidy_links =
    (codes "/proc/7/exe", codes "/usr/bin/curl")
    ∷ (codes "/proc/7/fd/3", codes "socket:[55]")
    ∷ (codes "/proc/7/fd/4", codes "socket:[56]")
    ∷ []

-- The same machine, where no standard stream is a socket.
abbrev tidy : Proc
tidy = record machine { link = λ path. lookup path tidy_links }

tidy_proper : all_proper tidy_links ≡ true
unfolding has_prefix
tidy_proper = refl

tidy-IsProper : IsProper tidy
tidy-IsProper path name e h = ground (arith, h, lookup-is_proper tidy_links path name tidy_proper e)

tidy-IsLaidOut : IsLaidOut tidy (codes "7" ∷ codes "8" ∷ [])
unfolding lookup bytes_eq split match_string_suffix has_suffix has_prefix
tidy-IsLaidOut = (
  (
    (refl, λ h. refl),
    ((refl, λ h. absurd (ground (arith, h))), ((refl, λ h. absurd (ground (arith, h))), tt)),
  ),
  (((refl, λ h. refl), tt), tt),
)

get_processes1_lem_example :
    get_processes1 tidy (some (flat tidy (codes "7" ∷ codes "8" ∷ []))) (codes "Curl")
    ≡ get_processes tidy (codes "Curl")
get_processes1_lem_example =
    get_processes1_lem tidy (codes "Curl") (codes "7" ∷ codes "8" ∷ []) refl tidy-IsProper refl
      tidy-IsLaidOut
