-- ===== src/Lifecycle/Held.antt =====
-- What a log of `Start` and `Stop` leaves open.
use go_netflow.Base.{◌≡◌, refl, ◌∙◌, Bool, false, List, [], ◌∷◌, if◌then◌else◌, ◌==◌, ◌||◌, arith}
use go_netflow.Base.Bytes.{Bytes, bytes_eq}
use go_netflow.Lifecycle.{
  Effect, creates, closes, makes_group, calls_delete, Cgroup, free, exit_all,
}

-- Whether a log leaves a file that was created and not closed since, and a control group that was
-- made and of which `Delete` was not called since.
unfoldable pub is_open : Bytes → List Effect → Bool
is_open f [] = false
is_open f (creates g ∷ log) = bytes_eq f g || is_open f log
is_open f (closes g ∷ log) = if bytes_eq f g then false else is_open f log
is_open f (e ∷ log) = is_open f log

unfoldable pub is_pending : Cgroup → List Effect → Bool
is_pending c [] = false
is_pending c (makes_group d ∷ log) = c == d || is_pending c log
is_pending c (calls_delete d ∷ log) = if c == d then false else is_pending c log
is_pending c (e ∷ log) = is_pending c log

-- Whether a group is in a list, or in one of several.
unfoldable pub has : Cgroup → List Cgroup → Bool
has c [] = false
has c (d ∷ ds) = c == d || has c ds

unfoldable pub any_has : Cgroup → List (List Cgroup) → Bool
any_has c [] = false
any_has c (ds ∷ fns) = has c ds || any_has c fns

pub is_pending-free :
    (c : Cgroup) (ctrls : List Cgroup) (log : List Effect)
    → is_pending c (free ctrls log) ≡ (if has c ctrls then false else is_pending c log)
unfolding free is_pending has
is_pending-free c [] log = refl
is_pending-free c (d ∷ ds) log = ground (arith, is_pending-free c ds (calls_delete d ∷ log))

pub is_pending-exit_all :
    (c : Cgroup) (fns : List (List Cgroup)) (log : List Effect)
    → is_pending c (exit_all fns log) ≡ (if any_has c fns then false else is_pending c log)
unfolding exit_all any_has
is_pending-exit_all c [] log = refl
is_pending-exit_all c (ds ∷ fns) log =
    ground (arith, is_pending-exit_all c fns (free ds log), is_pending-free c ds log)

pub is_open-free :
    (f : Bytes) (ctrls : List Cgroup) (log : List Effect)
    → is_open f (free ctrls log) ≡ is_open f log
unfolding free is_open
is_open-free f [] log = refl
is_open-free f (d ∷ ds) log = is_open-free f ds (calls_delete d ∷ log)

pub is_open-exit_all :
    (f : Bytes) (fns : List (List Cgroup)) (log : List Effect)
    → is_open f (exit_all fns log) ≡ is_open f log
unfolding exit_all
is_open-exit_all f [] log = refl
is_open-exit_all f (ds ∷ fns) log = is_open-exit_all f fns (free ds log) ∙ is_open-free f ds log
