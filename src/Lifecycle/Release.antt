-- ===== src/Lifecycle/Release.antt =====
-- `Stop` asks for the release of what `Start` opened, whatever happened in between.
use go_netflow.Base.{
  ℕ, zero, suc, ◌≡◌, refl, sym, ◌∙◌, true, false, Option, none, some, List, [], ◌∷◌, ◌++◌,
  if◌then◌else◌, ◌==◌, arith, Bool-cases, Option-cases, inl, inr, length, ◌&&◌, ◌||◌,
}
use go_netflow.Base.Bytes.{Bytes, bytes_eq_iff}
use go_netflow.Netflow.{Netflow}
use go_netflow.Lifecycle.Held.{
  is_open, is_pending, has, any_has, is_pending-exit_all, is_open-exit_all,
}
use go_netflow.Lifecycle.{
  Effect, closes, starts_worker, captures, Cgroup, Machine, Life, resources, fresh, configure,
  configure_cgroups, configure_persist, start, capture_all, start_workers, start_network_sniffer,
  finalize, stop,
}

-- What `Stop` can release is all that is held: the file is the one that the state names, and a
-- group belongs to an exit function.
pub record IsTracked (s : Life) : Type 0 where
  pub file : (f : Bytes) → is_open f s.log ≡ true → s.pcap_file ≡ some f
  pub groups : (c : Cgroup) → is_pending c s.log ≡ true → any_has c s.exit_func ≡ true

pub record IsReleased (s : Life) : Type 0 where
  pub file : (f : Bytes) → is_open f s.log ≡ false
  pub groups : (c : Cgroup) → is_pending c s.log ≡ false
  pub done : s.nf.ctx_done ≡ true

-- What happens after `Start`: the goroutine of the sniffer runs, or something calls `Stop`, the
-- timer for instance.
pub data Event : Type 0 where
  sniffs stops : Event

unfoldable pub run : List Event → Life → Life
run [] s = s
run (sniffs ∷ es) s = run es (start_network_sniffer s)
run (stops ∷ es) s = run es (stop s)

is_open-same :
    (f : Bytes) (devs : List (Bytes × Unit {0})) (n : ℕ) (log : List Effect)
    → (is_open f (start_workers n (capture_all devs log)) ≡ is_open f log)
unfolding is_open capture_all start_workers
is_open-same f [] zero log = refl
is_open-same f [] (suc n) log = is_open-same f [] n (starts_worker ∷ log)
is_open-same f ((dev, tt) ∷ devs) n log = is_open-same f devs n (captures dev ∷ log)

is_pending-same :
    (c : Cgroup) (devs : List (Bytes × Unit {0})) (n : ℕ) (log : List Effect)
    → (is_pending c (start_workers n (capture_all devs log)) ≡ is_pending c log)
unfolding is_pending capture_all start_workers
is_pending-same c [] zero log = refl
is_pending-same c [] (suc n) log = is_pending-same c [] n (starts_worker ∷ log)
is_pending-same c ((dev, tt) ∷ devs) n log = is_pending-same c devs n (captures dev ∷ log)

start_network_sniffer-IsTracked : (s : Life) → IsTracked s → IsTracked (start_network_sniffer s)
unfolding start_network_sniffer
start_network_sniffer-IsTracked s v = record {
  file = λ f h. v.file f (sym (is_open-same f s.nf.bind_devices _ s.log) ∙ h);
  groups = λ c h. v.groups c (sym (is_pending-same c s.nf.bind_devices _ s.log) ∙ h);
}

finalize-is_open : (s : Life) (f : Bytes) → is_open f (finalize s).log ≡ is_open f s.log
unfolding finalize is_open
finalize-is_open s f = elim (Bool-cases s.timer) [
  | inl e ↦ is_open-exit_all f s.exit_func _ ∙ rw e refl
  | inr e ↦ is_open-exit_all f s.exit_func _ ∙ rw e refl
]

finalize-is_pending :
    (s : Life) (c : Cgroup)
    → is_pending c (finalize s).log ≡ (if any_has c s.exit_func then false else is_pending c s.log)
unfolding finalize is_pending
finalize-is_pending s c = elim (Bool-cases s.timer) [
  | inl e ↦ is_pending-exit_all c s.exit_func _ ∙ rw e refl
  | inr e ↦ is_pending-exit_all c s.exit_func _ ∙ rw e refl
]

-- The state of `Stop` before it closes the file.
abbrev done : Life → Life
done s = record s { nf = record s.nf { ctx_done = true } }

abbrev closing : Option Bytes → List Effect → List Effect
closing none log = log
closing (some f) log = closes f ∷ log

stop_lem :
    (s : Life)
    → ((stop s).log ≡ closing s.pcap_file (finalize (done s)).log) × ((stop s).nf.ctx_done ≡ true)
unfolding stop finalize
stop_lem s = elim (Option-cases s.pcap_file) [
  | inl e ↦ rw e (refl, refl)
  | inr (f, e) ↦ rw e (refl, refl)
]

closing-is_open :
    (o : Option Bytes) (log : List Effect) (f : Bytes)
    → (is_open f log ≡ true → o ≡ some f)
    → is_open f (closing o log) ≡ false
unfolding is_open
closing-is_open none log f h = ground (arith, h)
closing-is_open (some g) log f h = elim (Bool-cases (is_open f log)) [
  | inl e ↦ ground (arith, h e, bytes_eq_iff f g)
  | inr e ↦ ground (arith, e)
]

closing-is_pending :
    (o : Option Bytes) (log : List Effect) (c : Cgroup)
    → is_pending c (closing o log) ≡ is_pending c log
unfolding is_pending
closing-is_pending none log c = refl
closing-is_pending (some f) log c = refl

stop-IsReleased : (s : Life) → IsTracked s → IsReleased (stop s)
stop-IsReleased s v = record {
  file = λ f.
      rw ((stop_lem s).0)
        (closing-is_open s.pcap_file _ f (λ h. v.file f (sym (finalize-is_open (done s) f) ∙ h)));
  groups = λ c.
      rw ((stop_lem s).0, closing-is_pending s.pcap_file (finalize (done s)).log c)
        (finalize-is_pending (done s) c ∙ ground (arith, v.groups c));
  done = (stop_lem s).1;
}

stop-IsTracked : (s : Life) → IsTracked s → IsTracked (stop s)
unfolding stop
stop-IsTracked s v = record {
  file = λ f h. absurd (ground (arith, h, (stop-IsReleased s v).file f));
  groups = λ c h. absurd (ground (arith, h, (stop-IsReleased s v).groups c));
}

run-IsTracked : (es : List Event) (s : Life) → IsTracked s → IsTracked (run es s)
unfolding run
run-IsTracked [] s v = v
run-IsTracked (sniffs ∷ es) s v =
    run-IsTracked es (start_network_sniffer s) (start_network_sniffer-IsTracked s v)
run-IsTracked (stops ∷ es) s v = run-IsTracked es (stop s) (stop-IsTracked s v)

any_has-append :
    (c : Cgroup) (fns : List (List Cgroup)) (ds : List Cgroup)
    → any_has c (fns ++ ds ∷ []) ≡ (any_has c fns || has c ds)
unfolding any_has
any_has-append c [] ds = ground arith
any_has-append c (es ∷ fns) ds = ground (arith, any_has-append c fns ds)

-- A group that `configure` made is one of its limiter.
configure_lem :
    (mc : Machine) (core mbn : ℕ) (log : List Effect)
    → ((c : Cgroup)
        → is_pending c ((configure mc core mbn).1.0 ++ log)
          ≡ (has c (configure mc core mbn).0 || is_pending c log))
      × ((f : Bytes) → is_open f ((configure mc core mbn).1.0 ++ log) ≡ is_open f log)
unfolding configure is_pending is_open has resources
configure_lem mc core mbn log = elim (Bool-cases mc.linux) [
  | inr e ↦ rw e (λ c. refl, λ f. refl)
  | inl e ↦ rw e (elim (Option-cases (mc.new_group (resources mc core mbn))) [
    | inl n ↦ rw n (λ c. refl, λ f. refl)
    | inr (d, m) ↦ rw m (elim (Bool-cases (mc.add_process d)) [
      | inl a ↦ rw a (λ c. ground arith, λ f. refl)
      | inr a ↦ rw a (λ c. ground arith, λ f. refl)
    ])
  ])
]

configure_cgroups-IsTracked :
    (mc : Machine) (s : Life) → IsTracked s → IsTracked (configure_cgroups mc s).0
unfolding configure_cgroups
configure_cgroups-IsTracked mc s v =
    let (limited, opened) = configure_lem mc s.nf.cpu_core s.nf.mem_mb s.log in
    elim (Bool-cases (mc.is_zero s.nf.cpu_core && s.nf.mem_mb == 0)) [
      | inl e ↦ rw e v
      | inr e ↦ rw e (record {
        file = λ f h. v.file f (sym (opened f) ∙ h);
        groups = λ c h. any_has-append c s.exit_func _ ∙ ground (arith, limited c, h, v.groups c);
      })
    ]

fresh-IsTracked : (nf : Netflow) → IsTracked (fresh nf)
unfolding is_open is_pending
fresh-IsTracked nf = record { file = λ f h. ground (arith, h); groups = λ c h. ground (arith, h) }

configure_persist-IsTracked :
    (mc : Machine) (nf : Netflow) → IsTracked (configure_persist mc (fresh nf)).0
unfolding configure_persist is_open is_pending any_has
configure_persist-IsTracked mc nf = elim (Bool-cases (length nf.pcap_file_name == 0)) [
  | inl e ↦ rw e (fresh-IsTracked nf)
  | inr e ↦ rw e (elim (Bool-cases (mc.create nf.pcap_file_name)) [
    | inl c ↦ rw c (record {
      file = λ f h. ground (arith, h, bytes_eq_iff f nf.pcap_file_name);
      groups = λ c h. ground (arith, h);
    })
    | inr c ↦ rw c (fresh-IsTracked nf)
  ])
]

start-IsTracked : (mc : Machine) (nf : Netflow) → IsTracked (start mc (fresh nf)).0
unfolding start is_open is_pending
start-IsTracked mc nf =
    let v = configure_persist-IsTracked mc nf in
    elim (Option-cases (configure_persist mc (fresh nf)).1) [
      | inr (e, h) ↦ rw (start, h) v
      | inl h ↦
          rw (start, h)
            (let w = configure_cgroups-IsTracked mc (configure_persist mc (fresh nf)).0 v in
              elim (Option-cases (configure_cgroups mc (configure_persist mc (fresh nf)).0).1) [
                | inr (e, k) ↦ rw k w
                | inl k ↦ rw k (record { file = w.file; groups = w.groups })
              ])
    ]

-- After `Start` on a new monitor, whether it succeeds or fails, and then any number of calls of
-- `Stop` before or after the start of the sniffer, a `Stop` has called `Close` on every file that
-- was created and `Delete` on every control group that was made, and the context is cancelled.
-- (`Delete` may fail, and its error is dropped: that the group is gone is not claimed.)
pub stop-start :
    (mc : Machine) (nf : Netflow) (es : List Event)
    → IsReleased (stop (run es (start mc (fresh nf)).0))
stop-start mc nf es =
    stop-IsReleased _ (run-IsTracked es (start mc (fresh nf)).0 (start-IsTracked mc nf))
