-- ===== src/Lifecycle/Outcomes.antt =====
-- When `Start` succeeds, and that it starts the goroutines exactly then.
use go_netflow.Base.{
  ◌≡◌, refl, ap, ◌∙◌, Bool, true, false, ◌&&◌, ◌||◌, Option, none, some, List, ◌∷◌, ◌==◌, arith,
  Bool-cases, Option-cases, inl, inr, length, ◌++◌,
}
use go_netflow.Netflow.{Netflow}
use go_netflow.Lifecycle.{
  Effect, starts_syncer, starts_sniffer, Machine, Life, fresh, resources, configure,
  configure_cgroups, configure_persist, start,
}

abbrev pub is_none {ℓ} : {A : Type ℓ} → Option A → Bool
is_none none = true
is_none (some a) = false

-- Whether a log starts the syncer and the sniffer as its last two effects.
unfoldable pub has_started : List Effect → Bool
has_started (starts_sniffer ∷ starts_syncer ∷ log) = true
has_started log = false

-- There is no file to write, or it can be created; there is no limit, or the control group can be
-- made and the process be added to it.
abbrev pub can_persist : Machine → Netflow → Bool
can_persist mc nf = length nf.pcap_file_name == 0 || mc.create nf.pcap_file_name

abbrev pub can_group : Machine → Netflow → Bool
can_group mc nf = elim (mc.new_group (resources mc nf.cpu_core nf.mem_mb)) [
  | none ↦ false
  | some control ↦ mc.add_process control
]

abbrev pub can_limit : Machine → Netflow → Bool
can_limit mc nf = (mc.is_zero nf.cpu_core && nf.mem_mb == 0) || (mc.linux && can_group mc nf)

configure_persist_lem :
    (mc : Machine) (nf : Netflow)
    → (is_none (configure_persist mc (fresh nf)).1 ≡ can_persist mc nf)
      × ((configure_persist mc (fresh nf)).0.nf ≡ nf)
      × (has_started (configure_persist mc (fresh nf)).0.log ≡ false)
unfolding configure_persist has_started
configure_persist_lem mc nf = elim (Bool-cases (length nf.pcap_file_name == 0)) [
  | inl e ↦ rw e (refl, refl, refl)
  | inr e ↦ rw e (elim (Bool-cases (mc.create nf.pcap_file_name)) [
    | inl c ↦ rw c (refl, refl, refl)
    | inr c ↦ rw c (refl, refl, refl)
  ])
]

configure_lem :
    (mc : Machine) (nf : Netflow) (log : List Effect)
    → (is_none (configure mc nf.cpu_core nf.mem_mb).1.1 ≡ (mc.linux && can_group mc nf))
      × (has_started log ≡ false
          → has_started ((configure mc nf.cpu_core nf.mem_mb).1.0 ++ log) ≡ false)
unfolding configure has_started resources
configure_lem mc nf log = elim (Bool-cases mc.linux) [
  | inr e ↦ rw e (refl, λ h. h)
  | inl e ↦ rw e (elim (Option-cases (mc.new_group (resources mc nf.cpu_core nf.mem_mb))) [
    | inl n ↦ rw n (refl, λ h. h)
    | inr (d, m) ↦ rw m (elim (Bool-cases (mc.add_process d)) [
      | inl a ↦ rw a (refl, λ h. refl)
      | inr a ↦ rw a (refl, λ h. refl)
    ])
  ])
]

configure_cgroups_lem :
    (mc : Machine) (s : Life)
    → (is_none (configure_cgroups mc s).1 ≡ can_limit mc s.nf)
      × (has_started s.log ≡ false → has_started (configure_cgroups mc s).0.log ≡ false)
unfolding configure_cgroups
configure_cgroups_lem mc s = elim (Bool-cases (mc.is_zero s.nf.cpu_core && s.nf.mem_mb == 0)) [
  | inl e ↦ rw e (refl, λ h. h)
  | inr e ↦ rw e (configure_lem mc s.nf s.log)
]

and_lem : (a b c d : Bool) → a ≡ c → b ≡ d → ((a && b) ≡ (c && d))
and_lem a b c d e f = ground (arith, e, f)

start_runs :
    (mc : Machine) (s : Life)
    → has_started (configure_persist mc s).0.log ≡ false
    → has_started (configure_cgroups mc (configure_persist mc s).0).0.log ≡ false
    → (is_none (start mc s).1 ≡ (
        is_none (configure_persist mc s).1
        && is_none (configure_cgroups mc (configure_persist mc s).0).1))
      × (has_started (start mc s).0.log ≡ is_none (start mc s).1)
unfolding start has_started
start_runs mc s h k = elim (Option-cases (configure_persist mc s).1) [
  | inr (e, p) ↦ rw (start, p) (refl, h)
  | inl p ↦
      rw (start, p)
        (elim (Option-cases (configure_cgroups mc (configure_persist mc s).0).1) [
          | inr (e, q) ↦ rw (start, q) (refl, k)
          | inl q ↦ rw (start, q) (refl, refl)
        ])
]

-- On a new monitor `Start` returns no error exactly if the pcap file, when one is asked for, can be
-- created, and the limits, when there are any, can be set, which takes Linux; and it starts the
-- syncer and the sniffer exactly then.
pub start_iff :
    (mc : Machine) (nf : Netflow)
    → (is_none (start mc (fresh nf)).1 ≡ (can_persist mc nf && can_limit mc nf))
      × (has_started (start mc (fresh nf)).0.log ≡ (can_persist mc nf && can_limit mc nf))
start_iff mc nf =
    let (p, same, q) = configure_persist_lem mc nf in
    let (limit, quiet) = configure_cgroups_lem mc (configure_persist mc (fresh nf)).0 in
    let (e, f) = start_runs mc (fresh nf) q (quiet q) in
    let e' = e ∙ and_lem _ _ _ _ p (limit ∙ ap (can_limit mc) same) in (e', f ∙ e')
