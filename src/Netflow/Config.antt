-- ===== src/Netflow/Config.antt =====
-- What `New` guarantees of the state that it returns, whatever options it is given.
use go_netflow.Base.{◌<◌, ◌≡◌, refl, ap, ◌∙◌, ◌⊎◌, inl, inr, false, List, [], ◌∷◌, arith}
use go_netflow.Base.Dict.{Dict}
use go_netflow.Base.Int64.{ltb64, half64}
use go_netflow.Netflow.{Netflow}
use go_netflow.Mapping.{Mapping}
use go_netflow.Netflow.Options.{
  Result, OptionError, ok, err, Opt, pcap_filter, open_debug, limit_cgroup, store_pcap,
  capture_timeout, name, sync_interval, worker_num, ctx, bind_ips, bind_devices, queue_size,
  run_opt, apply_opts, new, defaults, default_queue_size, default_capture_timeout, with_pcap_filter,
  with_open_debug, with_limit_cgroup, with_store_pcap, with_capture_timeout, with_name,
  with_sync_interval, with_worker_num, with_ctx, with_bind_ips, with_bind_devices, with_queue_size,
}

pub Result-cases :
    (r : Result Netflow) → ((x : OptionError) × (r ≡ err x)) ⊎ ((nf : Netflow) × (r ≡ ok nf))
Result-cases (ok nf) = inr (nf, refl)
Result-cases (err x) = inl (x, refl)

-- The settings are in range.
pub record IsConfigured (nf : Netflow) : Type 0 where
  pub timeout : ltb64 default_capture_timeout nf.capture_timeout ≡ false
  pub interval : 0 < nf.sync_interval
  pub interval_sign : nf.sync_interval < half64
  pub workers : 0 < nf.worker_num
  pub workers_sign : nf.worker_num < half64
  pub queue : ltb64 nf.qsize 1000 ≡ false

run_opt-IsConfigured :
    (opt : Opt) (nf nf' : Netflow) → run_opt opt nf ≡ ok nf' → IsConfigured nf → IsConfigured nf'
unfolding run_opt with_bind_devices with_bind_ips with_capture_timeout with_ctx with_limit_cgroup
    with_name with_open_debug with_pcap_filter with_queue_size with_store_pcap with_sync_interval
    with_worker_num
run_opt-IsConfigured (pcap_filter filter) nf nf' e v = ground arith
run_opt-IsConfigured open_debug nf nf' e v = ground arith
run_opt-IsConfigured (limit_cgroup cpu mem) nf nf' e v = ground arith
run_opt-IsConfigured (store_pcap fpath) nf nf' e v = ground arith
run_opt-IsConfigured (capture_timeout dur) nf nf' e v = ground arith
run_opt-IsConfigured (name pname) nf nf' e v = ground arith
run_opt-IsConfigured (sync_interval dur) nf nf' e v = ground arith
run_opt-IsConfigured (worker_num num) nf nf' e v = ground arith
run_opt-IsConfigured (ctx done) nf nf' e v = ground arith
run_opt-IsConfigured (bind_ips ips) nf nf' e v = ground arith
run_opt-IsConfigured (bind_devices devs) nf nf' e v = ground arith
run_opt-IsConfigured (queue_size size) nf nf' e v = ground arith

-- What an option keeps: the channels, the counter, the mapping, and all of the controller but the
-- name that it filters by.
abbrev pub Same : Netflow → Netflow → Type 0
Same nf nf' =
    (nf'.packet_queue ≡ nf.packet_queue)
    × (nf'.delay_queue ≡ nf.delay_queue)
    × (nf'.counter ≡ nf.counter)
    × (nf'.conn_inode_hash ≡ nf.conn_inode_hash)
    × (nf'.process_hash.heap ≡ nf.process_hash.heap)
    × (nf'.process_hash.dict ≡ nf.process_hash.dict)

run_opt-Same : (opt : Opt) (nf nf' : Netflow) → run_opt opt nf ≡ ok nf' → Same nf nf'
unfolding run_opt with_bind_devices with_bind_ips with_capture_timeout with_ctx with_limit_cgroup
    with_name with_open_debug with_pcap_filter with_queue_size with_store_pcap with_sync_interval
    with_worker_num
run_opt-Same (pcap_filter filter) nf nf' e = ground arith
run_opt-Same open_debug nf nf' e = ground arith
run_opt-Same (limit_cgroup cpu mem) nf nf' e = ground arith
run_opt-Same (store_pcap fpath) nf nf' e = ground arith
run_opt-Same (capture_timeout dur) nf nf' e = ground arith
run_opt-Same (name pname) nf nf' e = ground arith
run_opt-Same (sync_interval dur) nf nf' e = ground arith
run_opt-Same (worker_num num) nf nf' e = ground arith
run_opt-Same (ctx done) nf nf' e = ground arith
run_opt-Same (bind_ips ips) nf nf' e = ground arith
run_opt-Same (bind_devices devs) nf nf' e = ground arith
run_opt-Same (queue_size size) nf nf' e = ground arith

apply_opts-IsConfigured :
    (opts : List Opt) (nf nf' : Netflow)
    → apply_opts opts nf ≡ ok nf'
    → IsConfigured nf
    → IsConfigured nf'
unfolding apply_opts
apply_opts-IsConfigured [] nf nf' e v = ground arith
apply_opts-IsConfigured (opt ∷ opts) nf nf' e v = elim (Result-cases (run_opt opt nf)) [
  | inl (x, f) ↦ absurd (ground arith)
  | inr (mid, f) ↦
      apply_opts-IsConfigured opts mid nf' (ground arith) (run_opt-IsConfigured opt nf mid f v)
]

apply_opts-Same : (opts : List Opt) (nf nf' : Netflow) → apply_opts opts nf ≡ ok nf' → Same nf nf'
unfolding apply_opts
apply_opts-Same [] nf nf' e = ground arith
apply_opts-Same (opt ∷ opts) nf nf' e = elim (Result-cases (run_opt opt nf)) [
  | inl (x, f) ↦ absurd (ground arith)
  | inr (mid, f) ↦
      let (p, d, c, m, h, t) = run_opt-Same opt nf mid f in
      let (p', d', c', m', h', t') = apply_opts-Same opts mid nf' (ground arith) in
      (p' ∙ p, d' ∙ d, c' ∙ c, m' ∙ m, h' ∙ h, t' ∙ t)
]

-- Whatever options `New` is given, if it returns a state, its capture timeout is at most the
-- default of 360 days, its sync interval and its number of workers are positive, and its queue
-- size is at least 1000.
pub new-IsConfigured :
    (ips devs : Dict (Unit {0})) (opts : List Opt) (nf : Netflow)
    → new ips devs opts ≡ ok nf
    → IsConfigured nf
unfolding new
new-IsConfigured ips devs opts nf e =
    apply_opts-IsConfigured opts (defaults ips devs) nf e (ground arith)

-- Whatever options `New` is given, the queue size among them, if it returns a state, both its
-- channels are empty and of the default capacity: `WithQueueSize` sets a field that was read
-- before.
pub new-capacity :
    (ips devs : Dict (Unit {0})) (opts : List Opt) (nf : Netflow)
    → new ips devs opts ≡ ok nf
    → (nf.packet_queue ≡ record { capacity = default_queue_size; items = [] })
      × (nf.delay_queue ≡ record { capacity = default_queue_size; items = [] })
unfolding new
new-capacity ips devs opts nf e =
    let (p, d, _, _, _, _) = apply_opts-Same opts (defaults ips devs) nf e in (p, d)

-- What `New` returns has counted nothing, and knows no connection and no process.
pub new-fresh :
    (ips devs : Dict (Unit {0})) (opts : List Opt) (nf : Netflow)
    → new ips devs opts ≡ ok nf
    → (nf.counter ≡ 0)
      × (nf.conn_inode_hash.dict ≡ [])
      × (nf.process_hash.heap ≡ [])
      × (nf.process_hash.dict ≡ [])
unfolding new
new-fresh ips devs opts nf e =
    let (_, _, c, m, h, t) = apply_opts-Same opts (defaults ips devs) nf e in
    (c, ap (λ (x : Mapping). x.dict) m, h, t)
