-- ===== src/Devices/Sides.antt =====
-- The interfaces of the machine decide the side of a packet and the devices that are captured.
use go_netflow.Base.{
  ◌≡◌, refl, ap, ◌∙◌, Bool, true, false, not, ◌&&◌, ◌||◌, some, List, [], ◌∷◌, if◌then◌else◌, arith,
  Bool-cases, inl, inr,
}
use go_netflow.Base.Bytes.{Bytes, bytes_eq, has_prefix}
use go_netflow.Base.Dict.{Dict, lookup, insert, lookup-insert}
use go_netflow.Controller.{has_key}
use go_netflow.Traffic.{input_side, output_side}
use go_netflow.Netflow.{Netflow, is_bind_ips, determine_side}
use go_netflow.Netflow.Options.{
  ok, Opt, pcap_filter, open_debug, limit_cgroup, store_pcap, capture_timeout, name, sync_interval,
  worker_num, ctx, bind_ips, bind_devices, queue_size, run_opt, apply_opts, new, with_pcap_filter,
  with_open_debug, with_limit_cgroup, with_store_pcap, with_capture_timeout, with_name,
  with_sync_interval, with_worker_num, with_ctx, with_bind_ips, with_bind_devices, with_queue_size,
}
use go_netflow.Netflow.Config.{Result-cases}
use go_netflow.Devices.{
  Address, Interface, note_addresses, prefixes, note_name, note_devices, parse_ipaddrs_and_devices,
}

-- Whether a text is an address of the machine that is not multicast.
unfoldable pub is_address : List Address → Bytes → Bool
is_address [] ip = false
is_address (addr ∷ addrs) ip =
    (not addr.is_multicast && bytes_eq addr.text ip) || is_address addrs ip

unfoldable pub is_local : List Interface → Bytes → Bool
is_local [] ip = false
is_local (dev ∷ devs) ip = is_address dev.addresses ip || is_local devs ip

-- Whether a name is that of an interface and has one of the prefixes.
unfoldable pub fits : List Bytes → Bytes → Bool
fits [] dev = false
fits (p ∷ ps) dev = has_prefix dev p || fits ps dev

unfoldable pub is_captured : List Interface → Bytes → Bool
is_captured [] j = false
is_captured (dev ∷ devs) j = (fits prefixes dev.name && bytes_eq dev.name j) || is_captured devs j

has_key-insert :
    (k j : Bytes) (m : Dict (Unit {0}))
    → has_key (lookup j (insert k tt m)) ≡ (bytes_eq k j || has_key (lookup j m))
has_key-insert k j m = rw (lookup-insert k j tt m) (ground arith)

note_addresses_lem :
    (addrs : List Address) (ips : Dict (Unit {0})) (j : Bytes)
    → has_key (lookup j (note_addresses addrs ips)) ≡ (is_address addrs j || has_key (lookup j ips))
unfolding note_addresses is_address
note_addresses_lem [] ips j = refl
note_addresses_lem (addr ∷ addrs) ips j = elim (Bool-cases addr.is_multicast) [
  | inl e ↦ rw e (note_addresses_lem addrs ips j)
  | inr e ↦ rw e (
      note_addresses_lem addrs (insert addr.text tt ips) j
      ∙ ground (arith, has_key-insert addr.text j ips))
]

note_name_lem :
    (ps : List Bytes) (dev : Bytes) (names : Dict (Unit {0})) (j : Bytes)
    → has_key (lookup j (note_name ps dev names))
      ≡ ((fits ps dev && bytes_eq dev j) || has_key (lookup j names))
unfolding note_name fits
note_name_lem [] dev names j = refl
note_name_lem (p ∷ ps) dev names j = elim (Bool-cases (has_prefix dev p)) [
  | inl e ↦ rw e (has_key-insert dev j names)
  | inr e ↦ rw e (note_name_lem ps dev names j)
]

note_devices_lem :
    (devs : List Interface) (found : Dict (Unit {0}) × Dict (Unit {0})) (j : Bytes)
    → (has_key (lookup j (note_devices devs found).0)
        ≡ (is_local devs j || has_key (lookup j found.0)))
      × (has_key (lookup j (note_devices devs found).1)
          ≡ (is_captured devs j || has_key (lookup j found.1)))
unfolding note_devices is_local is_captured
note_devices_lem [] found j = (refl, refl)
note_devices_lem (dev ∷ devs) (ips, names) j =
    let found : Dict (Unit {0}) × Dict (Unit {0}) =
      (note_addresses dev.addresses ips, note_name prefixes dev.name names) in
    let (p, q) = note_devices_lem devs found j in
    (
      p ∙ ground (arith, note_addresses_lem dev.addresses ips j),
      q ∙ ground (arith, note_name_lem prefixes dev.name names j),
    )

-- The option leaves the addresses and the devices as `New` found them.
abbrev pub is_neutral : Opt → Bool
is_neutral (bind_ips ips) = false
is_neutral (bind_devices devs) = false
is_neutral opt = true

unfoldable pub are_neutral : List Opt → Bool
are_neutral [] = true
are_neutral (opt ∷ opts) = is_neutral opt && are_neutral opts

run_opt_neutral :
    (opt : Opt) (nf nf' : Netflow)
    → is_neutral opt ≡ true
    → run_opt opt nf ≡ ok nf'
    → (nf'.bind_ips ≡ nf.bind_ips) × (nf'.bind_devices ≡ nf.bind_devices)
unfolding run_opt with_bind_devices with_bind_ips with_capture_timeout with_ctx with_limit_cgroup
    with_name with_open_debug with_pcap_filter with_queue_size with_store_pcap with_sync_interval
    with_worker_num
run_opt_neutral (pcap_filter filter) nf nf' h e = ground arith
run_opt_neutral open_debug nf nf' h e = ground arith
run_opt_neutral (limit_cgroup cpu mem) nf nf' h e = ground arith
run_opt_neutral (store_pcap fpath) nf nf' h e = ground arith
run_opt_neutral (capture_timeout dur) nf nf' h e = ground arith
run_opt_neutral (name pname) nf nf' h e = ground arith
run_opt_neutral (sync_interval dur) nf nf' h e = ground arith
run_opt_neutral (worker_num num) nf nf' h e = ground arith
run_opt_neutral (ctx done) nf nf' h e = ground arith
run_opt_neutral (bind_ips ips) nf nf' h e = absurd (ground arith)
run_opt_neutral (bind_devices devs) nf nf' h e = absurd (ground arith)
run_opt_neutral (queue_size size) nf nf' h e = ground arith

apply_opts_neutral :
    (opts : List Opt) (nf nf' : Netflow)
    → are_neutral opts ≡ true
    → apply_opts opts nf ≡ ok nf'
    → (nf'.bind_ips ≡ nf.bind_ips) × (nf'.bind_devices ≡ nf.bind_devices)
unfolding apply_opts are_neutral
apply_opts_neutral [] nf nf' h e = ground arith
apply_opts_neutral (opt ∷ opts) nf nf' h e = elim (Result-cases (run_opt opt nf)) [
  | inl (x, f) ↦ absurd (ground arith)
  | inr (mid, f) ↦
      let (p, q) = run_opt_neutral opt nf mid (ground arith) f in
      let (p', q') = apply_opts_neutral opts mid nf' (ground arith) (ground arith) in
      (p' ∙ p, q' ∙ q)
]

parse_lem :
    (devs : List Interface) (j : Bytes)
    → (has_key (lookup j (parse_ipaddrs_and_devices (some devs)).0) ≡ is_local devs j)
      × (has_key (lookup j (parse_ipaddrs_and_devices (some devs)).1) ≡ is_captured devs j)
unfolding parse_ipaddrs_and_devices lookup
parse_lem devs j =
    let (p, q) = note_devices_lem devs ([], []) j in (p ∙ ground arith, q ∙ ground arith)

-- After `New` without `WithBindIPs` and `WithBindDevices`, a packet counts as output exactly if its
-- source is an address of some interface, other than a multicast one, and the devices that are
-- captured are the interfaces whose name starts with one of the seven prefixes.
pub determine_side-parse :
    (devs : List Interface) (opts : List Opt) (nf : Netflow) (ip dev : Bytes)
    → are_neutral opts ≡ true
    → new (parse_ipaddrs_and_devices (some devs)).0 (parse_ipaddrs_and_devices (some devs)).1 opts
      ≡ ok nf
    → (determine_side nf ip ≡ (if is_local devs ip then output_side else input_side))
      × (has_key (lookup dev nf.bind_devices) ≡ is_captured devs dev)
unfolding new determine_side is_bind_ips
determine_side-parse devs opts nf ip dev h e =
    let (p, q) = apply_opts_neutral opts _ nf h e in
    (
      rw (p, (parse_lem devs ip).0) refl,
      ap (λ m. has_key (lookup dev m)) q ∙ (parse_lem devs dev).1,
    )
