-- ===== src/Startup/Runs.antt =====
-- When `main` runs the monitor.
use go_netflow.Base.{
  ℕ, ◌≡◌, refl, sym, ap, true, false, ◌||◌, Option, none, some, [], ◌∷◌, ◌++◌, if◌then◌else◌, ◌==◌,
  length, arith, Bool-cases, Option-cases, inl, inr,
}
use go_netflow.Base.Bytes.{Bytes, codes, has_prefix, has_suffix}
use go_netflow.Base.Dict.{Dict}
use go_netflow.Base.Outcome.{Outcome, panic, returns}
use go_netflow.Netflow.{Netflow}
use go_netflow.Netflow.Options.{
  ok, new, apply_opts, run_opt, defaults, with_name, with_capture_timeout, with_pcap_filter,
  with_queue_size,
}
use go_netflow.Lifecycle.{
  Machine, Life, fresh, start, starts_syncer, starts_sniffer, configure_persist, configure_cgroups,
}
use go_netflow.Core.{Config, get_config, start_options}
use go_netflow.Startup.{
  Files, Flags, unmarshal_config_from_file, path_of, read_config, Started, runs, start_core, main,
  get_file_content,
}

-- The filter of the capture: empty, or one port.
abbrev pub port_filter : Bytes → Bytes
port_filter port = if length port == 0 then [] else codes "tcp and port " ++ port ++ codes " "

-- The monitor for a process name and a port, on the interfaces of the machine.
abbrev pub configured : Dict (Unit {0}) → Dict (Unit {0}) → Bytes → Bytes → Netflow
configured ips devs pname port =
    let nf = defaults ips devs in
    record nf {
      process_hash = record nf.process_hash { filter_pname = pname };
      pcap_filter = port_filter port;
      qsize = 20000;
    }

with_pcap_filter-cons :
    (x : ℕ) (filter : Bytes) (o : Netflow)
    → with_pcap_filter (x ∷ filter) o ≡ ok (record o { pcap_filter = x ∷ filter })
unfolding with_pcap_filter
with_pcap_filter-cons x filter o = ground arith

with_pcap_filter-port_filter :
    (port : Bytes) (o : Netflow)
    → o.pcap_filter ≡ []
    → with_pcap_filter (port_filter port) o ≡ ok (record o { pcap_filter = port_filter port })
unfolding with_pcap_filter
with_pcap_filter-port_filter port o e = elim (Bool-cases (length port == 0)) [
  | inl h ↦ rw (h, sym e) refl
  | inr h ↦ rw h (with_pcap_filter-cons _ _ o)
]

new-start_options :
    (ips devs : Dict (Unit {0})) (c : Config)
    → new ips devs (start_options c) ≡ ok (configured ips devs c.nethogs c.filter)
unfolding new apply_opts run_opt start_options with_name with_capture_timeout with_queue_size
new-start_options ips devs c =
    rw
      (
        apply_opts,
        with_pcap_filter-port_filter c.filter
            (record (defaults ips devs) {
              process_hash = record (defaults ips devs).process_hash { filter_pname = c.nethogs };
            })
            refl,
      )
      refl

-- The monitor with nothing done but its two goroutines started.
abbrev pub running : Netflow → Life
running nf = record (fresh nf) { log = starts_sniffer ∷ starts_syncer ∷ [] }

configure_cgroups-configured :
    (mc : Machine) (ips devs : Dict (Unit {0})) (pname port : Bytes)
    → mc.is_zero 0 ≡ true
    → configure_cgroups mc (fresh (configured ips devs pname port))
      ≡ (fresh (configured ips devs pname port), none)
unfolding configure_cgroups
configure_cgroups-configured mc ips devs pname port z = rw (configure_cgroups, z) refl

start-configured :
    (mc : Machine) (ips devs : Dict (Unit {0})) (pname port : Bytes)
    → mc.is_zero 0 ≡ true
    → start mc (fresh (configured ips devs pname port))
      ≡ (running (configured ips devs pname port), none)
unfolding start configure_persist
start-configured mc ips devs pname port z =
    let e = configure_cgroups-configured mc ips devs pname port z in
    rw (start, e)
      (ap (λ r. (record r.0 { log = starts_sniffer ∷ starts_syncer ∷ r.0.log }, none)) e)

start_core_lem :
    (mc : Machine) (ips devs : Dict (Unit {0})) (c : Config)
    → mc.is_zero 0 ≡ true
    → start_core mc ips devs c ≡ runs (running (configured ips devs c.nethogs c.filter))
unfolding start_core
start_core_lem mc ips devs c z =
    let e = start-configured mc ips devs c.nethogs c.filter z in
    rw (start_core, new-start_options ips devs c, e) (ap (λ r. runs r.0) e)

unmarshal-nil : (fs : Files) → unmarshal_config_from_file fs [] ≡ none
unfolding unmarshal_config_from_file get_file_content has_suffix has_prefix
unmarshal-nil fs = elim (Option-cases (fs.content [])) [
  | inl e ↦ rw (unmarshal_config_from_file, e) refl
  | inr (text, e) ↦ rw (unmarshal_config_from_file, e) refl
]

path-is_not_empty :
    (fs : Files) (path : Bytes) (c : Config)
    → unmarshal_config_from_file fs path ≡ some c
    → (length path == 0) ≡ false
path-is_not_empty fs [] c e = ground (arith, unmarshal-nil fs, e)
path-is_not_empty fs (x ∷ path) c e = ground arith

-- What the command should do with what the file decodes to.
abbrev pub expected : Dict (Unit {0}) → Dict (Unit {0}) → Flags → Option Config → Outcome Started
expected ips devs flags none = panic
expected ips devs flags (some c) =
    if length c.agent.server_endpoint == 0 || length c.device_id_path == 0
    then panic
    else returns (runs (running (configured ips devs flags.pname flags.filter)))

read_config_lem :
    (fs : Files) (flags : Flags) (c : Config)
    → unmarshal_config_from_file fs (path_of flags) ≡ some c
    → read_config fs flags ≡ (
        if length c.agent.server_endpoint == 0 || length c.device_id_path == 0
        then panic
        else returns (record c { nethogs = flags.pname; filter = flags.filter }))
unfolding read_config get_config
read_config_lem fs flags c e =
    rw (e, path-is_not_empty fs (path_of flags) c e)
      (elim (Bool-cases (length c.agent.server_endpoint == 0)) [
        | inl a ↦ rw a refl
        | inr a ↦ rw a (elim (Bool-cases (length c.device_id_path == 0)) [
          | inl b ↦ rw b refl
          | inr b ↦ rw b refl
        ])
      ])

read_config-none :
    (fs : Files) (flags : Flags)
    → unmarshal_config_from_file fs (path_of flags) ≡ none
    → read_config fs flags ≡ panic
unfolding read_config get_config
read_config-none fs flags e = rw e refl

-- If a limit of 0 cores is no limit, then `main` panics when the file cannot be read or decoded, or
-- has no endpoint or no path of the device's id; and otherwise it creates and starts the monitor
-- without an error, on the interfaces of the machine and for the name and the port of the flags,
-- whatever else the file says.
pub main_lem :
    (mc : Machine) (ips devs : Dict (Unit {0})) (fs : Files) (flags : Flags)
    → mc.is_zero 0 ≡ true
    → main mc ips devs fs flags
      ≡ expected ips devs flags (unmarshal_config_from_file fs (path_of flags))
unfolding main
main_lem mc ips devs fs flags z =
    elim (Option-cases (unmarshal_config_from_file fs (path_of flags))) [
      | inl e ↦ rw (read_config-none fs flags e, e) refl
      | inr (c, e) ↦
          rw (read_config_lem fs flags c e, e)
            (elim (Bool-cases
              (length c.agent.server_endpoint == 0 || length c.device_id_path == 0)) [
                | inl a ↦ rw a refl
                | inr a ↦ rw (a, start_core_lem mc ips devs _ z) refl
              ])
    ]
