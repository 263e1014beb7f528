-- ===== src/Devices/Tests.antt =====
-- Two interfaces, one of them with a name that is not captured.
use go_netflow.Base.{◌≡◌, refl, true, false, some, List, [], ◌∷◌, if◌then◌else◌}
use go_netflow.Base.Bytes.{codes, bytes_eq, has_prefix}
use go_netflow.Base.Dict.{lookup, insert}
use go_netflow.Controller.{has_key}
use go_netflow.Traffic.{input_side, output_side}
use go_netflow.Netflow.{Netflow, determine_side}
use go_netflow.Netflow.Options.{ok, open_debug, new, apply_opts, run_opt, with_open_debug, defaults}
use go_netflow.Devices.{
  Interface, note_addresses, note_name, note_devices, parse_ipaddrs_and_devices, build_pcap_handler,
  filter_of,
}
use go_netflow.Devices.Sides.{is_local, is_captured, are_neutral, determine_side-parse}

abbrev interfaces : List Interface
interfaces =
    record {
      name = codes "eth0";
      addresses =
          record { is_multicast = false; text = codes "10.0.0.1" }
          ∷ record { is_multicast = true; text = codes "224.0.0.1" }
          ∷ [];
    }
    ∷ record {
      name = codes "wlan0";
      addresses = record { is_multicast = false; text = codes "10.0.0.2" } ∷ [];
    }
    ∷ []

abbrev found : Netflow
found =
    record (defaults ((codes "10.0.0.1", tt) ∷ (codes "10.0.0.2", tt) ∷ [])
      ((codes "eth0", tt) ∷ [])) { debug_mode = true }

found_lem :
    new
      (parse_ipaddrs_and_devices (some interfaces)).0
      (parse_ipaddrs_and_devices (some interfaces)).1
      (open_debug ∷ [])
    ≡ ok found
unfolding new apply_opts run_opt with_open_debug parse_ipaddrs_and_devices note_devices
    note_addresses note_name has_prefix insert bytes_eq
found_lem = refl

determine_side-parse_example :
    (determine_side found (codes "10.0.0.1")
      ≡ (if is_local interfaces (codes "10.0.0.1") then output_side else input_side))
    × (has_key (lookup (codes "wlan0") found.bind_devices) ≡ is_captured interfaces (codes "wlan0"))
unfolding are_neutral
determine_side-parse_example =
    determine_side-parse interfaces (open_debug ∷ []) found (codes "10.0.0.1") (codes "wlan0") refl
      found_lem

-- The filter of the user takes the place of the default one.
own_filter :
    build_pcap_handler some (λ h filter. some filter) (codes "eth0") (codes "udp")
    ≡ some (codes "udp")
unfolding build_pcap_handler filter_of
own_filter = refl
