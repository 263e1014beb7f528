-- ===== src/Devices.antt =====
-- netflow.go: the interfaces of the machine, `parseIpaddrsAndDevices`, and the handle of a capture,
-- `buildPcapHandler`. What libpcap returns is an argument; an address is what its methods
-- `IsMulticast` and `String` return. A nil map is an empty one, since nothing writes to it.
pub mod Sides
mod Tests
use go_netflow.Base.{
  Bool, true, false, not, ◌||◌, Option, none, some, List, [], ◌∷◌, if◌then◌else◌, ◌==◌, length,
}
use go_netflow.Base.Bytes.{Bytes, codes, has_prefix}
use go_netflow.Base.Dict.{Dict, insert}

-- `pcap.InterfaceAddress`
pub record Address : Type 0 where
  pub is_multicast : Bool
  pub text : Bytes

-- `pcap.Interface`
pub record Interface : Type 0 where
  pub name : Bytes
  pub addresses : List Address

-- The loop over the addresses of an interface.
unfoldable pub note_addresses : List Address → Dict (Unit {0}) → Dict (Unit {0})
note_addresses [] ips = ips
note_addresses (addr ∷ addrs) ips =
    note_addresses addrs (if addr.is_multicast then ips else insert addr.text tt ips)

-- The names that the loop tests for, in its order.
abbrev pub prefixes : List Bytes
prefixes =
    codes "eth"
    ∷ codes "em"
    ∷ codes "enp"
    ∷ codes "eno"
    ∷ codes "ppp"
    ∷ codes "lo"
    ∷ codes "bond"
    ∷ []

-- The chain of tests: the first prefix that fits adds the name.
unfoldable pub note_name : List Bytes → Bytes → Dict (Unit {0}) → Dict (Unit {0})
note_name [] name names = names
note_name (p ∷ ps) name names =
    let rest = note_name ps name names in if has_prefix name p then insert name tt names else rest

-- The loop over the interfaces.
unfoldable pub note_devices :
    List Interface → Dict (Unit {0}) × Dict (Unit {0}) → Dict (Unit {0}) × Dict (Unit {0})
note_devices [] found = found
note_devices (dev ∷ devs) (ips, names) =
    note_devices devs (note_addresses dev.addresses ips, note_name prefixes dev.name names)

-- `parseIpaddrsAndDevices`, given what `FindAllDevs` returns.
unfoldable pub parse_ipaddrs_and_devices :
    Option (List Interface) → Dict (Unit {0}) × Dict (Unit {0})
parse_ipaddrs_and_devices none = ([], [])
parse_ipaddrs_and_devices (some devs) = note_devices devs ([], [])

-- The filter of `buildPcapHandler`.
unfoldable pub filter_of : Bytes → Bytes
filter_of pfilter =
    if not (length pfilter == 0) then pfilter else codes "tcp and (not broadcast and not multicast)"

-- `buildPcapHandler`: libpcap opens a device and sets the filter of a handle, or fails. `none` is
-- an error; when the filter fails the handle stays open.
unfoldable pub build_pcap_handler :
    {H : Type 0} → (Bytes → Option H) → (H → Bytes → Option H) → Bytes → Bytes → Option H
build_pcap_handler open_live set_filter device pfilter = elim (open_live device) [
  | none ↦ none
  | some handler ↦ set_filter handler (filter_of pfilter)
]
