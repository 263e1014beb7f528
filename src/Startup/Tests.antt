-- ===== src/Startup/Tests.antt =====
-- Runs of `main`: with a file that has what it needs, and with an empty path.
use go_netflow.Base.{◌*◌, ◌≡◌, refl, true, false, none, some, [], ◌∷◌, ◌==◌, if◌then◌else◌}
use go_netflow.Base.Bytes.{codes, bytes_eq, has_prefix, has_suffix}
use go_netflow.Base.Outcome.{panic, returns}
use go_netflow.Lifecycle.{Machine}
use go_netflow.Core.{Config, get_config}
use go_netflow.Startup.{
  Files, Flags, unmarshal_config_from_file, get_file_content, path_of, read_config, main, runs,
}
use go_netflow.Startup.Runs.{configured, running, main_lem}

abbrev machine : Machine
machine = record {
  linux = false;
  create = λ path. true;
  new_group = λ rs. none;
  add_process = λ control. true;
  one = 1;
  is_zero = λ core. core == 0;
  is_not_positive = λ core. core == 0;
  quota_of = λ core. core * 10000;
}

abbrev stored : Config
stored = record {
  agent = record {
    server_endpoint = codes "http://a";
    device_id = codes "dev";
    biz_type = [];
    app_key = [];
    app_secret = [];
  };
  device_id_path = codes "/etc/id";
  nethogs = codes "old";
  filter = codes "53";
}

-- One file, which decodes to `stored`; any other path cannot be read.
abbrev files : Files
files = record {
  content = λ path. if bytes_eq path (codes "a.yml") then some (codes "text") else none;
  json = λ text. none;
  yaml = λ text. some stored;
}

abbrev flags : Flags
flags = record { pname = codes "nginx"; filter = codes "80"; config_path = some (codes "a.yml") }

empty_path : read_config files (record flags { config_path = some [] }) ≡ panic
unfolding read_config get_config unmarshal_config_from_file get_file_content path_of bytes_eq
empty_path = refl

main_example :
    main machine [] ((codes "eth0", tt) ∷ []) files flags
    ≡ returns
        (runs (running (configured [] ((codes "eth0", tt) ∷ []) (codes "nginx") (codes "80"))))
unfolding unmarshal_config_from_file get_file_content path_of has_suffix has_prefix bytes_eq
main_example = main_lem machine [] ((codes "eth0", tt) ∷ []) files flags refl
