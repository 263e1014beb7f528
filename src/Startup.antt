-- ===== src/Startup.antt =====
-- cmd/main.go, with the files of config/config.go and utils/helper.go: from the flags to a running
-- monitor. The file system and the decoders of JSON and YAML are an argument. `log.Fatalf` ends the
-- process. The profiler and the log lines are left out.
pub mod Runs
mod Tests
use go_netflow.Base.{
  Bool, true, false, ◌||◌, Option, none, some, List, [], ◌∷◌, if◌then◌else◌, ◌==◌, length,
}
use go_netflow.Base.Bytes.{Bytes, codes, has_suffix}
use go_netflow.Base.Dict.{Dict}
use go_netflow.Base.Outcome.{Outcome, panic, returns, ◌>>=◌}
use go_netflow.Netflow.{Netflow}
use go_netflow.Netflow.Options.{OptionError, ok, err, new}
use go_netflow.Lifecycle.{Machine, Life, StartError, fresh, start}
use go_netflow.Core.{Config, get_config, start_options}

-- What reading and decoding return; `none` is an error.
pub record Files : Type 0 where
  pub content : Bytes → Option Bytes
  pub json : Bytes → Option Config
  pub yaml : Bytes → Option Config

-- `GetFileContent`
unfoldable pub get_file_content : Files → Bytes → Option Bytes
get_file_content fs path = fs.content path

-- `UnmarshalConfigFromFile`: the end of the name says how to decode.
unfoldable pub unmarshal_config_from_file : Files → Bytes → Option Config
unmarshal_config_from_file fs path = elim (get_file_content fs path) [
  | none ↦ none
  | some text ↦
      if has_suffix path (codes ".json")
      then fs.json text
      else if has_suffix path (codes ".yml") || has_suffix path (codes ".yaml")
      then fs.yaml text
      else none
]

-- The flags; a flag that is not given has its default.
pub record Flags : Type 0 where
  pub pname : Bytes
  pub filter : Bytes
  pub config_path : Option Bytes

unfoldable pub path_of : Flags → Bytes
path_of flags = elim flags.config_path [
  | none ↦ codes "/usr/local/super-agent/config.yaml"
  | some path ↦ path
]

-- `main` up to the call of `core.Start`. The name and the filter of the file are replaced.
unfoldable pub read_config : Files → Flags → Outcome Config
read_config fs flags = do
  config ← get_config (unmarshal_config_from_file fs (path_of flags))
  if length (path_of flags) == 0
      then panic
      else returns (record config { nethogs = flags.pname; filter = flags.filter })

-- What `core.Start` comes to: the end of the process by `log.Fatalf`, or the monitor running.
pub data Started : Type 0 where
  not_created : OptionError → Started
  not_started : StartError → Life → Started
  runs : Life → Started

-- `core.Start` up to its goroutines, on the interfaces that `New` finds.
unfoldable pub start_core : Machine → Dict (Unit {0}) → Dict (Unit {0}) → Config → Started
start_core mc ips devs c = elim (new ips devs (start_options c)) [
  | err e ↦ not_created e
  | ok nf ↦
      let (life, e) = start mc (fresh nf) in
      elim e [ some e' ↦ not_started e' life | none ↦ runs life ]
]

-- `main`
unfoldable pub main : Machine → Dict (Unit {0}) → Dict (Unit {0}) → Files → Flags → Outcome Started
main mc ips devs fs flags = do c ← read_config fs flags; returns (start_core mc ips devs c)
