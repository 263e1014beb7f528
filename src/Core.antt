-- ===== src/Core.antt =====
-- core/blocking.go: the command that runs the monitor. Here the options that `Start` gives to
-- `New`, and its goroutines from then on, as steps that interleave: the wait of `Start` for a
-- signal or its timeout, `handleSignals`, which reads the same channel, and the end of
-- `processRanking`. `Report` has the rounds of `processRanking`. core2/blocking.go has the same
-- goroutines. The timer of `startNetworkSniffer` stops the monitor after the capture timeout, once.
-- `accepted`, `taken`, `expired` and `stops` are not of the code: the signals that the channel took
-- and that `Start` took from it, whether the timer has fired, and the calls of `Stop`.
pub mod Shutdown
pub mod Report
pub mod Ready
pub mod Reported
pub mod Running
pub mod Outgoing
pub mod Uploaded
pub mod Serving
pub mod Ticks
pub mod Served
pub mod Ranked
mod Tests
use go_netflow.Base.{
  ℕ, ◌+◌, ◌*◌, ◌≡◌, Bool, true, false, Option, none, some, List, [], ◌∷◌, ◌++◌, if◌then◌else◌, ◌==◌,
  length,
}
use go_netflow.Base.Bytes.{Bytes, codes}
use go_netflow.Base.Int64.{Int64, second}
use go_netflow.Base.Outcome.{Outcome, panic, returns}
use go_netflow.Netflow.{Chan, try_send}
use go_netflow.Netflow.Options.{Opt, name, capture_timeout, pcap_filter, queue_size}

-- `AgentConfig` and `Config` of config/config.go, the fields that the command reads.
pub record AgentConfig : Type 0 where
  pub server_endpoint : Bytes
  pub device_id : Bytes
  pub biz_type : Bytes
  pub app_key : Bytes
  pub app_secret : Bytes

pub record Config : Type 0 where
  pub agent : AgentConfig
  pub device_id_path : Bytes
  pub nethogs : Bytes
  pub filter : Bytes

-- `GetConfig` of config/config.go, given what reading the file returns.
unfoldable pub get_config : Option Config → Outcome Config
get_config none = panic
get_config (some config) =
    if length config.agent.server_endpoint == 0
    then panic
    else if length config.device_id_path == 0
    then panic
    else returns config

-- The options that `Start` gives to `New`.
unfoldable pub start_options : Config → List Opt
start_options c =
    let filter =
      (if length c.filter == 0 then [] else codes "tcp and port " ++ c.filter ++ codes " ") in
    name c.nethogs
    ∷ capture_timeout (12 * 30 * 24 * 60 * (60 * second))
    ∷ pcap_filter filter
    ∷ queue_size 20000
    ∷ []

-- A goroutine that waits, or that has returned.
pub data Loop : Type 0 where
  waits gone : Loop

pub record Command : Type 0 where
  pub sigch : Chan ℕ
  pub ctx_done : Bool
  pub main : Loop
  pub handler : Loop
  pub ranker : Loop
  pub expired : Bool
  pub stops : ℕ
  pub accepted : ℕ
  pub taken : ℕ

-- After `signal.Notify`, and the start of both goroutines.
abbrev pub launch : Command
launch = record {
  sigch = record { capacity = 1; items = [] };
  ctx_done = false;
  main = waits;
  handler = waits;
  ranker = waits;
  expired = false;
  stops = 0;
  accepted = 0;
  taken = 0;
}

-- A signal: `signal.Notify` does not wait for room in the channel.
unfoldable pub notify : Command → ℕ → Command
notify s sig = elim (try_send s.sigch sig) [
  | none ↦ s
  | some ch ↦ record s { sigch = ch; accepted = s.accepted + 1 }
]

-- `handleSignals` at a signal: it cancels the context and returns.
unfoldable pub handle_signal : Command → List ℕ → Command
handle_signal s rest = record s {
  sigch = record s.sigch { items = rest };
  handler = gone;
  ctx_done = true;
}

-- The return of `Start`: its deferred calls cancel the context and stop the monitor.
unfoldable pub leave_start : Command → Command
leave_start s = record s { main = gone; ctx_done = true; stops = s.stops + 1 }

pub data Step (s : Command) : Command → Type 0 where
  signal : (sig : ℕ) → Step s (notify s sig)
  handle :
      (sig : ℕ) (rest : List ℕ)
      → s.handler ≡ waits
      → s.sigch.items ≡ sig ∷ rest
      → Step s (handle_signal s rest)
  exit :
      (sig : ℕ) (rest : List ℕ)
      → s.main ≡ waits
      → s.sigch.items ≡ sig ∷ rest
      → Step s
          (leave_start (record s { sigch = record s.sigch { items = rest }; taken = s.taken + 1 }))
  time_out : s.main ≡ waits → Step s (leave_start s)
  capture_ends : s.expired ≡ false → Step s (record s { expired = true; stops = s.stops + 1 })
  rank_ends : s.ranker ≡ waits → s.ctx_done ≡ true → Step s (record s { ranker = gone })

pub data Reach (s : Command) : Command → Type 0 where
  here : Reach s s
  next : {t u : Command} → Reach s t → Step t u → Reach s u
