-- ===== src/Traffic/Tests.antt =====
-- Runs of the traffic ring.
use go_netflow.Base.{◌++◌, ℕ, suc, zero, ◌+◌, ◌*◌, ◌≡◌, refl, List, [], ◌∷◌, some, arith}
use go_netflow.Base.Bytes.{codes}
use go_netflow.Base.Int64.{Time, epoch, second, quot64}
use go_netflow.Traffic.{
  Process, TrafficEntry, new_stats, input_side, output_side, increase_process_traffic,
  increase_input, increase_output, analyse_stats, note_last, shrink,
}
use go_netflow.Traffic.Ring.{increase_process_traffic_sheds}
use go_netflow.Traffic.Amount.{Packet, replay}
use go_netflow.Traffic.Window.{analyse_stats-replay}

abbrev idle : Process
idle = record {
  name = codes "Wget";
  pid = codes "225";
  exe = codes "/usr/bin/wget";
  state = [];
  inode_count = 1;
  traffic_stats = some new_stats;
  ring = [];
  inodes = codes "77" ∷ [];
  revision = 0;
}

-- The clock `n` seconds after 1970.
abbrev at : ℕ → Time
at n = (epoch + n) * second

abbrev packets : List Packet
packets =
    record { clock = at 10; size = 500; side = input_side }
    ∷ record { clock = at 12; size = 40; side = input_side }
    ∷ record { clock = at 12; size = 60; side = output_side }
    ∷ record { clock = at 12; size = 2; side = input_side }
    ∷ []

ring-replay :
    (replay idle packets).ring
    ≡ record { timestamp = 10; in_bytes = 500; out_bytes = 0 }
      ∷ record { timestamp = 12; in_bytes = 42; out_bytes = 60 }
      ∷ []
unfolding replay increase_process_traffic increase_input increase_output note_last shrink
ring-replay = refl

-- The window of two seconds at second 13 starts at second 11.
analyse_stats-replay_example :
    (analyse_stats (replay idle packets) 2 (at 13)).traffic_stats
    ≡ some (record {
      in_bytes = 42;
      out_bytes = 60;
      in_rate = quot64 42 2;
      out_rate = quot64 60 2;
      input_ewma = 0;
      output_ewma = 0;
    })
analyse_stats-replay_example =
    analyse_stats-replay idle packets 2 (at 13) refl (omega arith) (omega arith) (omega arith)
      (omega arith) (omega arith)

-- One entry for each of the seconds from `t` on.
abbrev seconds_from : ℕ → ℕ → List TrafficEntry
seconds_from t zero = []
seconds_from t (suc n) =
    record { timestamp = t; in_bytes = 1; out_bytes = 1 } ∷ seconds_from (t + 1) n

abbrev full : Process
full = record idle { ring = seconds_from 1 61 }

increase_process_traffic_sheds_example :
    (increase_process_traffic full 100 input_side (at 61)).ring
    ≡ seconds_from 2 59 ++ record { timestamp = 61; in_bytes = 101; out_bytes = 1 } ∷ []
increase_process_traffic_sheds_example =
    increase_process_traffic_sheds full 100 input_side (at 61)
      (record { timestamp = 1; in_bytes = 1; out_bytes = 1 })
      (record { timestamp = 61; in_bytes = 1; out_bytes = 1 }) (seconds_from 2 59) refl refl refl
