-- ===== src/System/Tests.antt =====
-- A run of the monitor on one device: a packet is captured, forwarded and taken by the worker, and
-- then the context is cancelled. Instances of the theorems on it.
use go_netflow.Base.{
  ℕ, ◌+◌, ◌*◌, ◌≤◌, ◌≡◌, refl, true, false, none, some, [], ◌∷◌, length, get_elem?, arith, ◌⊎◌,
}
use go_netflow.Base.Bytes.{codes}
use go_netflow.Base.Dict.{Dict}
use go_netflow.Base.Int64.{Time, second, epoch}
use go_netflow.Controller.Tests.{insertion_sort}
use go_netflow.Netflow.{Netflow, GoPacket, try_send, enqueue, dequeue, handle_packet}
use go_netflow.Netflow.Options.{ok, new, apply_opts, defaults}
use go_netflow.System.{
  System, Worker, new_tap, buffer_packet, forward_packet, Step, capture, forward, take_packet,
  handle, cancel, Reach, here, next, launch,
}
use go_netflow.System.Queues.{IsQueued, Reach-IsQueued}
use go_netflow.System.Stopping.{moves, is_worker_step, workers_end}

abbrev devices : Dict (Unit {0})
devices = (codes "eth0", tt) ∷ []

abbrev fresh : Netflow
fresh = defaults [] devices

new-fresh_run : new [] devices [] ≡ ok fresh
unfolding new apply_opts
new-fresh_run = refl

abbrev start : Time
start = (epoch + 100) * second

abbrev packet : GoPacket
packet = record { ipv4 = none; tcp = none }

-- The monitor with the packet in the buffer of its device, and then in its queue.
abbrev buffered : System
buffered = record (launch fresh start) {
  taps =
      record { buffer = record { capacity = 10000000; items = packet ∷ [] }; running = true } ∷ [];
}

abbrev queued : System
queued = record (launch fresh start) {
  nf = record fresh {
    packet_queue = record fresh.packet_queue { items = packet ∷ [] };
    counter = 1;
  };
  accepted = packet ∷ [];
}

abbrev taken : System
taken = record queued {
  nf = record fresh { counter = 1 };
  workers = Worker.holds packet ∷ [];
  taken = packet ∷ [];
}

abbrev cancelled : System
cancelled = record taken { nf = record taken.nf { ctx_done = true } }

abbrev finished : System
finished = record cancelled {
  nf = handle_packet cancelled.nf packet start;
  workers = Worker.idle ∷ [];
  handled = 1;
}

to_cancelled : Reach [] insertion_sort (launch fresh start) cancelled
unfolding buffer_packet try_send forward_packet enqueue dequeue
to_cancelled =
    next
      (next
        (next (next here (capture 0 new_tap packet refl refl)) (forward 0 _ packet [] refl refl))
        (take_packet 0 false packet _ refl refl))
      cancel

abbrev to_finished : Reach [] insertion_sort cancelled finished
to_finished = next here (handle 0 packet start refl (omega arith))

Reach-IsQueued_example : IsQueued cancelled
Reach-IsQueued_example =
    Reach-IsQueued [] insertion_sort [] devices [] fresh start new-fresh_run to_cancelled

workers_end_example :
    (moves [] insertion_sort to_finished ≤ 3 * length cancelled.nf.packet_queue.items + 2 * 1)
    × ((i : ℕ) (w : Worker)
        → get_elem? finished.workers i ≡ some w
        → (w ≡ Worker.ended)
          ⊎ ((u : System) × (st : Step [] insertion_sort finished u) × (is_worker_step []
                  insertion_sort st
                ≡ true)))
workers_end_example = workers_end [] insertion_sort to_finished refl refl
