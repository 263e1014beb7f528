-- ===== src/System.antt =====
-- netflow.go: the goroutines of the monitor, as steps that interleave in any order: the capture of
-- each device (`captureDevice`), which fills a buffer that a second goroutine empties; the workers
-- (`loopHandlePacket`), which take a packet and then handle it; the syncer
-- (`startResourceSyncer`), a round of its inner loop at a time; the cleaner of `New`; a client's
-- `GetProcessRank`; and the cancelled context of `Stop`. One step is what a goroutine does between
-- two waits, with a clock that it may have read before. The workers and the syncer change a process
-- without a lock, so that two changes at once may leave its ring as neither would: for this, `mix`
-- lets the ring of any process become any list at any time, more than the code can do. A panic is
-- no step, and a capture whose channel of packets is closed is not modelled.
-- `accepted`, `taken` and `handled` are not of the code: they record what happened to the packets.
pub mod Keeps
pub mod Queues
pub mod Stats
pub mod Health
pub mod Soundness
pub mod Stopping
mod Tests
use go_netflow.Base.{
  ℕ, ◌+◌, ◌/◌, ◌≤◌, ◌<◌, ◌≡◌, Bool, true, false, Option, none, some, List, [], ◌∷◌, ◌++◌,
  if◌then◌else◌, ltb, get_elem?, set, map, length, replicate,
}
use go_netflow.Base.Bytes.{Bytes}
use go_netflow.Base.Dict.{Dict}
use go_netflow.Base.Int64.{Int64, Time, second, half64}
use go_netflow.Base.Outcome.{Outcome, returns}
use go_netflow.Traffic.{Process, TrafficEntry}
use go_netflow.Controller.{Ptr, update}
use go_netflow.Scan.{Proc, get_processes}
use go_netflow.Netflow.{
  Netflow, Chan, GoPacket, DelayEntry, try_send, handle_packet, enqueue, dequeue,
}
use go_netflow.Netflow.Sync.{Line, rescan_resouce, clean_up, handle_delay_entry, next_entry}
use go_netflow.Netflow.Rank.{Ranking, get_process_rank}

-- A device: `packetChan`, which its loop closes when it ends.
pub record Tap : Type 0 where
  pub buffer : Chan GoPacket
  pub running : Bool

-- `make(chan gopacket.Packet, 10000000)`
abbrev pub new_tap : Tap
new_tap = record { buffer = record { capacity = 10000000; items = [] }; running = true }

-- A worker: at `dequeue`, at `handlePacket` with a packet, or ended.
pub data Worker : Type 0 where
  idle : Worker
  holds : GoPacket → Worker
  ended : Worker

-- The syncer: before its first rescan; at the ticker, with the entry that it holds; in the inner
-- loop, with the time of the rescan too; or ended.
pub data Syncer : Type 0 where
  starts : Syncer
  waits : Option DelayEntry → Syncer
  drains : Time → Option DelayEntry → Syncer
  ended : Syncer

pub record System : Type 0 where
  pub nf : Netflow
  pub now : Time
  pub taps : List Tap
  pub workers : List Worker
  pub syncer : Syncer
  pub accepted : List GoPacket
  pub taken : List GoPacket
  pub handled : ℕ

-- The inner `select` of `captureDevice`: a packet that finds the buffer full is lost.
unfoldable pub buffer_packet : Tap → GoPacket → Tap
buffer_packet tap pkt = elim (try_send tap.buffer pkt) [
  | none ↦ tap
  | some ch ↦ record tap { buffer = ch }
]

-- The goroutine that empties the buffer of device `i`: one packet goes on to `enqueue`.
unfoldable pub forward_packet : System → ℕ → Tap → GoPacket → List GoPacket → System
forward_packet s i tap pkt rest =
    let fits = ltb (length s.nf.packet_queue.items) s.nf.packet_queue.capacity in
    record s {
      nf = enqueue s.nf pkt;
      taps = set s.taps i (record tap { buffer = record tap.buffer { items = rest } });
      accepted = if fits then s.accepted ++ pkt ∷ [] else s.accepted;
    }

-- One round of the inner loop of `startResourceSyncer`, at time `now`.
unfoldable pub sync_round : Bool → Time → Time → Option DelayEntry → Netflow → Syncer × Netflow
sync_round take_done now last_time entry nf =
    let (found, nf') = next_entry take_done entry nf in
    elim found [
      | none ↦ (waits none, nf')
      | some e ↦
          if ltb last_time e.timestamp
          then (waits (some e), nf')
          else (drains last_time none, handle_delay_entry nf' e now)
    ]

-- Where a rescan at time `now` leaves the syncer: the first one is not followed by the inner loop.
-- `none` is a syncer that does not rescan.
abbrev pub after_rescan : Time → Syncer → Option Syncer
after_rescan now starts = some (waits none)
after_rescan now (waits entry) = some (drains now entry)
after_rescan now (drains last_time entry) = none
after_rescan now ended = none

-- A process with another ring.
unfoldable pub mixed : Netflow → Ptr → List TrafficEntry → Netflow
mixed nf x ring =
    let heap' = update (λ p. record p { ring = ring }) x nf.process_hash.heap in
    record nf { process_hash = record nf.process_hash { heap = heap' } }

module _ (users : Dict Bytes) (sort_by : (Ptr → Ptr → Bool) → List Ptr → List Ptr) where
  -- The clock stays below 2 ^ 63 seconds.
  pub data Step (s : System) : System → Type 0 where
    pass : (t : Time) → s.now ≤ t → t / second < half64 → Step s (record s { now = t })
    capture :
        (i : ℕ) (tap : Tap) (pkt : GoPacket)
        → get_elem? s.taps i ≡ some tap
        → tap.running ≡ true
        → Step s (record s { taps = set s.taps i (buffer_packet tap pkt) })
    close :
        (i : ℕ) (tap : Tap)
        → get_elem? s.taps i ≡ some tap
        → s.nf.ctx_done ≡ true
        → Step s (record s { taps = set s.taps i (record tap { running = false }) })
    forward :
        (i : ℕ) (tap : Tap) (pkt : GoPacket) (rest : List GoPacket)
        → get_elem? s.taps i ≡ some tap
        → tap.buffer.items ≡ pkt ∷ rest
        → Step s (forward_packet s i tap pkt rest)
    take_packet :
        (i : ℕ) (take_done : Bool) (pkt : GoPacket) (nf' : Netflow)
        → get_elem? s.workers i ≡ some Worker.idle
        → dequeue take_done s.nf ≡ some (some pkt, nf')
        → Step s (record s {
          nf = nf';
          workers = set s.workers i (Worker.holds pkt);
          taken = s.taken ++ pkt ∷ [];
        })
    leave :
        (i : ℕ) (take_done : Bool) (nf' : Netflow)
        → get_elem? s.workers i ≡ some Worker.idle
        → dequeue take_done s.nf ≡ some (none, nf')
        → Step s (record s { nf = nf'; workers = set s.workers i Worker.ended })
    handle :
        (i : ℕ) (pkt : GoPacket) (clock : Time)
        → get_elem? s.workers i ≡ some (Worker.holds pkt)
        → clock ≤ s.now
        → Step s (record s {
          nf = handle_packet s.nf pkt clock;
          workers = set s.workers i Worker.idle;
          handled = s.handled + 1;
        })
    tick :
        (fs : Proc) (lines : Option (List Line)) (found : Option (Dict Process)) (nf' : Netflow)
        (syncer' : Syncer)
        → after_rescan s.now s.syncer ≡ some syncer'
        → get_processes fs s.nf.process_hash.filter_pname ≡ returns found
        → rescan_resouce users s.nf lines found ≡ returns nf'
        → Step s (record s { nf = nf'; syncer = syncer' })
    round :
        (take_done : Bool) (clock last_time : Time) (entry : Option DelayEntry)
        → s.syncer ≡ Syncer.drains last_time entry
        → clock ≤ s.now
        → Step s (record s {
          syncer = (sync_round take_done clock last_time entry s.nf).0;
          nf = (sync_round take_done clock last_time entry s.nf).1;
        })
    quit :
        (entry : Option DelayEntry)
        → s.syncer ≡ Syncer.waits entry
        → s.nf.ctx_done ≡ true
        → Step s (record s { syncer = Syncer.ended })
    clean : Step s (record s { nf = clean_up s.nf s.now })
    rank :
        (limit sec : Int64) (clock : Ptr → Time) (r : Ranking) (nf' : Netflow)
        → get_process_rank sort_by s.nf limit sec clock ≡ some (r, nf')
        → Step s (record s { nf = nf' })
    mix : (x : Ptr) (ring : List TrafficEntry) → Step s (record s { nf = mixed s.nf x ring })
    cancel : Step s (record s { nf = record s.nf { ctx_done = true } })

  -- The states that a run from `s` reaches.
  pub data Reach (s : System) : System → Type 0 where
    here : Reach s s
    next : {t u : System} → Reach s t → Step t u → Reach s u

-- `Start` after `New`: a capture for each device, the workers and the syncer.
abbrev pub launch : Netflow → Time → System
launch nf now = record {
  nf = nf;
  now = now;
  taps = map (λ _. new_tap) nf.bind_devices;
  workers = replicate nf.worker_num Worker.idle;
  syncer = Syncer.starts;
  accepted = [];
  taken = [];
  handled = 0;
}
