-- ===== src/Traffic/Window.antt =====
-- What `analyseStats` reports, against the packets that were counted: a ring that has seen any
-- run of packets holds every byte of the last 60 seconds.
use go_netflow.Base.{
  ℕ, ◌+◌, ◌-◌, ◌*◌, ◌/◌, ◌%◌, ◌≤◌, ◌<◌, ◌≡◌, ap, ◌∙◌, false, List, [], ◌∷◌, some, arith, ◌==◌, ltb,
  Bool-cases, inl, inr,
}
use go_netflow.Base.Int64.{
  Time, unix, mod64, half64, add64, epoch, second, quot64, mul64, neg64, add_time,
}
use go_netflow.Traffic.{
  TrafficEntry, TrafficStatsEntry, Process, SideOption, input_side, output_side, sum_window,
  new_stats, analyse_stats, threshold,
}
use go_netflow.Traffic.Ring.{IsRing, Until}
use go_netflow.Traffic.Amount.{
  amount, bytes_of, Packet, replay, total, Rising, amount-replay, replay-IsRing, ltb64-eq-ltb,
}

-- The statistics with other byte counts.
abbrev pub with_bytes : TrafficStatsEntry → ℕ → ℕ → TrafficStatsEntry
with_bytes stats i o = record stats { in_bytes = i; out_bytes = o }

sum_window_lem :
    (thold now : ℕ) (stats : TrafficStatsEntry) (ring : List TrafficEntry)
    → thold < half64
    → now < half64
    → Until now ring
    → stats.in_bytes < mod64
    → stats.out_bytes < mod64
    → sum_window thold stats ring
      ≡ with_bytes stats
          ((stats.in_bytes + amount (bytes_of input_side) thold ring) % mod64)
          ((stats.out_bytes + amount (bytes_of output_side) thold ring) % mod64)
unfolding sum_window
sum_window_lem thold now stats [] ht hn u hi ho = ground arith
sum_window_lem thold now stats (e ∷ ring) ht hn u hi ho =
    let next : TrafficStatsEntry = record stats {
      in_bytes = add64 stats.in_bytes e.in_bytes;
      out_bytes = add64 stats.out_bytes e.out_bytes;
    } in
    rw (ltb64-eq-ltb e.timestamp thold (omega arith) ht)
      (elim (Bool-cases (ltb e.timestamp thold)) [
        | inl old ↦ rw old (sum_window_lem thold now stats ring ht hn u.1 hi ho ∙ ground arith)
        | inr new ↦ rw new (
            sum_window_lem thold now next ring ht hn u.1 (omega arith) (omega arith) ∙ ground arith)
      ])

-- The window of `sec` seconds starts at the current second less `sec`.
back_lem : (sec : ℕ) → 0 < sec → sec < 60 → mul64 (neg64 sec) second ≡ mod64 - sec * second
back_lem sec h1 h2 = omega arith

pub unix_lem :
    (clock : Time)
    → epoch ≤ clock / second
    → clock / second < half64
    → unix clock ≡ clock / second - epoch
unix_lem clock h1 h2 = omega arith

add_time_back :
    (sec : ℕ) (clock : Time)
    → 0 < sec
    → sec < 60
    → sec ≤ clock / second
    → add_time clock (mod64 - sec * second) / second ≡ clock / second - sec
add_time_back sec clock h1 h2 h3 = ground arith

threshold_lem :
    (sec : ℕ) (clock : Time)
    → 0 < sec
    → sec < 60
    → epoch + sec ≤ clock / second
    → clock / second < half64
    → threshold sec clock ≡ unix clock - sec
threshold_lem sec clock h1 h2 he hc =
    rw (back_lem sec h1 h2)
      (omega (arith, add_time_back sec clock h1 h2 (omega arith), unix_lem clock (omega arith) hc))

-- An empty ring holds nothing, and is well formed at any time.
pub empty-IsRing : (now : ℕ) (p : Process) → p.ring ≡ [] → IsRing now p
empty-IsRing now p e = record { bounded = rw e (omega arith); ascending = rw e tt; past = rw e tt }

replayed :
    (side : SideOption) (p : Process) (packets : List Packet) (b now : ℕ)
    → p.ring ≡ []
    → Rising 0 packets now
    → now < b + 60
    → (0 + amount (bytes_of side) b (replay p packets).ring) % mod64 ≡ total side b packets % mod64
replayed side p packets b now e r h =
    omega arith
    ∙ amount-replay side b 0 now p packets (empty-IsRing 0 p e) r h
    ∙ ap (λ ring. (amount (bytes_of side) b ring + total side b packets) % mod64) e
    ∙ omega arith

pos-eq_zero : (sec : ℕ) → 0 < sec → (sec == 0) ≡ false
pos-eq_zero sec h = ground arith

-- What `analyseStats` stores for a window of `sec` seconds from 1 to 59, of a process that started
-- with an empty ring and then counted any run of packets, the clock never set back: the bytes of
-- each direction of the packets from second `now - sec` on, modulo 2 ^ 64, and their quotient
-- by `sec`.
pub analyse_stats-replay :
    (p : Process) (packets : List Packet) (sec : ℕ) (clock : Time)
    → p.ring ≡ []
    → Rising 0 packets (unix clock)
    → 0 < sec
    → sec < 60
    → epoch + sec ≤ clock / second
    → clock / second < half64
    → let i = total input_side (unix clock - sec) packets % mod64 in
      let o = total output_side (unix clock - sec) packets % mod64 in
      (analyse_stats (replay p packets) sec clock).traffic_stats
      ≡ some (record {
        in_bytes = i;
        out_bytes = o;
        in_rate = quot64 i sec;
        out_rate = quot64 o sec;
        input_ewma = 0;
        output_ewma = 0;
      })
unfolding analyse_stats
analyse_stats-replay p packets sec clock empty r h1 h2 he hc =
    let now = unix clock in
    let p' = replay p packets in
    let v = replay-IsRing 0 now p packets (empty-IsRing 0 p empty) r in
    let u = unix_lem clock (omega arith) hc in
    let i = replayed input_side p packets (now - sec) now empty r (omega arith) in
    let o = replayed output_side p packets (now - sec) now empty r (omega arith) in
    rw (
      threshold_lem sec clock h1 h2 he hc,
      sum_window_lem (now - sec) now new_stats p'.ring (omega arith) (omega arith) v.past
          (omega arith) (omega arith),
      pos-eq_zero sec h1,
      i,
      o,
    )
